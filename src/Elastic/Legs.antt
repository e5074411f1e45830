-- ===== src/Elastic/Legs.antt =====
-- The read path of the adapter: `SearchMixin`, src/code_rag/adapters/elasticsearch/_search.py, which
-- makes the legs that the retrieval service searches.
use code_rag.Prelude.{
  ℕ, ◌*◌, max, String, Bool, true, ◌&&◌, ◌||◌, Option, none, some, List, [], ◌∷◌, ◌++◌, map, eqb,
  if◌then◌else◌, ◌==◌, nat_eq, string_eq, list_eq, pair_eq, option_eq, length, take,
}
use code_rag.Prelude.Sets.{contains}
use code_rag.Retrieval.Hits.{SearchHit}
use code_rag.Retrieval.Expansion.{EdgeType}
use code_rag.Retrieval.Service.{Filters, SearchPort}
use code_rag.Elastic.Records.{CodeSymbol, CodeEdge}
use code_rag.Elastic.Corpus.{Relevance, multi_match, terms, knn, Item}
use code_rag.Elastic.Store.{Client, Indices}
use code_rag.Elastic.Queries.{
  Value, edge_type_value, filters_pass, edge_filters_pass, community_filters_pass,
  symbol_filters_pass, chunk_ids_query, hit_of, community_hit_of, mark, joined, last_name,
}

-- {"terms": {"edge_type": edge_types}}, where there are some
abbrev pub of_types : {Score : Type 0} → List EdgeType → CodeEdge Score → Bool
of_types [] e = true
of_types (t ∷ types) e = contains (edge_type_value e.edge_type) (map edge_type_value (t ∷ types))

module _ {Score RepoDocument : Type 0} (client : Client Score RepoDocument) where
  unfoldable pub lexical_search :
      Indices client → String → Filters → ℕ → List (SearchHit Score (Value Score))
  lexical_search s query filters size = map hit_of (
      client.chunks.search (filters_pass filters)
        (multi_match query (
            "text^3" ∷ "symbol_name_text^4" ∷ "symbol_fqn_text^4" ∷ "file_path_text^2"
            ∷ "repo_name^1.5" ∷ "summary" ∷ [])
          ∷ [])
        size s.chunks_index)

  unfoldable pub vector_search :
      Indices client → List Score → Filters → ℕ → List (SearchHit Score (Value Score))
  vector_search s [] filters size = []
  vector_search s (x ∷ vector) filters size = map hit_of (
      client.chunks.search (filters_pass filters) (knn (x ∷ vector) (max (size * 8) 50) ∷ []) size
        s.chunks_index)

  -- if not chunk_ids: return []
  unfoldable pub chunks_by_id :
      Indices client → List String → Filters → List (SearchHit Score (Value Score))
  chunks_by_id s [] filters = []
  chunks_by_id s (id ∷ ids) filters = map hit_of (
      client.chunks.search (chunk_ids_query (id ∷ ids) filters) [] (length (id ∷ ids))
        s.chunks_index)

  unfoldable pub symbol_search :
      Indices client → List String → Filters → ℕ → List (SearchHit Score (Value Score))
  unfolding chunks_by_id
  symbol_search s [] filters size = []
  symbol_search s (name ∷ names) filters size =
      let found =
        client.symbols.search (symbol_filters_pass filters)
          (terms "symbol_name" (name ∷ names)
            ∷ terms "symbol_fqn" (name ∷ names)
            ∷ multi_match (joined (name ∷ names))
                ("symbol_name_text^3" ∷ "symbol_fqn_text^2" ∷ "signature" ∷ [])
            ∷ [])
          size s.symbols_index in
      chunks_by_id s (map (λ item. item.source.definition_chunk_id) found) filters

  -- if item["_source"].get("source_symbol_id")
  abbrev pub edge_chunk_ids : List (Item Score (CodeEdge Score)) → List String
  edge_chunk_ids [] = []
  edge_chunk_ids (item ∷ items) = elim item.source.source_symbol_id [
    | none ↦ edge_chunk_ids items
    | some id ↦ if id == "" then edge_chunk_ids items else id ∷ edge_chunk_ids items
  ]

  unfoldable pub edge_search :
      Indices client → List String → Filters → ℕ → List (SearchHit Score (Value Score))
  unfolding chunks_by_id
  edge_search s [] filters size = []
  edge_search s (name ∷ names) filters size =
      let found =
        client.edges.search (edge_filters_pass filters)
          (terms "source_symbol_fqn" (name ∷ names)
            ∷ terms "target_symbol_fqn" (name ∷ names)
            ∷ multi_match (joined (name ∷ names))
                ("source_symbol_text^2" ∷ "target_symbol_text^3" ∷ "edge_type" ∷ [])
            ∷ [])
          size s.edges_index in
      map (mark "edge_match") (chunks_by_id s (edge_chunk_ids found) filters)

  -- if candidate and candidate not in seeds and candidate not in neighbor_fqns
  abbrev pub add_candidate : List String → Option String → List String → List String
  add_candidate seeds none found = found
  add_candidate seeds (some candidate) found =
      if candidate == "" || contains candidate seeds || contains candidate found
      then found
      else found ++ (candidate ∷ [])

  unfoldable pub neighbor_fqns :
      List String → List (Item Score (CodeEdge Score)) → List String → List String
  neighbor_fqns seeds [] found = found
  neighbor_fqns seeds (item ∷ items) found = neighbor_fqns seeds items (
      add_candidate seeds item.source.target_symbol_fqn
        (add_candidate seeds item.source.source_symbol_fqn found))

  -- if item["_source"].get("definition_chunk_id")
  abbrev pub definition_chunk_ids : List (Item Score CodeSymbol) → List String
  definition_chunk_ids [] = []
  definition_chunk_ids (item ∷ items) =
      if item.source.definition_chunk_id == ""
      then definition_chunk_ids items
      else item.source.definition_chunk_id ∷ definition_chunk_ids items

  -- The neighbours' definitions.
  unfoldable pub resolve_neighbors :
      Indices client → List String → Filters → ℕ → List (SearchHit Score (Value Score))
  unfolding chunks_by_id
  resolve_neighbors s [] filters size = []
  resolve_neighbors s (fqn ∷ fqns) filters size =
      let found =
        client.symbols.search (symbol_filters_pass filters)
          (terms "symbol_fqn" (fqn ∷ fqns) ∷ terms "symbol_name" (map last_name (fqn ∷ fqns)) ∷ [])
          (max (size * 2) 20) s.symbols_index in
      map (mark "graph_expanded") (take size (chunks_by_id s (definition_chunk_ids found) filters))

  unfoldable pub neighbor_chunks :
      Indices client
      → List String
      → List EdgeType
      → Filters
      → ℕ
      → List (SearchHit Score (Value Score))
  unfolding resolve_neighbors
  neighbor_chunks s symbol_fqns types filters size =
      if symbol_fqns == [] || eqb size 0
      then []
      else let found =
          client.edges.search (λ e. edge_filters_pass filters e && of_types types e)
            (terms "source_symbol_fqn" symbol_fqns ∷ terms "target_symbol_fqn" symbol_fqns ∷ [])
            (max (size * 5) 25) s.edges_index in
        resolve_neighbors s (neighbor_fqns symbol_fqns found []) filters size

  -- if vector: should.append(...)
  abbrev pub knn_clause : List Score → ℕ → List (Relevance Score)
  knn_clause [] size = []
  knn_clause (x ∷ vector) size = knn (x ∷ vector) (max (size * 8) 50) ∷ []

  unfoldable pub community_search :
      Indices client → String → List Score → Filters → ℕ → List (SearchHit Score (Value Score))
  community_search s query vector filters size =
      if eqb size 0
      then []
      else map community_hit_of (
          client.communities.search (community_filters_pass filters)
            (multi_match query ("summary^2" ∷ "label^3" ∷ "label.keyword" ∷ [])
              ∷ knn_clause vector size)
            size s.communities_index)

  -- The port that the retrieval service is given.
  abbrev pub search_port : Indices client → SearchPort Score (Value Score)
  search_port s = record {
    lexical_search = λ query filters size. some (lexical_search s query filters size);
    symbol_search = λ names filters size. some (symbol_search s names filters size);
    edge_search = λ names filters size. some (edge_search s names filters size);
    vector_search = λ vector filters size. some (vector_search s vector filters size);
    neighbor_chunks = some (neighbor_chunks s);
    community_search =
        λ query vector filters size. some (community_search s query vector filters size);
  }
