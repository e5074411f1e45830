-- ===== src/Elastic/Store.antt =====
-- The write path of the adapter: `IndexingMixin`, src/code_rag/adapters/elasticsearch/_indexing.py.
-- The state of each index is a field; a bulk request is its index operations in order.
use code_rag.Prelude.{
  ℕ, ◌+◌, String, Bool, true, false, ◌&&◌, ◌||◌, Option, none, some, List, [], ◌∷◌, ◌++◌, map,
  if◌then◌else◌, ◌==◌, nat_eq, string_eq, list_eq, pair_eq, option_eq, length, take, keep_if,
}
use Prim.Native.String.{◌++◌ as ◌++ˢ◌}
use code_rag.Prelude.Dict.{Dict}
use code_rag.Prelude.Sets.{contains, distinct, sorted_set}
use code_rag.Elastic.Records.{CodeChunk, CodeSymbol, CodeEdge, CodeCommunity, FileMetadata}
use code_rag.Elastic.Corpus.{Corpus}

-- The document of a file: its metadata, and what `replace_file` adds.
pub record FileDocument : Type 0 where
  pub metadata : FileMetadata
  pub defined_symbols : List String
  pub referenced_symbols : List String
  pub imports : List String
  pub chunk_ids : List String
  pub indexed_at : Option ℕ

-- What is kept of a chunk's embedding.
pub record StoredEmbedding (Score : Type 0) : Type 0 where
  pub embedding_input_hash : Option String
  pub embedding_dense : List Score
  pub embedding_late_interaction : List (List Score)

-- The indices of one client.
pub record Client (Score RepoDocument : Type 0) : Type 1 where
  pub chunks : Corpus Score (CodeChunk Score)
  pub symbols : Corpus Score CodeSymbol
  pub edges : Corpus Score (CodeEdge Score)
  pub communities : Corpus Score (CodeCommunity Score)
  pub files : Corpus Score FileDocument
  pub repos : Corpus Score RepoDocument

module _ {Score RepoDocument : Type 0} (client : Client Score RepoDocument) where
  pub record Indices : Type 0 where
    pub chunks_index : client.chunks.State
    pub symbols_index : client.symbols.State
    pub edges_index : client.edges.State
    pub communities_index : client.communities.State
    pub files_index : client.files.State
    pub repos_index : client.repos.State

  -- "|".join(...)
  abbrev pub file_id : FileMetadata → String
  file_id m =
      m.tenant_id ++ˢ "|" ++ˢ m.gitlab_project_id ++ˢ "|" ++ˢ m.branch ++ˢ "|" ++ˢ m.file_path

  abbrev pub in_file : String → String → String → String → CodeChunk Score → Bool
  in_file tenant project branch path c =
      c.tenant_id == tenant
      && c.gitlab_project_id == project
      && c.branch == branch
      && c.file_path == path

  abbrev pub is_file : String → String → String → String → FileDocument → Bool
  is_file tenant project branch path f =
      f.metadata.tenant_id == tenant
      && f.metadata.gitlab_project_id == project
      && f.metadata.branch == branch
      && f.metadata.file_path == path

  abbrev pub defined_in : String → String → String → String → CodeSymbol → Bool
  defined_in tenant project branch path s =
      s.tenant_id == tenant
      && s.gitlab_project_id == project
      && s.branch == branch
      && s.definition_file_path == path

  abbrev pub touches : String → String → String → String → CodeEdge Score → Bool
  touches tenant project branch path e =
      e.tenant_id == tenant
      && e.branch == branch
      && e.source_repo_project_id == project
      && (e.source_file_path == path || e.target_file_path == some path)

  unfoldable pub delete_file : String → String → String → String → Indices → Indices × ℕ
  delete_file tenant project branch path s =
      let chunks =
        client.chunks.delete_by_query (in_file tenant project branch path) s.chunks_index in
      let files = client.files.delete_by_query (is_file tenant project branch path) s.files_index in
      let symbols =
        client.symbols.delete_by_query (defined_in tenant project branch path) s.symbols_index in
      let edges = client.edges.delete_by_query (touches tenant project branch path) s.edges_index in
      (
        record s {
          chunks_index = chunks.0;
          files_index = files.0;
          symbols_index = symbols.0;
          edges_index = edges.0;
        },
        chunks.1 + files.1 + symbols.1,
      )

  -- helpers.bulk, of index operations on one index
  abbrev pub index_all :
      {D : Type 0} (corpus : Corpus Score D) → (D → String) → List D → corpus.State → corpus.State
  index_all corpus id_of [] s = s
  index_all corpus id_of (d ∷ ds) s = index_all corpus id_of ds (corpus.index (id_of d) d s)

  abbrev pub concat_map : {A : Type 0} → (A → List String) → List A → List String
  concat_map f [] = []
  concat_map f (x ∷ xs) = f x ++ concat_map f xs

  abbrev pub first_indexed_at : List (CodeChunk Score) → Option ℕ
  first_indexed_at [] = none
  first_indexed_at (c ∷ chunks) = some c.indexed_at

  unfoldable pub file_document :
      FileMetadata → List (CodeChunk Score) → List CodeSymbol → FileDocument
  file_document metadata chunks symbols = record {
    metadata = metadata;
    defined_symbols = map (λ s. s.symbol_fqn) symbols;
    referenced_symbols = sorted_set (concat_map (λ c. c.references_symbols) chunks);
    imports = sorted_set (concat_map (λ c. c.imports) chunks);
    chunk_ids = map (λ c. c.chunk_id) chunks;
    indexed_at = first_indexed_at chunks;
  }

  unfoldable pub replace_file :
      FileMetadata
      → List (CodeChunk Score)
      → List CodeSymbol
      → List (CodeEdge Score)
      → Indices
      → Indices × (ℕ × ℕ)
  unfolding delete_file file_document
  replace_file metadata chunks symbols edges s =
      let deleted =
        delete_file metadata.tenant_id metadata.gitlab_project_id metadata.branch metadata.file_path
          s in
      let t = deleted.0 in
      (
        record t {
          files_index =
              client.files.index (file_id metadata) (file_document metadata chunks symbols)
                t.files_index;
          chunks_index = index_all client.chunks (λ c. c.chunk_id) chunks t.chunks_index;
          symbols_index = index_all client.symbols (λ x. x.symbol_id) symbols t.symbols_index;
          edges_index = index_all client.edges (λ e. e.edge_id) edges t.edges_index;
        },
        (length chunks, deleted.1),
      )

  -- mget: the documents that are found, by id
  unfoldable pub existing_embeddings : List String → Indices → Dict String (StoredEmbedding Score)
  existing_embeddings [] s = []
  existing_embeddings (id ∷ ids) s =
      let rest = existing_embeddings ids s in
      elim (client.chunks.get id s.chunks_index) [
        | none ↦ rest
        | some c ↦
            (
              id,
              record {
                embedding_input_hash = c.embedding_input_hash;
                embedding_dense = c.embedding_dense;
                embedding_late_interaction = c.embedding_late_interaction;
              },
            )
            ∷ rest
      ]

  unfoldable pub file_hash : String → String → String → String → Indices → Option String
  file_hash tenant project branch path s =
      elim (client.files.search (is_file tenant project branch path) [] 1 s.files_index) [
        | [] ↦ none
        | item ∷ items ↦ some item.source.metadata.file_hash
      ]

  unfoldable pub index_repo : String → RepoDocument → Indices → Indices
  index_repo repo_id document s = record s {
    repos_index = client.repos.index repo_id document s.repos_index;
  }

  unfoldable pub index_communities : List (CodeCommunity Score) → Indices → Indices
  index_communities communities s = record s {
    communities_index =
        index_all client.communities (λ c. c.community_id) communities s.communities_index;
  }

  abbrev pub of_project : String → String → String → CodeCommunity Score → Bool
  of_project tenant project branch c =
      c.tenant_id == tenant && c.gitlab_project_id == project && c.branch == branch

  unfoldable pub delete_project_communities : String → String → String → Indices → Indices × ℕ
  delete_project_communities tenant project branch s =
      let deleted =
        client.communities.delete_by_query (of_project tenant project branch) s.communities_index in
      (record s { communities_index = deleted.0 }, deleted.1)

  abbrev pub from_project : String → String → String → CodeEdge Score → Bool
  from_project tenant project branch e =
      e.tenant_id == tenant && e.branch == branch && e.source_repo_project_id == project

  -- if bucket["key"]
  abbrev pub source_ids : List (CodeEdge Score) → List String
  source_ids [] = []
  source_ids (e ∷ edges) = elim e.source_symbol_id [
    | none ↦ source_ids edges
    | some id ↦ if id == "" then source_ids edges else id ∷ source_ids edges
  ]

  abbrev pub is_missing : Indices → String → Bool
  is_missing s id = elim (client.chunks.get id s.chunks_index) [ none ↦ true | some c ↦ false ]

  abbrev pub starts_at : String → String → List String → CodeEdge Score → Bool
  starts_at tenant branch ids e =
      e.tenant_id == tenant
      && e.branch == branch
      && elim e.source_symbol_id [ none ↦ false | some id ↦ contains id ids ]

  -- The terms aggregation gives each source id once, 50,000 of them at most.
  unfoldable pub prune_orphaned_edges : String → String → String → Indices → Indices × ℕ
  prune_orphaned_edges tenant project branch s =
      let found = take 50000 (
        distinct
          (source_ids (client.edges.scan (from_project tenant project branch) s.edges_index))) in
      let orphaned = keep_if (is_missing s) found in
      let deleted = client.edges.delete_by_query (starts_at tenant branch orphaned) s.edges_index in
      if orphaned == [] then (s, 0) else (record s { edges_index = deleted.0 }, deleted.1)

  -- Make recent writes visible.
  unfoldable pub refresh_search_indices : Indices → Indices
  refresh_search_indices s = record s {
    chunks_index = client.chunks.refresh s.chunks_index;
    symbols_index = client.symbols.refresh s.symbols_index;
    edges_index = client.edges.refresh s.edges_index;
  }

  abbrev pub symbol_of_project : String → String → String → CodeSymbol → Bool
  symbol_of_project tenant project branch x =
      x.tenant_id == tenant && x.gitlab_project_id == project && x.branch == branch

  unfoldable pub read_graph :
      String → String → String → Indices → List CodeSymbol × List (CodeEdge Score)
  read_graph tenant project branch s = (
    client.symbols.scan (symbol_of_project tenant project branch) s.symbols_index,
    client.edges.scan (from_project tenant project branch) s.edges_index,
  )
