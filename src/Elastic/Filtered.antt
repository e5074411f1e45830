-- ===== src/Elastic/Filtered.antt =====
-- What every hit of a leg of the index has, when the hits of the documents that the filters let
-- through have it and the marks keep it.
use code_rag.Prelude.{
  ℕ, String, ◌≡◌, refl, inl, inr, Bool, true, false, ◌||◌, List, [], ◌∷◌, map, arith, eqb,
  Bool-cases, ◌==◌, nat_eq, string_eq, list_eq, pair_eq, option_eq, All, All-take, All-map,
}
use code_rag.Retrieval.Hits.{SearchHit}
use code_rag.Retrieval.Expansion.{EdgeType}
use code_rag.Retrieval.Service.{Filters}
use code_rag.Elastic.Records.{CodeChunk}
use code_rag.Elastic.Corpus.{Relevance, Item}
use code_rag.Elastic.Store.{Client, Indices}
use code_rag.Elastic.Queries.{Value, filters_pass, chunk_ids_query, hit_of, mark}
use code_rag.Elastic.Legs.{
  lexical_search, vector_search, chunks_by_id, symbol_search, edge_search, resolve_neighbors,
  neighbor_chunks,
}

pub All-map_to :
    {A B : Type 0} (P : A → Type 0) (Q : B → Type 0) (f : A → B) (xs : List A)
    → ((a : A) → P a → Q (f a))
    → All P xs
    → All Q (map f xs)
All-map_to P Q f [] step h = tt
All-map_to P Q f (x ∷ xs) step h = (step x h.0, All-map_to P Q f xs step h.1)

module _ {Score RepoDocument : Type 0} (client : Client Score RepoDocument) (s : Indices client)
    (filters : Filters) (P : SearchHit Score (Value Score) → Type 0) (Ok : CodeChunk Score → Type 0)
    (returned : (q : CodeChunk Score → Bool) (relevance : List (Relevance Score)) (size : ℕ)
      → All (λ item. Ok item.source) (client.chunks.search q relevance size s.chunks_index))
    (from : (item : Item Score (CodeChunk Score))
      → filters_pass filters item.source ≡ true
      → Ok item.source
      → P (hit_of item))
    (marked : (key : String) (hit : SearchHit Score (Value Score))
      → (key == "gitlab_project_id") ≡ false
      → (key == "branch") ≡ false
      → P hit
      → P (mark key hit)) where
  both :
      (items : List (Item Score (CodeChunk Score)))
      → All (λ item. filters_pass filters item.source ≡ true) items
      → All (λ item. Ok item.source) items
      → All P (map hit_of items)
  both [] passes ok = tt
  both (item ∷ items) passes ok = (from item passes.0 ok.0, both items passes.1 ok.1)

  pub lexical_search-All :
      (query : String) (size : ℕ) → All P (lexical_search client s query filters size)
  unfolding lexical_search
  lexical_search-All query size =
      both _ (client.chunks.search_filtered _ _ size _) (returned _ _ size)

  pub vector_search-All :
      (vector : List Score) (size : ℕ) → All P (vector_search client s vector filters size)
  unfolding vector_search
  vector_search-All [] size = tt
  vector_search-All (x ∷ vector) size =
      both _ (client.chunks.search_filtered _ _ size _) (returned _ _ size)

  by_id_filtered :
      (ids : List String) (c : CodeChunk Score)
      → chunk_ids_query ids filters c ≡ true
      → filters_pass filters c ≡ true
  unfolding chunk_ids_query
  by_id_filtered ids c passes = ground (arith, passes)

  chunks_by_id-All : (ids : List String) → All P (chunks_by_id client s ids filters)
  unfolding chunks_by_id
  chunks_by_id-All [] = tt
  chunks_by_id-All (id ∷ ids) =
      both _
        (All-map (λ item. chunk_ids_query (id ∷ ids) filters item.source ≡ true)
          (λ item passes. by_id_filtered (id ∷ ids) item.source passes) _
          (client.chunks.search_filtered (chunk_ids_query (id ∷ ids) filters) _ _ _))
        (returned _ _ _)

  pub symbol_search-All :
      (names : List String) (size : ℕ) → All P (symbol_search client s names filters size)
  unfolding symbol_search
  symbol_search-All [] size = tt
  symbol_search-All (name ∷ names) size = chunks_by_id-All _

  pub edge_search-All :
      (names : List String) (size : ℕ) → All P (edge_search client s names filters size)
  unfolding edge_search
  edge_search-All [] size = tt
  edge_search-All (name ∷ names) size =
      All-map_to P P (mark "edge_match") _ (λ hit h. marked "edge_match" hit refl refl h)
        (chunks_by_id-All _)

  resolve_neighbors-All :
      (fqns : List String) (size : ℕ) → All P (resolve_neighbors client s fqns filters size)
  unfolding resolve_neighbors
  resolve_neighbors-All [] size = tt
  resolve_neighbors-All (fqn ∷ fqns) size =
      All-map_to P P (mark "graph_expanded") _ (λ hit h. marked "graph_expanded" hit refl refl h)
        (All-take P size _ (chunks_by_id-All _))

  pub neighbor_chunks-All :
      (fqns : List String) (types : List EdgeType) (size : ℕ)
      → All P (neighbor_chunks client s fqns types filters size)
  unfolding neighbor_chunks
  neighbor_chunks-All fqns types size = elim (Bool-cases (fqns == [] || eqb size 0)) [
    | inl none_asked ↦ rw none_asked tt
    | inr asked ↦ rw asked (resolve_neighbors-All _ size)
  ]
