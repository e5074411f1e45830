-- ===== src/Retrieval/Expansion.antt =====
-- Graph expansion: src/code_rag/apps/retrieval/graph_expander.py. The index's `neighbor_chunks` is
-- a parameter that may return any list of hits, with its own size limit kept or not.
use code_rag.Prelude.{
  ℕ, zero, suc, ◌-◌, max, String, not, ◌&&◌, ◌||◌, Option, none, some, List, [], ◌∷◌, ◌++◌, map,
  leb, eqb, if◌then◌else◌, ◌==◌, nat_eq, string_eq, list_eq, pair_eq, option_eq, length,
}
use code_rag.Prelude.Dict.{put}
use code_rag.Prelude.Sets.{contains, sorted_set}
use code_rag.Retrieval.Hits.{SearchHit}

pub data QueryType : Type 0 where
  definition_lookup usage_lookup architecture_question debugging_question : QueryType
  api_question config_question test_question deployment_question : QueryType
  ownership_question migration_question : QueryType

pub data EdgeType : Type 0 where
  imports calls references tests configures exposes_endpoint : EdgeType

-- _EDGE_TYPES_BY_QUERY
abbrev pub edge_types : QueryType → List EdgeType
edge_types definition_lookup = calls ∷ references ∷ imports ∷ []
edge_types usage_lookup = calls ∷ references ∷ []
edge_types architecture_question = calls ∷ imports ∷ references ∷ []
edge_types debugging_question = calls ∷ references ∷ []
edge_types api_question = exposes_endpoint ∷ calls ∷ []
edge_types config_question = configures ∷ imports ∷ []
edge_types test_question = tests ∷ calls ∷ []
edge_types deployment_question = configures ∷ []
edge_types migration_question = references ∷ calls ∷ []
edge_types ownership_question = imports ∷ []

-- What the loops change: the ids seen, the hits collected and the next frontier.
pub record Expansion (Score Value : Type 0) : Type 0 where
  pub seen : List String
  pub collected : List (SearchHit Score Value)
  pub frontier : List String

-- if hit.symbol_fqn: fqns.add(hit.symbol_fqn)
abbrev pub add_fqn : Option String → List String → List String
add_fqn none fqns = fqns
add_fqn (some fqn) fqns = if fqn == "" then fqns else fqn ∷ fqns

module _ {Score Value : Type 0} (true_value : Value) where
  unfoldable pub seed_fqns : ℕ → List (SearchHit Score Value) → List String
  seed_fqns zero hits = []
  seed_fqns (suc n) [] = []
  seed_fqns (suc n) (hit ∷ hits) = add_fqn hit.symbol_fqn (seed_fqns n hits)

  -- hit.metadata["graph_expanded"] = True
  abbrev pub mark_expanded : SearchHit Score Value → SearchHit Score Value
  mark_expanded hit = record hit { metadata = put "graph_expanded" true_value hit.metadata }

  unfoldable pub take_hit : SearchHit Score Value → Expansion Score Value → Expansion Score Value
  take_hit hit e = record {
    seen = hit.chunk_id ∷ e.seen;
    collected = e.collected ++ (mark_expanded hit ∷ []);
    frontier = add_fqn hit.symbol_fqn e.frontier;
  }

  -- The loop over the results of one hop, which stops as soon as enough are collected.
  unfoldable pub collect :
      ℕ → List (SearchHit Score Value) → Expansion Score Value → Expansion Score Value
  unfolding take_hit
  collect max_neighbors [] e = e
  collect max_neighbors (hit ∷ results) e =
      let is_seen = contains hit.chunk_id e.seen in
      let next = if is_seen then e else take_hit hit e in
      let rest = collect max_neighbors results next in
      if not is_seen && leb max_neighbors (length next.collected) then next else rest

  -- The loop over the hops. A frontier is a set: the index is handed its items in order, each once.
  unfoldable pub hop :
      (List String → List EdgeType → ℕ → List (SearchHit Score Value))
      → List EdgeType
      → ℕ
      → ℕ
      → Expansion Score Value
      → Expansion Score Value
  unfolding collect
  hop neighbor_chunks edges max_neighbors zero e = e
  hop neighbor_chunks edges max_neighbors (suc hops) e =
      let results =
        neighbor_chunks (sorted_set e.frontier) edges (max_neighbors - length e.collected) in
      let rest =
        hop neighbor_chunks edges max_neighbors hops
          (collect max_neighbors results (record e { frontier = [] })) in
      if e.frontier == [] || leb max_neighbors (length e.collected) then e else rest

  -- `neighbor_chunks` is `none` where the index does not have it. The filters of the request are
  -- the same in every call, and are part of it.
  unfoldable pub expand :
      Option (List String → List EdgeType → ℕ → List (SearchHit Score Value))
      → ℕ
      → ℕ
      → ℕ
      → List (SearchHit Score Value)
      → QueryType
      → List (SearchHit Score Value)
  unfolding hop seed_fqns
  expand none max_neighbors hops seed_hits hits query_type = []
  expand (some neighbor_chunks) max_neighbors hops seed_hits hits query_type =
      let start : Expansion Score Value = record {
        seen = map (λ hit. hit.chunk_id) hits;
        collected = [];
        frontier = seed_fqns seed_hits hits;
      } in
      let last = hop neighbor_chunks (edge_types query_type) max_neighbors (max 1 hops) start in
      if eqb max_neighbors 0 then [] else last.collected
