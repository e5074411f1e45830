-- ===== src/Retrieval/Service.antt =====
-- One search: `RetrievalService._search_sync` and `_community_search`,
-- src/code_rag/apps/retrieval/retrieval_service.py, as `search_sync`. The legs of the index, the
-- expanders of the query, the embedding of the query and the reranker's parts are parameters. The
-- threads of the pool compute independent values, which are bound in the order of the code. An
-- embedding or a leg that raises ends the search; an exception of `neighbor_chunks`, which would end
-- it too, is left out.
use code_rag.Prelude.{
  ℕ, ◌*◌, String, Bool, ◌||◌, Option, none, some, List, [], ◌∷◌, ◌++◌, if◌then◌else◌, ◌==◌, nat_eq,
  string_eq, list_eq, pair_eq, option_eq, take,
}
use Prim.Native.String.{◌++◌ as ◌++ˢ◌}
use code_rag.Prelude.Sets.{contains}
use code_rag.Permissions.Store.{PermissionStore}
use code_rag.Permissions.Service
use code_rag.Permissions.Service.{Result, ok, forbidden, resolve_allowed_projects}
use code_rag.Retrieval.Hits.{SearchHit, Scores}
use code_rag.Retrieval.Fusion.{rrf, some_or}
use code_rag.Retrieval.Expansion.{QueryType, EdgeType, expand}
use code_rag.Retrieval.Rerank.{RerankSettings, Outside, rerank}

pub record SearchRequest : Type 0 where
  pub query : String
  pub user_id : Option String
  pub allowed_project_ids : List String
  pub tenant_id : Option String
  pub branch : Option String
  pub repo_path_with_namespace : Option String
  pub repo_paths_with_namespace : List String
  pub top_k : ℕ

pub record Filters : Type 0 where
  pub tenant_id : String
  pub branch : String
  pub allowed_project_ids : List String
  pub repo_paths_with_namespace : Option (List String)

pub record SearchSettings : Type 0 where
  pub tenant_id : String
  pub branch : String
  pub hyde_enabled : Bool
  pub community_detection_enabled : Bool
  pub community_search_size : ℕ
  pub graph_expansion_enabled : Bool
  pub graph_expansion_max_neighbors : ℕ
  pub graph_expansion_hops : ℕ
  pub graph_expansion_seed_hits : ℕ

-- a or b, on texts
abbrev pub text_or : Option String → String → String
text_or none b = b
text_or (some a) b = if a == "" then b else a

-- The single path of a request is added to its paths unless it stands there.
abbrev pub repo_paths : SearchRequest → List String
repo_paths request = elim request.repo_path_with_namespace [
  | none ↦ request.repo_paths_with_namespace
  | some path ↦
      if path == "" || contains path request.repo_paths_with_namespace
      then request.repo_paths_with_namespace
      else request.repo_paths_with_namespace ++ (path ∷ [])
]

abbrev pub paths_filter : List String → Option (List String)
paths_filter [] = none
paths_filter (path ∷ paths) = some (path ∷ paths)

unfoldable pub filters_of : SearchSettings → SearchRequest → List String → Filters
filters_of settings request allowed_projects = record {
  tenant_id = text_or request.tenant_id settings.tenant_id;
  branch = text_or request.branch settings.branch;
  allowed_project_ids = allowed_projects;
  repo_paths_with_namespace = paths_filter (repo_paths request);
}

-- SearchPort. A leg is `none` where the call raises; `neighbor_chunks` is `none` where the index
-- lacks it; `community_search` is `none` where the index lacks it or the call fails.
pub record SearchPort (Score Value : Type 0) : Type 0 where
  pub lexical_search : String → Filters → ℕ → Option (List (SearchHit Score Value))
  pub symbol_search : List String → Filters → ℕ → Option (List (SearchHit Score Value))
  pub edge_search : List String → Filters → ℕ → Option (List (SearchHit Score Value))
  pub vector_search : List Score → Filters → ℕ → Option (List (SearchHit Score Value))
  pub neighbor_chunks :
      Option (List String → List EdgeType → Filters → ℕ → List (SearchHit Score Value))
  pub community_search : String → List Score → Filters → ℕ → Option (List (SearchHit Score Value))

-- The parts that the service is built from.
pub record Parts (Score Value Matrix : Type 0) : Type 0 where
  pub classify : String → QueryType
  pub identifiers : String → List String
  pub expand_query : String → String
  -- the snippet of HyDE, which may be empty
  pub hyde : String → Option String
  -- dense vector and late-interaction matrix of the query, and of the query with a snippet; `none`
  -- where the provider raises
  pub cached_query_embedding : String → Option (List Score × Matrix)
  pub embed_query : String → Option (List Score × Matrix)
  pub cross_encoder : Option (String → List String → List Score)

-- How a search ends: with hits, with status 403, or with an error of the provider, a leg or the
-- reranker.
pub data Outcome (A : Type 0) : Type 0 where
  answered : A → Outcome A
  denied : Outcome A
  failed : Outcome A

-- What is waited for one after the other: the first that raised raises.
abbrev pub also : {A : Type 0} → Option A → Option (List A) → Option (List A)
also none rest = none
also (some a) none = none
also (some a) (some rest) = some (a ∷ rest)

-- index.neighbor_chunks, under the filters of the request
abbrev pub under :
    {Hit : Type 0}
    → Filters
    → Option (List String → List EdgeType → Filters → ℕ → List Hit)
    → Option (List String → List EdgeType → ℕ → List Hit)
under filters none = none
under filters (some neighbor_chunks) =
    some (λ fqns edges size. neighbor_chunks fqns edges filters size)

module _ {Score Value Matrix : Type 0} (numbers : Scores Score)
    (outside : Outside Score Value Matrix) (rerank_settings : RerankSettings Score)
    (settings : SearchSettings) (index : SearchPort Score Value) (parts : Parts Score Value Matrix)
    (true_value : Value) where
  -- Called where community detection is on.
  unfoldable pub community_search : String → List Score → Filters → ℕ → List (SearchHit Score Value)
  community_search query vector filters size =
      some_or [] (index.community_search query vector filters size)

  -- The cached embedding is asked for first, also where HyDE replaces it.
  unfoldable pub query_embedding : String → Option (List Score × Matrix)
  query_embedding query = elim (parts.cached_query_embedding query) [
    | none ↦ none
    | some cached ↦
        if settings.hyde_enabled
        then elim (parts.hyde query) [
          | none ↦ some cached
          | some snippet ↦
              if snippet == "" then some cached else parts.embed_query (query ++ˢ "\n" ++ˢ snippet)
        ]
        else some cached
  ]

  -- if neighbors: result_sets.append(neighbors)
  abbrev pub append_set :
      List (List (SearchHit Score Value))
      → List (SearchHit Score Value)
      → List (List (SearchHit Score Value))
  append_set sets [] = sets
  append_set sets (hit ∷ hits) = sets ++ ((hit ∷ hits) ∷ [])

  -- [symbol_hits, edge_hits, lexical_hits, vector_hits]
  unfoldable pub leg_hits :
      SearchRequest → Filters → List Score → Option (List (List (SearchHit Score Value)))
  leg_hits request filters dense =
      let identifiers = parts.identifiers request.query in
      also (index.symbol_search identifiers filters request.top_k) (
        also (index.edge_search identifiers filters (request.top_k * 2)) (
          also (index.lexical_search (parts.expand_query request.query) filters (request.top_k * 2))
            (also (index.vector_search dense filters (request.top_k * 2)) (some []))))

  -- The neighbors of the fused hits, none where graph expansion is off.
  unfoldable pub neighbor_hits :
      SearchRequest → Filters → List (List (SearchHit Score Value)) → List (SearchHit Score Value)
  neighbor_hits request filters legs =
      if settings.graph_expansion_enabled
      then expand true_value (under filters index.neighbor_chunks)
          settings.graph_expansion_max_neighbors settings.graph_expansion_hops
          settings.graph_expansion_seed_hits (rrf numbers 60 legs) (parts.classify request.query)
      else []

  unfoldable pub community_hits :
      SearchRequest → Filters → List Score → List (SearchHit Score Value)
  unfolding community_search
  community_hits request filters dense =
      if settings.community_detection_enabled
      then community_search request.query dense filters settings.community_search_size
      else []

  -- result_sets, over the hits of the legs
  unfoldable pub result_sets :
      SearchRequest
      → Filters
      → List Score
      → List (List (SearchHit Score Value))
      → List (List (SearchHit Score Value))
  unfolding neighbor_hits community_hits
  result_sets request filters dense legs =
      append_set (append_set legs (neighbor_hits request filters legs))
        (community_hits request filters dense)

  -- The fused result sets, reranked and cut, once the query is embedded and the legs have answered.
  unfoldable pub ranked_hits :
      SearchRequest
      → Filters
      → List Score × Matrix
      → List (List (SearchHit Score Value))
      → Outcome (List (SearchHit Score Value))
  unfolding result_sets
  ranked_hits request filters embedding legs =
      let candidates = rrf numbers 60 (result_sets request filters embedding.0 legs) in
      let ranked =
        rerank numbers outside rerank_settings parts.cross_encoder candidates
          (parts.classify request.query) (parts.identifiers request.query) embedding.1
          request.query in
      elim ranked [ none ↦ failed | some hits ↦ answered (take request.top_k hits) ]

  -- `allowed` is what `resolve_allowed_projects` answers, or the request's own list without it.
  unfoldable pub search_sync :
      SearchRequest → Result (List String) → Outcome (List (SearchHit Score Value))
  unfolding ranked_hits leg_hits query_embedding filters_of
  search_sync request (forbidden refusal) = denied
  search_sync request (ok allowed_projects) =
      let filters = filters_of settings request allowed_projects in
      elim (query_embedding request.query) [
        | none ↦ failed
        | some embedding ↦ elim (leg_hits request filters embedding.0) [
          | none ↦ failed
          | some legs ↦ ranked_hits request filters embedding legs
        ]
      ]

  -- A search by the service with its permission service: the state of the latter is passed on.
  unfoldable pub search_as :
      (granting : Service.Settings) (port : PermissionStore)
      → ℕ
      → ℕ
      → Service.Service granting port
      → SearchRequest
      → Service.Service granting port × Outcome (List (SearchHit Score Value))
  unfolding search_sync
  search_as granting port now later svc request =
      let resolved =
        resolve_allowed_projects granting port (text_or request.tenant_id settings.tenant_id)
          request.user_id request.allowed_project_ids now later svc in
      (resolved.0, search_sync request resolved.1)
