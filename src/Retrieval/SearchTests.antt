-- ===== src/Retrieval/SearchTests.antt =====
-- Whole searches on a small index.
use code_rag.Prelude.{
  ℕ, ◌≤◌, String, ◌≡◌, refl, ap, ◌∙◌, subst, inl, inr, Bool, true, false, none, some, List, [], ◌∷◌,
  map, arith, if◌then◌else◌, Bool-cases, nat_eq, string_eq, list_eq, pair_eq, option_eq, length,
  All-of,
}
use code_rag.Prelude.Dict
use code_rag.Prelude.Sets.{contains, sorted_set, distinct}
use code_rag.Prelude.Sort.{sort_by}
use code_rag.Prelude.Text.{text_leb}
use code_rag.Prelude.Unique.{IsUnique}
use code_rag.Permissions.Store.{PermissionRecord, in_memory, upsert_record, get_record}
use code_rag.Permissions.Service
use code_rag.Permissions.Service.{
  ok, Call, upsert_call, run, upsert, evict, authorize, narrow, resolve_allowed_projects,
}
use code_rag.Permissions.Fresh.{start}
use code_rag.Retrieval.Hits.{SearchHit}
use code_rag.Retrieval.Fusion.{some_or}
use code_rag.Retrieval.Expansion.{EdgeType, test_question}
use code_rag.Retrieval.Passing.{Pass}
use code_rag.Retrieval.Service.{
  SearchRequest, Filters, SearchSettings, SearchPort, Parts, answered, leg_hits, ranked_hits,
  query_embedding, search_sync, search_as,
}
use code_rag.Retrieval.Rerank.{rerank, apply_cross_encoder}
use code_rag.Retrieval.Inside.{IsFiltered}
use code_rag.Retrieval.Answers.{search_sync-Granted}
use code_rag.Retrieval.Granted.{search_as-granted}
use code_rag.Retrieval.Tests.{millionths, hit, outside, boosts}

-- An index with the chunks of one project, whose legs find something only where it is allowed.
abbrev in_project : Filters → List (SearchHit ℕ Bool) → List (SearchHit ℕ Bool)
in_project filters hits = if contains "p" filters.allowed_project_ids then hits else []

abbrev small_neighbors : List String → List EdgeType → Filters → ℕ → List (SearchHit ℕ Bool)
small_neighbors fqns edges filters size = in_project filters (hit "d" ∷ [])

abbrev small_index : SearchPort ℕ Bool
small_index = record {
  lexical_search = λ query filters size. some (in_project filters (hit "a" ∷ hit "b" ∷ []));
  symbol_search = λ names filters size. some (in_project filters (hit "c" ∷ []));
  edge_search = λ names filters size. some [];
  vector_search = λ dense filters size. some (in_project filters (hit "b" ∷ []));
  neighbor_chunks = some small_neighbors;
  community_search = λ query dense filters size. none;
}

abbrev plain_parts : Parts ℕ Bool ℕ
plain_parts = record {
  classify = λ query. test_question;
  identifiers = λ query. "main" ∷ [];
  expand_query = λ query. query;
  hyde = λ query. none;
  cached_query_embedding = λ query. some (3 ∷ [], 0);
  embed_query = λ query. some (4 ∷ [], 0);
  cross_encoder = none;
}

abbrev search_settings : SearchSettings
search_settings = record {
  tenant_id = "default";
  branch = "main";
  hyde_enabled = true;
  community_detection_enabled = true;
  community_search_size = 3;
  graph_expansion_enabled = true;
  graph_expansion_max_neighbors = 4;
  graph_expansion_hops = 1;
  graph_expansion_seed_hits = 2;
}

abbrev request : SearchRequest
request = record {
  query = "where is main tested";
  user_id = some "u";
  allowed_project_ids = [];
  tenant_id = none;
  branch = none;
  repo_path_with_namespace = some "group/app";
  repo_paths_with_namespace = [];
  top_k = 3;
}

in_project-Pass :
    (filters : Filters) (hits : List (SearchHit ℕ Bool))
    → Pass (λ c. contains "p" filters.allowed_project_ids) (in_project filters hits)
in_project-Pass filters hits = elim (Bool-cases (contains "p" filters.allowed_project_ids)) [
  | inl inside ↦ rw inside (All-of _ (λ h. refl) hits)
  | inr beyond ↦ rw beyond tt
]

small_index-IsFiltered : IsFiltered (λ c. "p") small_index
small_index-IsFiltered = record {
  lexical_filtered = λ query filters size hits e.
      subst (Pass (λ c. contains "p" filters.allowed_project_ids)) (ap (some_or hits) e)
        (in_project-Pass filters (hit "a" ∷ hit "b" ∷ []));
  symbol_filtered = λ names filters size hits e.
      subst (Pass (λ c. contains "p" filters.allowed_project_ids)) (ap (some_or hits) e)
        (in_project-Pass filters (hit "c" ∷ []));
  edge_filtered = λ names filters size hits e.
      subst (Pass (λ c. contains "p" filters.allowed_project_ids)) (ap (some_or hits) e) tt;
  vector_filtered = λ dense filters size hits e.
      subst (Pass (λ c. contains "p" filters.allowed_project_ids)) (ap (some_or hits) e)
        (in_project-Pass filters (hit "b" ∷ []));
  neighbors_filtered = λ f e fqns edges filters size.
      subst
        (λ o.
          Pass (λ c. contains "p" filters.allowed_project_ids)
            (some_or small_neighbors o fqns edges filters size))
        e (in_project-Pass filters (hit "d" ∷ []));
  community_filtered = λ query dense filters size hits e. absurd (ground arith);
}

small_answer :
    (hits : List (SearchHit ℕ Bool)) × (search_sync millionths outside boosts search_settings
        small_index plain_parts true request
        (ok ("p" ∷ []))
      ≡ answered hits)
unfolding search_sync ranked_hits leg_hits query_embedding rerank apply_cross_encoder
small_answer = (_, refl)

abbrev answer : List (SearchHit ℕ Bool)
answer = small_answer.0

search_sync-Granted_example :
    (length answer ≤ 3)
    × IsUnique (map (λ hit. hit.chunk_id) answer)
    × Pass (λ c. contains {A = String} "p" ("p" ∷ [])) answer
search_sync-Granted_example =
    search_sync-Granted millionths outside boosts search_settings small_index plain_parts true
      (λ c. "p") request ("p" ∷ []) answer small_index-IsFiltered small_answer.1

abbrev granting : Service.Settings
granting = record {
  tenant_id = "default";
  permission_cache_ttl_seconds = 60;
  allow_request_supplied_permissions = false;
}

abbrev record_of_u : PermissionRecord
record_of_u = record {
  user_id = "u";
  tenant_id = "default";
  accessible_project_ids = "p" ∷ [];
  last_synced_at = 0;
}

abbrev calls : List (Call granting in_memory)
calls = upsert_call record_of_u ∷ []

abbrev served : Service.Service granting in_memory
served = run granting in_memory (start granting in_memory []) calls

u_granted :
    (resolve_allowed_projects granting in_memory "default" (some "u") [] 7 8 served).1
    ≡ ok ("p" ∷ [])
unfolding run upsert evict resolve_allowed_projects authorize narrow upsert_record get_record
    Dict.get Dict.put sorted_set distinct contains sort_by text_leb
u_granted = refl

u_answered :
    (search_as millionths outside boosts search_settings small_index plain_parts true granting
      in_memory 7 8 served request).1
    ≡ answered answer
unfolding search_as
u_answered =
    ap (search_sync millionths outside boosts search_settings small_index plain_parts true request)
      u_granted
    ∙ small_answer.1

search_as-granted_example :
    (r : PermissionRecord) × (get_record "default" "u" served.store ≡ some r)
    × Pass (λ c. contains {A = String} "p" r.accessible_project_ids) answer
search_as-granted_example =
    search_as-granted millionths outside boosts search_settings small_index plain_parts true
      (λ c. "p") granting in_memory [] calls request "u" 7 8 answer small_index-IsFiltered refl refl
      u_answered
