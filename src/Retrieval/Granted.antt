-- ===== src/Retrieval/Granted.antt =====
-- A search by a user, after any calls of the permission service.
use code_rag.Prelude.{
  ℕ, String, ◌≡◌, refl, sym, ap, ◌∙◌, ◌⊎◌, inl, inr, false, some, List, arith, ◌==◌, nat_eq,
  string_eq, list_eq, pair_eq, option_eq, All-map,
}
use code_rag.Prelude.Sets.{contains}
use code_rag.Permissions.Store.{PermissionRecord, PermissionStore}
use code_rag.Permissions.Service
use code_rag.Permissions.Service.{Result, ok, forbidden, resolve_allowed_projects, Call, run}
use code_rag.Permissions.Fresh.{start}
use code_rag.Permissions.Grants.{granted_exactly}
use code_rag.Retrieval.Hits.{SearchHit, Scores}
use code_rag.Retrieval.Rerank.{RerankSettings, Outside}
use code_rag.Retrieval.Passing.{Pass}
use code_rag.Retrieval.Service.{
  SearchRequest, SearchSettings, SearchPort, Parts, answered, denied, text_or, search_sync,
  search_as,
}
use code_rag.Retrieval.Inside.{IsFiltered}
use code_rag.Retrieval.Answers.{search_sync-Granted}

result_cases :
    (r : Result (List String))
    → ((ps : List String) × (r ≡ ok ps)) ⊎ ((e : Service.Refusal) × (r ≡ forbidden e))
result_cases (ok ps) = inl (ps, refl)
result_cases (forbidden e) = inr (e, refl)

module _ {Score Value Matrix : Type 0} (numbers : Scores Score)
    (outside : Outside Score Value Matrix) (rerank_settings : RerankSettings Score)
    (settings : SearchSettings) (index : SearchPort Score Value) (parts : Parts Score Value Matrix)
    (true_value : Value) (project_of : String → String) (granting : Service.Settings)
    (port : PermissionStore) where
  -- Whatever calls the permission service has served, a search by a user that is answered holds
  -- only chunks of projects that the user's record in the store names at that moment, where the
  -- legs of the index honour the filter on projects.
  pub search_as-granted :
      (store : port.State) (calls : List (Call granting port)) (request : SearchRequest)
      (user : String) (now later : ℕ) (hits : List (SearchHit Score Value))
      → IsFiltered project_of index
      → request.user_id ≡ some user
      → (user == "") ≡ false
      → (search_as numbers outside rerank_settings settings index parts true_value granting port now
          later
          (run granting port (start granting port store) calls)
          request).1
        ≡ answered hits
      → (r : PermissionRecord) × (port.get
            (text_or request.tenant_id settings.tenant_id)
            user
            (run granting port (start granting port store) calls).store
          ≡ some r)
        × Pass (λ c. contains (project_of c) r.accessible_project_ids) hits
  unfolding search_as search_sync
  search_as-granted store calls request user now later hits honours asks is_named e =
      let svc = run granting port (start granting port store) calls in
      let tenant = text_or request.tenant_id settings.tenant_id in
      let resolved =
        resolve_allowed_projects granting port tenant request.user_id request.allowed_project_ids
          now later svc in
      elim (result_cases resolved.1) [
        | inl (projects, granted) ↦
            let same : (resolve_allowed_projects granting port tenant (some user)
                  request.allowed_project_ids now later svc).1
                ≡ ok projects =
              ap
                (λ u.
                  (resolve_allowed_projects granting port tenant u request.allowed_project_ids now
                    later svc).1)
                (sym asks)
              ∙ granted in
            let (r, found, exactly) =
              granted_exactly granting port store calls tenant user request.allowed_project_ids
                projects now later is_named same in
            let inside =
              search_sync-Granted numbers outside rerank_settings settings index parts true_value
                project_of request projects hits honours
                (ap
                    (search_sync numbers outside rerank_settings settings index parts true_value
                      request)
                    (sym granted)
                  ∙ e) in
            (
              r,
              found,
              All-map _ (λ hit p. ground (arith, p, exactly (project_of hit.chunk_id))) hits
                  inside.2,
            )
        | inr (refusal, refused) ↦
            let refuses : denied ≡ answered hits =
              sym (
                ap
                  (search_sync numbers outside rerank_settings settings index parts true_value
                    request)
                  refused)
              ∙ e in
            absurd (ground (arith, refuses))
      ]
