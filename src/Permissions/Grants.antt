-- ===== src/Permissions/Grants.antt =====
-- What a request with a user, and one without, is granted.
use code_rag.Prelude.{
  ℕ, ◌+◌, String, ◌≡◌, refl, sym, ap, ◌∙◌, inl, inr, false, ◌&&◌, ◌||◌, Option, none, some, List,
  [], ◌∷◌, arith, if◌then◌else◌, Bool-cases, Option-cases, ◌==◌, ==_refl, nat_eq, string_eq,
  list_eq, pair_eq, option_eq, pair_beq_iff,
}
use code_rag.Prelude.Dict
use code_rag.Prelude.Dict.{get-put}
use code_rag.Prelude.Sets.{contains}
use code_rag.Permissions.Store.{PermissionRecord, PermissionStore}
use code_rag.Permissions.Service.{
  Settings, Result, ok, forbidden, user_id_required, CacheKey, cache_key, named, narrow, Service,
  Call, run, upsert, upsert_call, resolve_call, cached, store_cache, remember, authorize,
  resolve_allowed_projects,
}
use code_rag.Permissions.Narrow.{contains-narrow}
use code_rag.Permissions.Fresh.{
  run-IsFresh, start-IsFresh, get-evict, start, resolve_after_run, resolve-authorize,
  upsert-IsFresh,
}

module _ (settings : Settings) (port : PermissionStore) where
  -- The record that the store holds for the user of an answered request.
  authorize-ok :
      (tenant user : String) (requested projects : List String) (store : port.State)
      → (user == "") ≡ false
      → authorize settings port tenant (some user) requested store ≡ ok projects
      → (r : PermissionRecord) × (port.get tenant user store ≡ some r)
        × (projects ≡ narrow r.accessible_project_ids requested)
  unfolding authorize
  authorize-ok tenant user requested projects store u h =
      elim (Option-cases (port.get tenant user store)) [
        | inl absent ↦ absurd (ground arith)
        | inr (r, found) ↦ (r, found, ground arith)
      ]

  -- After any calls, a request with a user that is answered is granted exactly the projects of the
  -- user's record in the store, and of these only the requested ones where the request names any.
  pub granted_exactly :
      (store : port.State) (calls : List (Call settings port)) (tenant user : String)
      (requested projects : List String) (now later : ℕ)
      → (user == "") ≡ false
      → (resolve_allowed_projects settings port tenant
          (some user)
          requested
          now
          later
          (run settings port (start settings port store) calls)).1
        ≡ ok projects
      → (r : PermissionRecord) × (port.get tenant user
            (run settings port (start settings port store) calls).store
          ≡ some r)
        × ((a : String)
            → contains a projects
              ≡ (contains a r.accessible_project_ids && (requested == [] || contains a requested)))
  granted_exactly store calls tenant user requested projects now later u h =
      let (r, found, e) =
        authorize-ok tenant user requested projects _ u (
          sym (resolve_after_run settings port store calls tenant user requested now later u)
          ∙ h) in
      (r, found, λ a. rw e (contains-narrow a r.accessible_project_ids requested))

  authorize_stored :
      (svc : Service settings port) (r : PermissionRecord) (requested : List String)
      → (r.user_id == "") ≡ false
      → (r.tenant_id == "") ≡ false
      → authorize settings port r.tenant_id
          (some r.user_id)
          requested
          (upsert settings port r svc).0.store
        ≡ ok (narrow r.accessible_project_ids requested)
  unfolding authorize upsert
  authorize_stored svc r requested u t = ground (
    arith,
    port.get-upsert r r.tenant_id r.user_id svc.store,
    ==_refl r.tenant_id,
    ==_refl r.user_id,
  )

  -- Whatever calls the service has served, a record that is then written decides the next request of
  -- its user: the answer is the record's projects, narrowed to those that the request names, so a
  -- withdrawn project is gone at once. The record names a user and a tenant.
  pub upsert_takes_effect :
      (store : port.State) (calls : List (Call settings port)) (r : PermissionRecord)
      (requested : List String) (now later : ℕ)
      → (r.user_id == "") ≡ false
      → (r.tenant_id == "") ≡ false
      → (resolve_allowed_projects settings port r.tenant_id
          (some r.user_id)
          requested
          now
          later
          (upsert settings port r (run settings port (start settings port store) calls)).0).1
        ≡ ok (narrow r.accessible_project_ids requested)
  upsert_takes_effect store calls r requested now later u t =
      let svc = run settings port (start settings port store) calls in
      let fresh =
        run-IsFresh settings port (start settings port store) calls
          (start-IsFresh settings port store) in
      resolve-authorize settings port r.tenant_id r.user_id requested now later _ u
        (upsert-IsFresh settings port r svc fresh)
      ∙ authorize_stored svc r requested u t

  -- Without a user nothing is held in the cache unless requests may bring their own permissions.
  pub record IsClosed (svc : Service settings port) : Type 0 where
    pub no_entry :
        (tenant : String) (asker : Option String) (requested : List String)
        → named asker ≡ none
        → Dict.get (cache_key tenant asker requested) svc.cache ≡ none

  module _ (off : settings.allow_request_supplied_permissions ≡ false) where
    authorize_unnamed :
        (tenant : String) (asker : Option String) (requested : List String) (store : port.State)
        → named asker ≡ none
        → authorize settings port tenant asker requested store ≡ forbidden user_id_required
    unfolding authorize
    authorize_unnamed tenant asker requested store h = rw (h, authorize) (rw off refl)

    upsert-IsClosed :
        (r : PermissionRecord) (svc : Service settings port)
        → IsClosed svc
        → IsClosed (upsert settings port r svc).0
    unfolding upsert
    upsert-IsClosed r svc closed = record {
      no_entry = λ tenant asker requested u.
          let r' = (if r.tenant_id == "" then record r { tenant_id = settings.tenant_id } else r) in
          ground (
            arith,
            get-evict settings port r'.tenant_id r'.user_id (cache_key tenant asker requested)
                svc.cache,
            closed.no_entry tenant asker requested u,
          );
    }

    -- An entry is written only for a request with a user.
    remember-IsClosed :
        (tenant : String) (asker : Option String) (requested : List String) (now : ℕ)
        (result : Result (List String)) (svc : Service settings port)
        → authorize settings port tenant asker requested svc.store ≡ result
        → IsClosed svc
        → IsClosed (remember settings port (cache_key tenant asker requested) now result svc).0
    unfolding remember store_cache
    remember-IsClosed tenant asker requested now (forbidden e) svc h closed = closed
    remember-IsClosed tenant asker requested now (ok value) svc h closed = record {
      no_entry = λ t other asked u. elim (Option-cases (named asker)) [
        | inl nobody ↦
            absurd (ground (arith, authorize_unnamed tenant asker requested svc.store nobody))
        | inr (user, who) ↦
            elim (Bool-cases (cache_key tenant asker requested == cache_key t other asked)) [
              | inl same ↦ absurd (
                  ground (
                    arith,
                    ap (λ (c : CacheKey). named c.1.0)
                        ((pair_beq_iff (cache_key tenant asker requested)
                            (cache_key t other asked)).0
                          same),
                  ))
              | inr distinct ↦ ground (
                arith,
                get-put (cache_key tenant asker requested) (cache_key t other asked)
                    (now + settings.permission_cache_ttl_seconds, value) svc.cache,
                closed.no_entry t other asked u,
              )
            ]
      ];
    }

    resolve-IsClosed :
        (tenant : String) (asker : Option String) (requested : List String) (now later : ℕ)
        (svc : Service settings port)
        → IsClosed svc
        → IsClosed (resolve_allowed_projects settings port tenant asker requested now later svc).0
    unfolding resolve_allowed_projects
    resolve-IsClosed tenant asker requested now later svc closed =
        elim (Option-cases (cached settings port (cache_key tenant asker requested) now svc)) [
          | inl absent ↦
              rw (absent, resolve_allowed_projects)
                (remember-IsClosed tenant asker requested later _ svc refl closed)
          | inr (projects, hit) ↦ rw (hit, resolve_allowed_projects) closed
        ]

    run-IsClosed :
        (svc : Service settings port) (calls : List (Call settings port))
        → IsClosed svc
        → IsClosed (run settings port svc calls)
    unfolding run
    run-IsClosed svc [] closed = closed
    run-IsClosed svc (upsert_call r ∷ calls) closed =
        run-IsClosed (upsert settings port r svc).0 calls (upsert-IsClosed r svc closed)
    run-IsClosed svc (resolve_call tenant asker requested now later ∷ calls) closed =
        run-IsClosed (resolve_allowed_projects settings port tenant asker requested now later svc).0
          calls (resolve-IsClosed tenant asker requested now later svc closed)

    start-IsClosed : (store : port.State) → IsClosed (start settings port store)
    unfolding Dict.get
    start-IsClosed store = record { no_entry = λ tenant asker requested u. refl }

    -- With `allow_request_supplied_permissions` off, a request without a user (none, or the empty
    -- one) is refused after any calls, whatever it asks for.
    pub unnamed_refused :
        (store : port.State) (calls : List (Call settings port)) (tenant : String)
        (asker : Option String) (requested : List String) (now later : ℕ)
        → named asker ≡ none
        → (resolve_allowed_projects settings port tenant asker requested now later
            (run settings port (start settings port store) calls)).1
          ≡ forbidden user_id_required
    unfolding resolve_allowed_projects
    unnamed_refused store calls tenant asker requested now later u =
        let svc = run settings port (start settings port store) calls in
        let closed = run-IsClosed (start settings port store) calls (start-IsClosed store) in
        ground (
          arith,
          closed.no_entry tenant asker requested u,
          authorize_unnamed tenant asker requested svc.store u,
        )
