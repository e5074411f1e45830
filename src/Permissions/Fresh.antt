-- ===== src/Permissions/Fresh.antt =====
-- The cache never changes an answer: every entry holds what the store and the settings say now.
use code_rag.Prelude.{
  ℕ, ◌+◌, String, ◌≡◌, refl, sym, ap, ◌∙◌, inl, inr, true, false, not, ◌&&◌, Option, none, some,
  List, [], ◌∷◌, arith, eq_iff, leb, if◌then◌else◌, Bool-cases, Option-cases, ◌==◌, nat_eq,
  string_eq, list_eq, pair_eq, option_eq, pair_beq_iff,
}
use mathlib.Core.Path.{ap₂}
use code_rag.Prelude.Dict
use code_rag.Prelude.Dict.{Dict, get-put}
use code_rag.Prelude.Text.{text_leb}
use code_rag.Prelude.Sort.{sort_by}
use code_rag.Permissions.Store.{PermissionRecord, PermissionStore}
use code_rag.Permissions.Service.{
  Settings, Result, ok, forbidden, CacheKey, Cache, cache_key, narrow, Service, Call, upsert_call,
  resolve_call, run, upsert, evict, cached, store_cache, authorize, remember,
  resolve_allowed_projects,
}
use code_rag.Permissions.Narrow.{narrow-sort_by}

-- An entry that is evicted is gone, and every other entry stays.
pub get-evict :
    (settings : Settings) (port : PermissionStore) (tenant user : String) (key : CacheKey)
    (cache : Cache)
    → Dict.get key (evict settings port tenant user cache)
      ≡ (if key.0 == tenant && key.1.0 == some user then none else Dict.get key cache)
unfolding evict
get-evict settings port tenant user key cache = ground (
  arith,
  Dict.get-keep_if (λ (k : CacheKey). not (k.0 == tenant && k.1.0 == some user)) key cache,
)

module _ (k key : CacheKey) (now expiry : ℕ) (value projects : List String) (cache : Cache) where
  -- What a lookup finds under the key just written.
  pub entry_value :
      (k == key) ≡ true
      → Dict.get key (Dict.put k (now, value) cache) ≡ some (expiry, projects)
      → value ≡ projects
  entry_value same found = ground (arith, get-put k key (now, value) cache)

module _ (settings : Settings) (port : PermissionStore) where
  -- For a request with a user, an entry holds the answer of the store.
  pub record IsFresh (svc : Service settings port) : Type 0 where
    pub user_entry :
        (tenant user : String) (requested projects : List String) (expiry : ℕ)
        → (user == "") ≡ false
        → Dict.get (cache_key tenant (some user) requested) svc.cache ≡ some (expiry, projects)
        → authorize settings port tenant (some user) requested svc.store ≡ ok projects

  authorize-sort_by :
      (tenant user : String) (xs ys : List String) (store : port.State)
      → (user == "") ≡ false
      → sort_by text_leb xs ≡ sort_by text_leb ys
      → authorize settings port tenant (some user) xs store
        ≡ authorize settings port tenant (some user) ys store
  unfolding authorize
  authorize-sort_by tenant user xs ys store u e = elim (Option-cases (port.get tenant user store)) [
    | inl absent ↦ ground arith
    | inr (r, found) ↦
        let acc = r.accessible_project_ids in
        ground (arith, sym (narrow-sort_by acc xs) ∙ ap (narrow acc) e ∙ narrow-sort_by acc ys)
  ]

  cached-authorize :
      (tenant user : String) (requested projects : List String) (now : ℕ)
      (svc : Service settings port)
      → (user == "") ≡ false
      → IsFresh svc
      → cached settings port (cache_key tenant (some user) requested) now svc ≡ some projects
      → authorize settings port tenant (some user) requested svc.store ≡ ok projects
  unfolding cached
  cached-authorize tenant user requested projects now svc u fresh h =
      elim (Option-cases (Dict.get (cache_key tenant (some user) requested) svc.cache)) [
        | inl absent ↦ ground arith
        | inr ((expiry, held), found) ↦
            fresh.user_entry tenant user requested projects expiry u (ground arith)
      ]

  remember_lem :
      (key : CacheKey) (now : ℕ) (result : Result (List String)) (svc : Service settings port)
      → (remember settings port key now result svc).1 ≡ result
  unfolding remember
  remember_lem key now (ok v) svc = refl
  remember_lem key now (forbidden e) svc = refl

  -- The answer to a request with a user does not depend on the cache.
  pub resolve-authorize :
      (tenant user : String) (requested : List String) (now later : ℕ) (svc : Service settings port)
      → (user == "") ≡ false
      → IsFresh svc
      → (resolve_allowed_projects settings port tenant (some user) requested now later svc).1
        ≡ authorize settings port tenant (some user) requested svc.store
  unfolding resolve_allowed_projects
  resolve-authorize tenant user requested now later svc u fresh =
      let key = cache_key tenant (some user) requested in
      let answer = authorize settings port tenant (some user) requested svc.store in
      elim (Option-cases (cached settings port key now svc)) [
        | inl absent ↦ ground (arith, remember_lem key later answer svc)
        | inr (projects, hit) ↦
            ground (arith, cached-authorize tenant user requested projects now svc u fresh hit)
      ]

  -- The same key names the same tenant and user, and the same projects in some order.
  same_key :
      (tenant other user : String) (asker : Option String)
      (requested asked projects value : List String) (store : port.State)
      → (user == "") ≡ false
      → cache_key other asker asked ≡ cache_key tenant (some user) requested
      → value ≡ projects
      → authorize settings port other asker asked store ≡ ok value
      → authorize settings port tenant (some user) requested store ≡ ok projects
  same_key tenant other user asker requested asked projects value store u k v h =
      authorize-sort_by tenant user requested asked store u (ap (λ (c : CacheKey). c.1.1) (sym k))
      ∙ (ap₂ (λ (t : String) (w : Option String). authorize settings port t w asked store)
            (ap (λ (c : CacheKey). c.0) (sym k)) (ap (λ (c : CacheKey). c.1.0) (sym k))
          ∙ (h ∙ ap ok v))

  store_cache-IsFresh :
      (tenant : String) (asker : Option String) (requested value : List String) (now : ℕ)
      (svc : Service settings port)
      → IsFresh svc
      → authorize settings port tenant asker requested svc.store ≡ ok value
      → IsFresh (store_cache settings port (cache_key tenant asker requested) now value svc)
  unfolding store_cache
  store_cache-IsFresh tenant asker requested value now svc fresh h =
      elim (Bool-cases (leb settings.permission_cache_ttl_seconds 0)) [
        | inl off ↦ rw off fresh
        | inr on ↦ rw on (record {
          user_entry = λ t user asked projects expiry u found.
              elim (Bool-cases
                (cache_key tenant asker requested == cache_key t (some user) asked)) [
                  | inl same ↦
                      same_key t tenant user asker asked requested projects value svc.store u
                        ((pair_beq_iff _ _).0 same)
                        (entry_value (cache_key tenant asker requested)
                          (cache_key t (some user) asked)
                          (now + settings.permission_cache_ttl_seconds) expiry value projects
                          svc.cache same found)
                        h
                  | inr other ↦ fresh.user_entry t user asked projects expiry u (
                      sym (
                        get-put (cache_key tenant asker requested) (cache_key t (some user) asked) _
                          svc.cache
                        ∙ rw other refl)
                      ∙ found)
                ];
        })
      ]

  remember-IsFresh :
      (tenant : String) (asker : Option String) (requested : List String) (now : ℕ)
      (result : Result (List String)) (svc : Service settings port)
      → IsFresh svc
      → authorize settings port tenant asker requested svc.store ≡ result
      → IsFresh (remember settings port (cache_key tenant asker requested) now result svc).0
  unfolding remember
  remember-IsFresh tenant asker requested now (ok value) svc fresh h =
      store_cache-IsFresh tenant asker requested value now svc fresh h
  remember-IsFresh tenant asker requested now (forbidden e) svc fresh h = fresh

  resolve-IsFresh :
      (tenant : String) (asker : Option String) (requested : List String) (now later : ℕ)
      (svc : Service settings port)
      → IsFresh svc
      → IsFresh (resolve_allowed_projects settings port tenant asker requested now later svc).0
  unfolding resolve_allowed_projects
  resolve-IsFresh tenant asker requested now later svc fresh =
      elim (Option-cases (cached settings port (cache_key tenant asker requested) now svc)) [
        | inl absent ↦
            rw (absent, resolve_allowed_projects)
              (remember-IsFresh tenant asker requested later _ svc fresh refl)
        | inr (projects, hit) ↦ rw (hit, resolve_allowed_projects) fresh
      ]

  pub upsert-IsFresh :
      (r : PermissionRecord) (svc : Service settings port)
      → IsFresh svc
      → IsFresh (upsert settings port r svc).0
  unfolding upsert authorize
  upsert-IsFresh r svc fresh = record {
    user_entry = λ tenant user requested projects expiry u h.
        let r' = (if r.tenant_id == "" then record r { tenant_id = settings.tenant_id } else r) in
        let key = cache_key tenant (some user) requested in
        ground (
          arith,
          get-evict settings port r'.tenant_id r'.user_id key svc.cache,
          port.get-upsert r' tenant user svc.store,
          eq_iff r'.tenant_id tenant,
          eq_iff tenant r'.tenant_id,
          eq_iff r'.user_id user,
          eq_iff user r'.user_id,
          fresh.user_entry tenant user requested projects expiry u,
        );
  }

  pub run-IsFresh :
      (svc : Service settings port) (calls : List (Call settings port))
      → IsFresh svc
      → IsFresh (run settings port svc calls)
  unfolding run
  run-IsFresh svc [] fresh = fresh
  run-IsFresh svc (upsert_call r ∷ calls) fresh =
      run-IsFresh (upsert settings port r svc).0 calls (upsert-IsFresh r svc fresh)
  run-IsFresh svc (resolve_call tenant asker requested now later ∷ calls) fresh =
      run-IsFresh (resolve_allowed_projects settings port tenant asker requested now later svc).0
        calls (resolve-IsFresh tenant asker requested now later svc fresh)

  abbrev pub start : port.State → Service settings port
  start store = record { store = store; cache = [] }

  pub start-IsFresh : (store : port.State) → IsFresh (start store)
  unfolding Dict.get
  start-IsFresh store = record { user_entry = λ tenant user requested projects expiry u h. cc }

  -- After any calls of `upsert` and `resolve_allowed_projects` on a service that starts with an empty
  -- cache, a request with a user gets what the store says now: the cache never shows.
  pub resolve_after_run :
      (store : port.State) (calls : List (Call settings port)) (tenant user : String)
      (requested : List String) (now later : ℕ)
      → (user == "") ≡ false
      → (resolve_allowed_projects settings port tenant
          (some user)
          requested
          now
          later
          (run settings port (start store) calls)).1
        ≡ authorize settings port tenant
            (some user)
            requested
            (run settings port (start store) calls).store
  resolve_after_run store calls tenant user requested now later u =
      resolve-authorize tenant user requested now later _ u
        (run-IsFresh (start store) calls (start-IsFresh store))
