-- ===== src/Permissions/Service.antt =====
-- `PermissionService`: grants, their cache, and what a request may read. A clock reading is a whole
-- number of ticks, and `resolve_allowed_projects` takes the two readings it makes. The lock is not
-- modelled: a call is one step, or two where a statement interleaves calls.
use code_rag.Prelude.{
  ℕ, ◌+◌, String, Bool, not, ◌&&◌, Option, none, some, List, [], ◌∷◌, ltb, leb, if◌then◌else◌, ◌==◌,
  nat_eq, string_eq, list_eq, pair_eq, option_eq, keep_if,
}
use code_rag.Prelude.Dict
use code_rag.Prelude.Dict.{Dict}
use code_rag.Prelude.Text.{text_leb}
use code_rag.Prelude.Sort.{sort_by}
use code_rag.Prelude.Sets.{contains, sorted_set}
use code_rag.Permissions.Store.{PermissionRecord, PermissionStore}

pub record Settings : Type 0 where
  pub tenant_id : String
  pub permission_cache_ttl_seconds : ℕ
  pub allow_request_supplied_permissions : Bool

-- HTTPException with status 403, by its detail
pub data Refusal : Type 0 where
  no_permission_cache user_id_required : Refusal

pub data Result {ℓ} (A : Type ℓ) : Type ℓ where
  ok : A → Result A
  forbidden : Refusal → Result A

-- (tenant_id, user_id, tuple(sorted(requested)))
abbrev pub CacheKey : Type 0
CacheKey = String × (Option String × List String)

-- (expiry, project ids)
abbrev pub Cache : Type 0
Cache = Dict CacheKey (ℕ × List String)

abbrev pub cache_key : String → Option String → List String → CacheKey
cache_key tenant user requested = (tenant, (user, sort_by text_leb requested))

-- `if user_id:`
abbrev pub named : Option String → Option String
named none = none
named (some user) = if user == "" then none else some user

-- sorted(allowed.intersection(requested)) if requested else sorted(allowed)
unfoldable pub narrow : List String → List String → List String
narrow accessible [] = sorted_set accessible
narrow accessible (x ∷ xs) = sorted_set (keep_if (λ a. contains a (x ∷ xs)) accessible)

module _ (settings : Settings) (port : PermissionStore) where
  open settings use {tenant_id, permission_cache_ttl_seconds, allow_request_supplied_permissions}

  pub record Service : Type 0 where
    pub store : port.State
    pub cache : Cache

  -- for key in list(self._cache): if key[0] == ... and key[1] == ...: self._cache.pop(key, None)
  unfoldable pub evict : String → String → Cache → Cache
  evict tenant user cache =
      keep_if (λ entry. not (entry.0.0 == tenant && entry.0.1.0 == some user)) cache

  unfoldable pub upsert : PermissionRecord → Service → Service × PermissionRecord
  unfolding evict
  upsert r svc =
      let r' = (if r.tenant_id == "" then record r { tenant_id = tenant_id } else r) in
      (
        record {
          store = port.upsert r' svc.store;
          cache = evict r'.tenant_id r'.user_id svc.cache;
        },
        r',
      )

  -- The part of `resolve_allowed_projects` up to the cache's answer.
  unfoldable pub cached : CacheKey → ℕ → Service → Option (List String)
  cached key now svc =
      if ltb 0 permission_cache_ttl_seconds
      then elim (Dict.get key svc.cache) [
        | none ↦ none
        | some (expiry, projects) ↦ if ltb now expiry then some projects else none
      ]
      else none

  unfoldable pub store_cache : CacheKey → ℕ → List String → Service → Service
  store_cache key now value svc =
      if leb permission_cache_ttl_seconds 0
      then svc
      else record svc { cache = Dict.put key (now + permission_cache_ttl_seconds, value) svc.cache }

  -- The part below it: what the store and the settings allow.
  unfoldable pub authorize :
      String → Option String → List String → port.State → Result (List String)
  authorize tenant user requested store = elim (named user) [
    | some u ↦ elim (port.get tenant u store) [
      | none ↦ forbidden no_permission_cache
      | some r ↦ ok (narrow r.accessible_project_ids requested)
    ]
    | none ↦
        if allow_request_supplied_permissions && not (requested == [])
        then ok requested
        else forbidden user_id_required
  ]

  unfoldable pub remember :
      CacheKey → ℕ → Result (List String) → Service → Service × Result (List String)
  unfolding store_cache
  remember key now (ok value) svc = (store_cache key now value svc, ok value)
  remember key now (forbidden e) svc = (svc, forbidden e)

  unfoldable pub resolve_allowed_projects :
      String → Option String → List String → ℕ → ℕ → Service → Service × Result (List String)
  unfolding cached authorize remember
  resolve_allowed_projects tenant user requested now later svc =
      let key = cache_key tenant user requested in
      elim (cached key now svc) [
        | some projects ↦ (svc, ok projects)
        | none ↦ remember key later (authorize tenant user requested svc.store) svc
      ]

  -- A run of calls on a service, results dropped.
  pub data Call : Type 0 where
    upsert_call : PermissionRecord → Call
    resolve_call : String → Option String → List String → ℕ → ℕ → Call

  unfoldable pub run : Service → List Call → Service
  run svc [] = svc
  run svc (upsert_call r ∷ calls) = run (upsert r svc).0 calls
  run svc (resolve_call tenant user requested now later ∷ calls) =
      run (resolve_allowed_projects tenant user requested now later svc).0 calls
