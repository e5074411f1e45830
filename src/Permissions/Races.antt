-- ===== src/Permissions/Races.antt =====
-- Two calls that overlap, and two records whose Elasticsearch document ids meet.
use code_rag.Prelude.{
  ℕ, ◌+◌, ◌<◌, String, ◌≡◌, refl, sym, ap, ◌∙◌, ◌≢◌, false, some, List, arith, eq_iff,
  if◌then◌else◌, ◌==◌, nat_eq, string_eq, list_eq, pair_eq, option_eq,
}
use Prim.Native.String.{◌++◌ as ◌++ˢ◌}
use text.Mathlib.TextLemmas.{
  append_assoc, nil-append, cons-append, cons-eq-cons, append_cancel_left,
}
use mathlib.Core.Path.{ap₂}
use Prim.Native.Char.{Char, code}
use code_rag.Prelude.Dict.{get-put_self}
use code_rag.Permissions.Store.{
  owner, PermissionRecord, PermissionStore, DocumentClient, doc_id, es_upsert, es_get,
}
use code_rag.Permissions.Service.{
  Settings, ok, cache_key, narrow, Service, upsert, store_cache, authorize,
  resolve_allowed_projects,
}

module _ (settings : Settings) (port : PermissionStore) where
  -- A call of `resolve_allowed_projects` that reads the store, then another thread's `upsert`, then
  -- the first call's write to the cache: the lock is held for the cache alone.
  unfoldable pub overlap :
      PermissionRecord
      → PermissionRecord
      → List String
      → ℕ
      → Service settings port
      → Service settings port
  overlap old new requested later svc =
      store_cache settings port (cache_key new.tenant_id (some new.user_id) requested) later
        (narrow old.accessible_project_ids requested) (upsert settings port new svc).0

  -- Where an upsert falls between the read and the write of a request of the same user, a later
  -- request is answered by the record that was replaced, until the entry expires.
  pub stale_after_overlap :
      (svc : Service settings port) (old new : PermissionRecord) (requested : List String)
      (later now now' : ℕ)
      → port.get new.tenant_id new.user_id svc.store ≡ some old
      → (new.user_id == "") ≡ false
      → 0 < settings.permission_cache_ttl_seconds
      → now < later + settings.permission_cache_ttl_seconds
      → (authorize settings port new.tenant_id (some new.user_id) requested svc.store
          ≡ ok (narrow old.accessible_project_ids requested))
        × ((resolve_allowed_projects settings port new.tenant_id
              (some new.user_id)
              requested
              now
              now'
              (overlap old new requested later svc)).1
            ≡ ok (narrow old.accessible_project_ids requested))
  unfolding resolve_allowed_projects store_cache authorize overlap
  stale_after_overlap svc old new requested later now now' found u on live =
      let key = cache_key new.tenant_id (some new.user_id) requested in
      (
        ground arith,
        ground (
          arith,
          get-put_self key
              (
                later + settings.permission_cache_ttl_seconds,
                narrow old.accessible_project_ids requested,
              )
              (upsert settings port new svc).0.cache,
        ),
      )

-- A text with no bar in it.
abbrev pub IsBarFree : String → Type 0
IsBarFree String.[] = Unit
IsBarFree (String.◌∷◌ c s) = (code c ≢ b'|') × IsBarFree s

doc_id-shift : (a b c : String) → doc_id (a ++ˢ ("|" ++ˢ b)) c ≡ doc_id a (b ++ˢ ("|" ++ˢ c))
unfolding doc_id
doc_id-shift a b c =
    append_assoc a ("|" ++ˢ b) ("|" ++ˢ c)
    ∙ ap (λ (t : String). a ++ˢ t) (append_assoc "|" b ("|" ++ˢ c))

abbrev bar : Char
bar = "|"

-- The first bar ends the tenant.
split_at_bar :
    (a b c d : String)
    → IsBarFree a
    → IsBarFree b
    → a ++ˢ ("|" ++ˢ c) ≡ b ++ˢ ("|" ++ˢ d)
    → (a ≡ b) × (c ≡ d)
split_at_bar String.[] String.[] c d p q h =
    (refl, append_cancel_left "|" c d (sym (nil-append _) ∙ (h ∙ nil-append _)))
split_at_bar String.[] (String.◌∷◌ y b) c d p q h = absurd (
    q.0 (
      ap code (
        sym
          (cons-eq-cons.0
            (sym (cons-append bar "" c) ∙ (sym (nil-append _) ∙ (h ∙ cons-append y b _)))).0)))
split_at_bar (String.◌∷◌ x a) String.[] c d p q h = absurd (
    p.0 (
      ap code
        (cons-eq-cons.0 (sym (cons-append x a _) ∙ (h ∙ (nil-append _ ∙ cons-append bar "" d)))).0))
split_at_bar (String.◌∷◌ x a) (String.◌∷◌ y b) c d p q h =
    let e = cons-eq-cons.0 (sym (cons-append x a _) ∙ (h ∙ cons-append y b _)) in
    let (same, rest) = split_at_bar a b c d p.1 q.1 e.1 in (ap₂ String.◌∷◌ e.0 same, rest)

doc_id_injective :
    (a b c d : String) → IsBarFree a → IsBarFree b → doc_id a c ≡ doc_id b d → (a ≡ b) × (c ≡ d)
unfolding doc_id
doc_id_injective = split_at_bar

module _ (client : DocumentClient) where
  -- The record of user `c` of tenant `a|b` is what the store returns for user `b|c` of tenant `a`.
  pub es_get_confuses :
      (a b c : String) (r : PermissionRecord) (ix : client.Index)
      → r.tenant_id ≡ a ++ˢ ("|" ++ˢ b)
      → r.user_id ≡ c
      → es_get client a (b ++ˢ ("|" ++ˢ c)) (es_upsert client r ix) ≡ some r
  unfolding es_get es_upsert
  es_get_confuses a b c r ix t u =
      let e : doc_id r.tenant_id r.user_id ≡ doc_id a (b ++ˢ ("|" ++ˢ c)) =
        ap₂ doc_id t u ∙ doc_id-shift a b c in
      ground (
        arith,
        client.read-write (doc_id r.tenant_id r.user_id) (doc_id a (b ++ˢ ("|" ++ˢ c))) r ix,
        eq_iff (doc_id r.tenant_id r.user_id) (doc_id a (b ++ˢ ("|" ++ˢ c))),
        e,
      )

  -- Where no tenant has a bar in its name, the Elasticsearch store meets the port's law.
  pub es_get-es_upsert :
      (r : PermissionRecord) (tenant user : String) (ix : client.Index)
      → IsBarFree r.tenant_id
      → IsBarFree tenant
      → es_get client tenant user (es_upsert client r ix)
        ≡ (if owner r == (tenant, user) then some r else es_get client tenant user ix)
  unfolding es_get es_upsert
  es_get-es_upsert r tenant user ix p q = ground (
    arith,
    client.read-write (doc_id r.tenant_id r.user_id) (doc_id tenant user) r ix,
    eq_iff (doc_id r.tenant_id r.user_id) (doc_id tenant user),
    eq_iff r.tenant_id tenant,
    eq_iff r.user_id user,
    doc_id_injective r.tenant_id tenant r.user_id user p q,
  )
