-- ===== src/Permissions/Tests.antt =====
-- The permission service over the process-local store, at concrete calls.
use code_rag.Prelude.{
  String, ◌≡◌, refl, false, ◌&&◌, ◌||◌, none, some, List, [], ◌∷◌, arith, if◌then◌else◌, ◌==◌,
  nat_eq, string_eq, list_eq, pair_eq, option_eq,
}
use Prim.Native.String.{◌++◌ as ◌++ˢ◌}
use code_rag.Prelude.Dict
use code_rag.Prelude.Dict.{Dict, get-put}
use code_rag.Prelude.Sort.{sort_by}
use code_rag.Prelude.Text.{text_leb}
use code_rag.Prelude.Sets.{contains, sorted_set, distinct}
use code_rag.Permissions.Store.{
  PermissionRecord, in_memory, upsert_record, get_record, owner, DocumentClient, es_upsert, es_get,
}
use code_rag.Permissions.Service.{
  Settings, ok, forbidden, user_id_required, Service, Call, upsert_call, resolve_call, run, upsert,
  evict, authorize, narrow, resolve_allowed_projects,
}
use code_rag.Permissions.Fresh.{start, resolve_after_run}
use code_rag.Permissions.Grants.{upsert_takes_effect, granted_exactly, unnamed_refused}
use code_rag.Permissions.Races.{overlap, stale_after_overlap, es_get_confuses, es_get-es_upsert}

abbrev settings : Settings
settings = record {
  tenant_id = "default";
  permission_cache_ttl_seconds = 60;
  allow_request_supplied_permissions = false;
}

abbrev alice : PermissionRecord
alice = record {
  user_id = "alice";
  tenant_id = "default";
  accessible_project_ids = "2" ∷ "1" ∷ [];
  last_synced_at = 0;
}

abbrev narrowed : PermissionRecord
narrowed = record alice { accessible_project_ids = "1" ∷ [] }

abbrev calls : List (Call settings in_memory)
calls = upsert_call alice ∷ resolve_call "default" (some "alice") ("2" ∷ []) 5 6 ∷ []

abbrev empty : Service settings in_memory
empty = start settings in_memory []

abbrev served : Service settings in_memory
served = run settings in_memory empty calls

program : Unit {0}
unfolding run upsert evict resolve_allowed_projects authorize narrow upsert_record get_record
    Dict.get Dict.put sorted_set distinct contains sort_by text_leb
program = tt

alice_granted :
    (resolve_allowed_projects settings in_memory "default" (some "alice") [] 7 8 served).1
    ≡ ok ("1" ∷ "2" ∷ [])
unfolding program
alice_granted = refl

resolve_after_run_example :
    (resolve_allowed_projects settings in_memory "default" (some "alice") ("2" ∷ []) 7 8 served).1
    ≡ authorize settings in_memory "default" (some "alice") ("2" ∷ []) served.store
resolve_after_run_example =
    resolve_after_run settings in_memory [] calls "default" "alice" ("2" ∷ []) 7 8 refl

granted_exactly_example :
    (r : PermissionRecord) × (get_record "default" "alice" served.store ≡ some r)
    × ((a : String)
        → contains a ("1" ∷ "2" ∷ []) ≡ (
            contains a r.accessible_project_ids && (◌==◌ {A = List String} [] [] || contains a [])))
granted_exactly_example =
    granted_exactly settings in_memory [] calls "default" "alice" [] ("1" ∷ "2" ∷ []) 7 8 refl
      alice_granted

upsert_takes_effect_example :
    (resolve_allowed_projects settings in_memory "default"
      (some "alice")
      ("2" ∷ [])
      7
      8
      (upsert settings in_memory alice served).0).1
    ≡ ok (narrow alice.accessible_project_ids ("2" ∷ []))
upsert_takes_effect_example =
    upsert_takes_effect settings in_memory [] calls alice ("2" ∷ []) 7 8 refl refl

unnamed_refused_example :
    (resolve_allowed_projects settings in_memory "default" none ("1" ∷ []) 7 8 served).1
    ≡ forbidden user_id_required
unnamed_refused_example =
    unnamed_refused settings in_memory refl [] calls "default" none ("1" ∷ []) 7 8 refl

stale_after_overlap_example :
    (authorize settings in_memory "default"
        (some "alice")
        []
        (upsert settings in_memory alice empty).0.store
      ≡ ok (narrow ("2" ∷ "1" ∷ []) []))
    × ((resolve_allowed_projects settings in_memory "default" (some "alice") [] 20 21 (
          overlap settings in_memory alice narrowed [] 10
            (upsert settings in_memory alice empty).0)).1
        ≡ ok (narrow ("2" ∷ "1" ∷ []) []))
stale_after_overlap_example =
    stale_after_overlap settings in_memory (upsert settings in_memory alice empty).0 alice narrowed
      [] 10 20 21 (unfold program in refl) refl (omega arith) (omega arith)

-- A client that keeps its documents in a dictionary.
abbrev documents : DocumentClient
documents = record {
  Index = Dict String PermissionRecord;
  write = λ id r ix. Dict.put id r ix;
  read = λ id ix. Dict.get id ix;
  read-write = λ id other r ix. get-put id other r ix;
}

abbrev nested : PermissionRecord
nested = record alice { user_id = "y"; tenant_id = "t|x" }

es_get_confuses_example :
    es_get documents "t" ("x" ++ˢ ("|" ++ˢ "y")) (es_upsert documents nested []) ≡ some nested
es_get_confuses_example = es_get_confuses documents "t" "x" "y" nested [] refl refl

es_get-es_upsert_example : es_get documents "default" "bob" (es_upsert documents alice []) ≡ (
    if owner alice == ("default", "bob") then some alice else es_get documents "default" "bob" [])
es_get-es_upsert_example =
    es_get-es_upsert documents alice "default" "bob" [] (omega arith) (omega arith)
