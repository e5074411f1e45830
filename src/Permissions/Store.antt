-- ===== src/Permissions/Store.antt =====
-- The permission store: the port of src/code_rag/ports/permissions.py as an interface with its law,
-- the process-local store of src/code_rag/adapters/permissions/in_memory_permission_store.py, which
-- meets it, and the Elasticsearch store of src/code_rag/adapters/elasticsearch/permission_store.py.
use code_rag.Prelude.{
  ℕ, String, ◌≡◌, Option, some, List, if◌then◌else◌, ◌==◌, nat_eq, string_eq, list_eq, pair_eq,
}
use Prim.Native.String.{◌++◌ as ◌++ˢ◌}
use code_rag.Prelude.Dict
use code_rag.Prelude.Dict.{Dict, get-put}

pub record PermissionRecord : Type 0 where
  pub user_id : String
  pub tenant_id : String
  pub accessible_project_ids : List String
  pub last_synced_at : ℕ

-- (record.tenant_id, record.user_id)
abbrev pub owner : PermissionRecord → String × String
owner r = (r.tenant_id, r.user_id)

pub record PermissionStore : Type 1 where
  pub State : Type 0
  pub upsert : PermissionRecord → State → State
  pub get : String → String → State → Option PermissionRecord
  pub get-upsert :
      (r : PermissionRecord) (tenant user : String) (s : State)
      → get tenant user (upsert r s)
        ≡ (if owner r == (tenant, user) then some r else get tenant user s)

abbrev pub Records : Type 0
Records = Dict (String × String) PermissionRecord

unfoldable pub upsert_record : PermissionRecord → Records → Records
upsert_record r records = Dict.put (owner r) r records

unfoldable pub get_record : String → String → Records → Option PermissionRecord
get_record tenant user records = Dict.get (tenant, user) records

pub get_record-upsert_record :
    (r : PermissionRecord) (tenant user : String) (s : Records)
    → get_record tenant user (upsert_record r s)
      ≡ (if owner r == (tenant, user) then some r else get_record tenant user s)
unfolding get_record upsert_record
get_record-upsert_record r tenant user s = get-put (owner r) (tenant, user) r s

abbrev pub in_memory : PermissionStore
in_memory = record {
  State = Records;
  upsert = upsert_record;
  get = get_record;
  get-upsert = get_record-upsert_record;
}

-- ElasticsearchPermissionStore._doc_id
unfoldable pub doc_id : String → String → String
doc_id tenant user = tenant ++ˢ ("|" ++ˢ user)

-- The Elasticsearch client is a parameter: a document can be read back by its id.
pub record DocumentClient : Type 1 where
  pub Index : Type 0
  pub write : String → PermissionRecord → Index → Index
  pub read : String → Index → Option PermissionRecord
  pub read-write :
      (id other : String) (r : PermissionRecord) (ix : Index)
      → read other (write id r ix) ≡ (if id == other then some r else read other ix)

module _ (c : DocumentClient) where
  unfoldable pub es_upsert : PermissionRecord → c.Index → c.Index
  unfolding doc_id
  es_upsert r ix = c.write (doc_id r.tenant_id r.user_id) r ix

  -- exists, then get
  unfoldable pub es_get : String → String → c.Index → Option PermissionRecord
  unfolding doc_id
  es_get tenant user ix = c.read (doc_id tenant user) ix
