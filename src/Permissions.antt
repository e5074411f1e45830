-- ===== src/Permissions.antt =====
-- Permission grants and their cache, src/code_rag/apps/permissions/permission_service.py, over the
-- store of src/code_rag/ports/permissions.py.
pub mod Store
pub mod Service
pub mod Narrow
pub mod Fresh
pub mod Grants
pub mod Races
mod Tests
