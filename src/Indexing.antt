-- ===== src/Indexing.antt =====
-- The indexing service, src/code_rag/apps/indexing/indexing_service.py.
pub mod Action
pub mod Attached
pub mod Embeddings
pub mod Records
pub mod Service
pub mod Runs
pub mod Incremental
pub mod Indexer
pub mod Kept
pub mod KeptJobs
pub mod Secrets
pub mod Gone
pub mod Removed
mod Tests
