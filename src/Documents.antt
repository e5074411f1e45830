-- ===== src/Documents.antt =====
-- The Elasticsearch indices that the adapters of src/code_rag/adapters/elasticsearch/ write: an
-- interface with the laws that the adapters rely on, and an index in memory that meets them.
pub mod Index
pub mod Memory
