-- ===== src/Elastic.antt =====
-- The Elasticsearch adapter, src/code_rag/adapters/elasticsearch/.
pub mod Records
pub mod Corpus
pub mod Memory
pub mod Store
pub mod Replace
pub mod Prune
pub mod Queries
pub mod Filtered
pub mod Legs
pub mod Scope
pub mod Refines
pub mod Aliases
pub mod Reindexed
pub mod SmallCluster
pub mod Samples
mod Tests
