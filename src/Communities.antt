-- ===== src/Communities.antt =====
-- Clusters of symbols, src/code_rag/apps/communities/.
pub mod Graph
pub mod Undirected
pub mod Labelled
mod Tests
