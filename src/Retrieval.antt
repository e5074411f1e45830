-- ===== src/Retrieval.antt =====
-- Retrieval: src/code_rag/apps/retrieval/.
pub mod Hits
pub mod Fusion
pub mod Ranking
pub mod Expansion
pub mod Neighbors
pub mod Rerank
pub mod Reranked
pub mod Service
pub mod Passing
pub mod Inside
pub mod Answers
pub mod Granted
pub mod QueryCache
pub mod CacheBounds
pub mod Tests
pub mod SearchTests
