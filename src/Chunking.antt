-- ===== src/Chunking.antt =====
-- Chunking: src/code_rag/apps/chunking/.
pub mod Windows
pub mod Cover
pub mod Tests
