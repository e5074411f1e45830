-- ===== src/Http.antt =====
-- HTTP calls: src/code_rag/adapters/http/.
pub mod Retries
pub mod Attempts
pub mod Tests
