-- ===== src/Secrets.antt =====
-- Secrets in texts, src/code_rag/apps/secrets/.
pub mod Scanner
pub mod Apart
pub mod Redacted
mod Tests
