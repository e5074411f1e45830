-- ===== src/Auth.antt =====
-- Authentication: src/code_rag/apps/auth/authenticator.py.
pub mod Keys
pub mod Trusted
pub mod Tests
