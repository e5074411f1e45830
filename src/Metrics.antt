-- ===== src/Metrics.antt =====
-- Metrics: src/code_rag/apps/metrics/.
pub mod Stats
pub mod Totals
pub mod Tests
