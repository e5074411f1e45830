-- ===== src/Jobs.antt =====
-- Indexing jobs: the durable store of src/code_rag/adapters/elasticsearch/_jobs.py and the queue of
-- src/code_rag/apps/jobs/index_job_queue.py.
pub mod Records
pub mod Store
pub mod Writes
pub mod Claims
pub mod Held
pub mod Queue
pub mod Locks
pub mod Rounds
pub mod Submissions
mod Tests
