-- ===== src/Worker.antt =====
-- src/cranus/worker: the queue of ingestion jobs.
pub mod Jobs
pub mod Dispatch
