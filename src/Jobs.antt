-- ===== src/Jobs.antt =====
-- The durable job queue: backend/app/job_queue.py, the life of a claimed job in backend/app/jobs.py
-- and the routes that cancel and retry one in backend/app/main.py.
pub mod Rows
pub mod Queue
pub mod Recovery
pub mod Execution
pub mod Routes
pub mod Lease
pub mod Fencing
pub mod Attempts
mod Examples
