-- ===== src/Job.antt =====
-- Jobs and the threads that execute them: src/job.
pub mod Queue
pub mod Timer
mod Examples
