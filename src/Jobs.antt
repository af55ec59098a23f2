-- ===== src/Jobs.antt =====
-- The job queue: crates/cja/src/jobs.
pub mod Tables
pub mod Config
pub mod Copies
pub mod Claim
pub mod Finalize
mod Tests
pub mod Worker
pub mod Lease
pub mod Enqueue
