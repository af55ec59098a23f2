-- ===== src/Cron.antt =====
-- The cron scheduler: crates/cja/src/cron.
pub mod Schedule
pub mod Tables
pub mod Claim
pub mod Tick
pub mod Registry
pub mod Worker
mod Tests
