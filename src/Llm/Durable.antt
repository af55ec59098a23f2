-- ===== src/Llm/Durable.antt =====
-- Durable agent runs: crates/cja-llm/src/durable.
pub mod Nuls
pub mod Status
pub mod Tables
pub mod Db
pub mod Rig
pub mod Site
pub mod Worker
pub mod Steps
pub mod Advance
pub mod Start
pub mod View
pub mod Lifecycle
pub mod Backing
pub mod Foreign
pub mod Unqueued
pub mod Others
mod Tests
