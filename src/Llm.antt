-- ===== src/Llm.antt =====
-- The client of the LLM gateway: crates/cja-llm.
pub mod Transport
pub mod Durable
mod Tests
