-- ===== src/Llm.antt =====
-- crates/avix-core/src/llm_svc: here the choice of the provider that answers a call.
pub mod Routing
pub mod Config
pub mod Usage
mod Tests
