-- ===== src/Executor.antt =====
-- crates/avix-core/src/executor: the loop that runs an agent; here the check of its tool calls.
pub mod Validation
pub mod Descriptors
pub mod Tools
mod Tests
