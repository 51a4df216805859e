-- ===== src/Invocation.antt =====
-- crates/avix-core/src/invocation: the records of the executions of agents.
pub mod Record
pub mod Store
pub mod Manager
mod Tests
