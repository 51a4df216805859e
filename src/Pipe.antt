-- ===== src/Pipe.antt =====
-- crates/avix-core/src/pipe: the channels between two agents.
pub mod Config
pub mod Channel
pub mod Registry
pub mod Manager
mod Tests
