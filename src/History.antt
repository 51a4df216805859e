-- ===== src/History.antt =====
-- crates/avix-core/src/history: the messages of sessions and their parts.
pub mod Record
pub mod Store
pub mod Manager
mod Tests
