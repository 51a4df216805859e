-- ===== src/Ipc.antt =====
-- crates/avix-core/src/ipc: messages between processes; here their frames (the messages are
-- Router/Message).
pub mod Frame
mod Tests
