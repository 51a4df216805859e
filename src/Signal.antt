-- ===== src/Signal.antt =====
-- crates/avix-core/src/signal: the signals between the kernel and the agents.
pub mod Kind
pub mod Channels
pub mod Bus
pub mod PipePayload
mod Tests
