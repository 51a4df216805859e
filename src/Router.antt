-- ===== src/Router.antt =====
-- crates/avix-core/src/router and ipc/message.rs: from an agent's tool call to the service that answers
-- it.
pub mod Message
pub mod Services
pub mod Capability
pub mod Concurrency
pub mod Dispatcher
mod Tests
