-- ===== src/Kernel.antt =====
-- crates/avix-core/src/kernel: approvals, signals to agents, requests for resources and capabilities.
pub mod Approval
pub mod Hil
pub mod Signals
pub mod Resource
pub mod Capabilities
mod Tests
