-- ===== src/Types.antt =====
-- crates/avix-core/src/types: roles, tool names, the capability table and process ids.
pub mod Role
pub mod Tool
pub mod Token
pub mod CapabilityMap
pub mod Pid
mod Tests
