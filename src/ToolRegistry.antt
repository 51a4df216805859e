-- ===== src/ToolRegistry.antt =====
-- crates/avix-core/src/tool_registry: the tools that services offer.
pub mod Registry
pub mod Listing
pub mod Scanner
pub mod PermissionsStore
mod Tests
