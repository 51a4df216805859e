-- ===== src/Params.antt =====
-- crates/avix-core/src/params: the defaults and the limits of agents, layer by layer, and what they resolve to.
pub mod Constraint
pub mod Defaults
pub mod Limits
pub mod Resolver
pub mod Loader
pub mod Files
pub mod ResolvedFile
mod Tests
