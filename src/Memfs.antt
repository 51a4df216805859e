-- ===== src/Memfs.antt =====
-- crates/avix-core/src/memfs: the files in memory that the kernel and its services share.
pub mod Path
pub mod Vfs
pub mod Context
pub mod Tools
pub mod LocalProvider
pub mod Host
pub mod Router
mod Tests
