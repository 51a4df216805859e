-- ===== src/Process.antt =====
-- crates/avix-core/src/process: the table of processes and their status files.
pub mod Table
pub mod StatusFile
mod Tests
