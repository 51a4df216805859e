-- ===== src/Jobs.antt =====
-- crates/avix-core/src/jobs: long-running tool calls, their states and the events about them.
pub mod Job
pub mod Registry
pub mod Watch
mod Tests
