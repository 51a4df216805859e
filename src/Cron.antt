-- ===== src/Cron.antt =====
-- crates/avix-core/src/cron_svc: jobs that run at given times.
pub mod Schema
pub mod Scheduler
pub mod Loader
pub mod Runner
mod Tests
