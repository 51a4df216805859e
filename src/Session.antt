-- ===== src/Session.antt =====
-- crates/avix-core/src/session: the records of the sessions in which agents work together.
pub mod Record
pub mod Store
mod Tests
