-- ===== src/Auth.antt =====
-- crates/avix-core/src/auth: logins, their sessions and the refreshing of tokens. The tokens themselves
-- are Gateway/Token.
pub mod Session
pub mod Service
pub mod Config
mod Tests
