-- ===== src/Gateway.antt =====
-- crates/avix-core/src/gateway and the token store of crates/avix-core/src/auth: who may send which
-- command.
pub mod Acl
pub mod Replay
pub mod Token
pub mod Validator
pub mod EventBus
mod Tests
