-- ===== src/Config.antt =====
-- crates/alknet-core/src/config: what the server is configured to allow.
pub mod AuthPolicy
pub mod Forwarding
pub mod Static
mod Tests
