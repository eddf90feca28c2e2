-- ===== src/Interface.antt =====
-- crates/alknet-core/src/interface: what the server speaks on a connection.
pub mod Pairs
pub mod RawFraming
pub mod Ssh
mod Tests
