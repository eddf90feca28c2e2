-- ===== src/Client.antt =====
-- crates/alknet-core/src/client: port forwarding on the client's side.
pub mod Forward
pub mod Manager
pub mod Session
pub mod Ssh
mod Tests
