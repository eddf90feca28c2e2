-- ===== src/Server.antt =====
-- crates/alknet-core/src/server: the guards of the SSH server, and what it is started with.
pub mod Accept
pub mod Tasks
pub mod Handler
pub mod Listener
pub mod Options
pub mod RateLimit
pub mod Stealth
mod Tests
