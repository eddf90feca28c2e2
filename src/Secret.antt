-- ===== src/Secret.antt =====
-- The crate alknet-secret (crates/alknet-secret/src).
pub mod Cache
pub mod Derivation
pub mod Crypto
pub mod Ethereum
pub mod Encryption
pub mod Mnemonic
pub mod Service
pub mod Actor
mod Tests
