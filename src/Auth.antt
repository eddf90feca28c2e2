-- ===== src/Auth.antt =====
-- crates/alknet-core/src/auth: identities and what they are read from.
pub mod Identity
pub mod Keys
pub mod ServerAuth
mod Tests
