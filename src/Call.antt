-- ===== src/Call.antt =====
-- crates/alknet-core/src/call: the call protocol.
pub mod Access
pub mod Envelope
pub mod Frame
pub mod Pending
pub mod Registry
pub mod Tests
