-- ===== src/Protocol.antt =====
-- crates/certael-agent-protocol/src/lib.rs: the signed messages and their validation.
pub mod Errors
pub mod External
pub mod Messages
pub mod Registration
pub mod Fields
pub mod Domains
pub mod KeyRing
pub mod Validate
pub mod Register
pub mod Compatibility
pub mod Verify
pub mod Launch
pub mod Report
pub mod Samples
mod Tests
