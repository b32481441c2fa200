-- ===== src/Update/Staging.antt =====
-- shared/updateverify: the verification of a signed artifact for staging.
pub mod State
pub mod Rules
pub mod Verify
pub mod Accept
pub mod Authority
pub mod History
pub mod Frame
mod Tests
