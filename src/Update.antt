-- ===== src/Update.antt =====
-- shared/updateverify: the verification of a signed update.
pub mod Text
pub mod Version
pub mod Staging
mod Tests
