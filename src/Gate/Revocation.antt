-- ===== src/Gate/Revocation.antt =====
-- Revocation is final.
pub mod Keeps
pub mod Sections
pub mod Steps
pub mod Final
