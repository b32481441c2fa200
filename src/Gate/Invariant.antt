-- ===== src/Gate/Invariant.antt =====
-- The invariant of the gate and its preservation.
pub mod Defs
pub mod Frame
pub mod Edit
pub mod Fences
pub mod Drop
pub mod Growth
pub mod Sweep
pub mod Attach
pub mod End
pub mod Steps
