-- ===== src/Gate/Capacity.antt =====
-- The sizes of the gate's maps, and that every action keeps them.
pub mod Bounds
pub mod Steps
