-- ===== src/Gate.antt =====
-- shared/proxygate: the admission gate of the reverse proxy.
pub mod State
pub mod Invalidate
pub mod Admit
pub mod Attach
pub mod Owner
pub mod Fence
pub mod Step
pub mod Invariant
pub mod Revocation
pub mod Handover
pub mod Capacity
pub mod Policy
pub mod Control
mod Tests
