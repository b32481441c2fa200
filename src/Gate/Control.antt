-- ===== src/Gate/Control.antt =====
-- shared/proxygate/control.go: the protocol between the controller and the receiver of a gate.
pub mod Defs
pub mod Receiver
pub mod Closed
pub mod Carried
pub mod Lockstep
mod Tests
