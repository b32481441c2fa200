-- ===== src/HttpSource.antt =====
-- hub/internal/httpboundary/boundary.go: the address that a request is counted under.
pub mod Defs
pub mod Hops
pub mod Spoof
mod Tests
