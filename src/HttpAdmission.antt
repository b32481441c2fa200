-- ===== src/HttpAdmission.antt =====
-- hub/internal/httpboundary/admission.go: the admission budget of the costly HTTP routes.
pub mod Float
pub mod Tokens
pub mod Defs
pub mod World
pub mod Sweep
pub mod Counts
pub mod Settings
pub mod Limits
mod Tests
