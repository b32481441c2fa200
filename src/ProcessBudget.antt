-- ===== src/ProcessBudget.antt =====
-- hub/internal/processbudget/runner.go: seats for local subprocesses, and a bound on their output.
pub mod Runner
pub mod Output
pub mod Seats
mod Tests
