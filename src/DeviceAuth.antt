-- ===== src/DeviceAuth.antt =====
-- hub/internal/deviceauth: the authority over customer devices and their keys.
pub mod State
pub mod Admission
pub mod Access
pub mod Change
pub mod Submit
pub mod Enroll
pub mod Plan
pub mod Claim
pub mod Process
pub mod Views
pub mod Requests
pub mod Accept
pub mod Outcomes
pub mod Refusal
pub mod Authority
pub mod Growth
pub mod Upkeep
pub mod Claims
pub mod Runs
pub mod History
pub mod Lasting
pub mod Carried
pub mod Grants
pub mod Agreement
pub mod Certified
pub mod Completion
pub mod Success
pub mod Performed
pub mod Reconciled
pub mod Schedule
pub mod Fairness
pub mod Starved
pub mod Cycles
pub mod Tests
pub mod Executions
mod Rounds
