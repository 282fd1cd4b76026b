-- ===== src/State.antt =====
-- internal/state: the snapshot that replaying the Event Log derives, the replay itself, and the
-- queries that the Scheduler, the budgets and `aoa status` ask of it.
pub mod Model
pub mod Spend
pub mod Handlers
pub mod Identity
pub mod GoalIdentity
pub mod Sessions
pub mod Apply
pub mod Frame
pub mod Closed
pub mod Indexed
pub mod Balanced
pub mod Cancelled
pub mod Replay
pub mod TicketView
pub mod Lifecycle
pub mod Decisions
pub mod Queries
pub mod Completion
pub mod Selection
pub mod Answers
pub mod Cycles
pub mod Outcome
pub mod Settling
pub mod Tally
pub mod Explained
pub mod Explaining
pub mod Conditions
pub mod GoalReports
mod Examples
pub mod Budget
