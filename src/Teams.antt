-- ===== src/Teams.antt =====
-- The teams of the package `state`: events and mailboxes (team_store.go), tasks that continue a goal
-- (continuous.go), the end of a task (team_ops.go), and wakeups by subscriptions (wakeups.go).
pub mod Events
pub mod Causes
pub mod Budget
pub mod Continue
pub mod Terminate
pub mod Live
pub mod Ends
pub mod Closed
pub mod Ended
pub mod Wakes
pub mod Woken
