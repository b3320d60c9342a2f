-- ===== src/Knowledge.antt =====
-- What agents keep and wait for: memory, schedules and subscriptions (state/knowledge.go).
pub mod Memory
pub mod Search
pub mod Wakeups
pub mod Capacity
pub mod Locks
pub mod Order
pub mod Pages
