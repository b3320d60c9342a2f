-- ===== src/Broker.antt =====
-- The admission of model calls (state/broker.go, `CancelModelCall` of state/workflows.go): one
-- durable decision over grants, fair ordering, shared quotas and the budgets of the system, the
-- goal, the agent and its ancestors. Each operation is a transaction: an error leaves the database
-- as it was, so that an operation returns the database that it commits, or its error.
pub mod Budget
pub mod Queue
pub mod Quota
pub mod Admit
pub mod Follows
pub mod Once
pub mod Final
pub mod Decision
pub mod Capacity
pub mod Credit
pub mod Admission
pub mod Guarantees
pub mod Settle
