-- ===== src/Access.antt =====
-- What the operations of `state` read and check before they act: systems and their definitions,
-- tasks, agents, tool pins, approvals and evaluations.
pub mod Env
pub mod Read
pub mod Pins
pub mod Inspect
pub mod Learning
pub mod Grants
