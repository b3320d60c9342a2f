-- ===== src/Worker.antt =====
-- internal/worker: the process that takes part in one turn of a task.
pub mod Operator
