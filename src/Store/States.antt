-- ===== src/Store/States.antt =====
-- The state columns, with the values that their CHECK constraints allow, and the tests on them.
use microoperator.Base.{Bool, true, false}

-- systems.state (schemaV3)
pub data SystemState : Type 0 where
  inactive running stopping stopped paused : SystemState

-- goals.state (schemaV2)
pub data GoalState : Type 0 where
  pending queued running waiting completed failed canceled rejected : GoalState

-- goals.control, tasks.control and agents.state (schemaV3)
pub data Control : Type 0 where
  active paused stopped : Control

-- tasks.state (schemaV3)
pub data TaskState : Type 0 where
  queued running waiting completed failed canceled rejected : TaskState

-- model_calls.state (schemaV3)
pub data CallState : Type 0 where
  awaiting_worker queued running completed failed canceled rejected unknown : CallState

-- model_attempts.state (schemaV2)
pub data AttemptState : Type 0 where
  running known unknown : AttemptState

-- tool_drafts.state (schemaV3)
pub data DraftState : Type 0 where
  draft rejected disabled : DraftState

-- learning_evaluations.state (schemaV5)
pub data EvaluationState : Type 0 where
  queued evaluating pending_approval active failed rejected disabled : EvaluationState

abbrev pub system_running : SystemState → Bool
system_running SystemState.running = true
system_running _ = false

abbrev pub system_paused : SystemState → Bool
system_paused SystemState.paused = true
system_paused _ = false

abbrev pub is_stopped : Control → Bool
is_stopped Control.stopped = true
is_stopped _ = false

abbrev pub is_active : Control → Bool
is_active Control.active = true
is_active _ = false

-- TaskTerminal (state/team_store.go)
unfoldable pub task_terminal : TaskState → Bool
task_terminal TaskState.completed = true
task_terminal TaskState.failed = true
task_terminal TaskState.canceled = true
task_terminal TaskState.rejected = true
task_terminal _ = false

abbrev pub call_queued : CallState → Bool
call_queued CallState.queued = true
call_queued _ = false

abbrev pub call_awaiting : CallState → Bool
call_awaiting CallState.awaiting_worker = true
call_awaiting _ = false

abbrev pub call_running : CallState → Bool
call_running CallState.running = true
call_running _ = false

-- state IN ('awaiting_worker','queued')
abbrev pub call_pending : CallState → Bool
call_pending CallState.awaiting_worker = true
call_pending CallState.queued = true
call_pending _ = false

abbrev pub attempt_running : AttemptState → Bool
attempt_running AttemptState.running = true
attempt_running _ = false

-- An attempt whose reservation is not released: in flight, or of unknown outcome.
abbrev pub attempt_open : AttemptState → Bool
attempt_open AttemptState.known = false
attempt_open _ = true

abbrev pub is_draft : DraftState → Bool
is_draft DraftState.draft = true
is_draft _ = false

abbrev pub evaluation_active : EvaluationState → Bool
evaluation_active EvaluationState.active = true
evaluation_active _ = false
