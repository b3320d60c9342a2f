-- ===== src/Store/Rows.antt =====
-- The rows of the tables.
use microoperator.Base.{ℕ, ℤ, Bool, List, Text}
use microoperator.Config.{SystemConfig, OperatorConfig, ToolConfig}
use microoperator.Store.States.{
  SystemState, GoalState, Control, TaskState, CallState, AttemptState, DraftState, EvaluationState,
}

-- state/store.go
pub record ToolPin : Type 0 where
  pub name : Text
  pub version : ℤ
  pub digest : Text

-- state/store.go
pub record SystemGrants : Type 0 where
  pub model : Text
  pub sandbox_profile : Text
  pub system_tools : List ToolPin
  pub operator_tools : List ToolPin
  pub definitions_digest : Text

-- state/registry.go
pub record ModelToolCall : Type 0 where
  pub id : Text
  pub type : Text
  pub name : Text
  pub arguments : Text

-- state/requests.go
pub record ChatMessage : Type 0 where
  pub role : Text
  pub content : Text
  pub tool_calls : List ModelToolCall
  pub tool_call_id : Text

pub record SystemRow : Type 0 where
  pub system_id : Text
  pub owner : Text
  pub operator_id : Text
  pub state : SystemState
  pub revision : ℤ
  pub used_tokens : ℤ
  pub reserved_tokens : ℤ
  pub last_admission : ℕ

pub record RevisionRow : Type 0 where
  pub system_id : Text
  pub revision : ℤ
  pub definition : SystemConfig
  pub grants : SystemGrants

pub record GoalRow : Type 0 where
  pub goal_id : Text
  pub system_id : Text
  pub prompt : Text
  pub state : GoalState
  pub token_budget : ℤ
  pub used_tokens : ℤ
  pub reserved_tokens : ℤ
  pub control : Control
  pub deadline : ℤ
  pub continuous : Bool
  pub task_lifetime_seconds : ℤ

pub record AgentRow : Type 0 where
  pub system_id : Text
  pub agent_id : Text
  pub parent_id : Text
  pub goal_id : Text
  pub name : Text
  pub revision : ℤ
  pub state : Control
  pub depth : ℕ
  pub token_budget : ℤ
  pub max_turns : ℕ

pub record AgentRevisionRow : Type 0 where
  pub system_id : Text
  pub agent_id : Text
  pub revision : ℤ
  pub definition : OperatorConfig
  pub tools : List ToolPin

pub record UsageRow : Type 0 where
  pub system_id : Text
  pub agent_id : Text
  pub goal_id : Text
  pub used_tokens : ℤ
  pub reserved_tokens : ℤ
  pub turns : ℕ

pub record TaskRow : Type 0 where
  pub system_id : Text
  pub task_id : Text
  pub goal_id : Text
  pub agent_id : Text
  pub agent_revision : ℤ
  pub parent_task : Text
  pub state : TaskState
  pub control : Control
  pub tools : List ToolPin
  pub conversation : List ChatMessage
  pub turns : ℕ
  pub call_id : Text
  pub waiting_tool : Text
  pub response : Text
  pub reason : Text
  pub learning_id : Text
  pub learning_role : Text
  pub deadline : ℤ

pub record CallRow : Type 0 where
  pub sequence : ℕ
  pub call_id : Text
  pub system_id : Text
  pub goal_id : Text
  pub task_id : Text
  pub activation_id : Text
  pub activation_owner : Text
  pub revision : ℤ
  pub model : Text
  pub stream : Bool
  pub state : CallState
  pub reason : Text
  pub response : Text
  pub reservation : ℤ
  pub attempts : ℕ
  pub input_tokens : ℤ
  pub output_tokens : ℤ
  pub usage_known : Bool
  pub queue_wait_ms : ℤ
  pub queued_at : ℤ
  pub deadline : ℤ
  pub wait_deadline : ℤ
  pub dispatched_at : ℤ
  pub agent_id : Text
  pub request : Text
  pub actions : List ModelToolCall

pub record GroupRow : Type 0 where
  pub call_id : Text
  pub system_id : Text
  pub group_name : Text

pub record AttemptRow : Type 0 where
  pub attempt_id : ℕ
  pub call_id : Text
  pub system_id : Text
  pub dispatched_at : ℤ
  pub reservation : ℤ
  pub state : AttemptState
  pub throttled : Bool
  pub input_tokens : ℤ
  pub output_tokens : ℤ

-- `credit` counts requests in units of 1/60000, the share that one request a minute earns in a
-- millisecond; the source keeps the quotient in a float64.
pub record QuotaRow : Type 0 where
  pub group_name : Text
  pub credit : ℤ
  pub updated_at : ℤ
  pub cooldown_until : ℤ

pub record DraftRow : Type 0 where
  pub system_id : Text
  pub tool_id : Text
  pub version : ℤ
  pub kind : Text
  pub description : Text
  pub content : Text
  pub requires_tools : List Text
  pub state : DraftState

pub record RevocationRow : Type 0 where
  pub system_id : Text
  pub name : Text
  pub version : ℤ

pub record ApprovalRow : Type 0 where
  pub system_id : Text
  pub tool_id : Text
  pub version : ℤ
  pub evaluation_id : Text
  pub definition : ToolConfig
  pub digest : Text
  pub expires_at : ℤ
  pub remaining_tasks : ℤ

pub record UseRow : Type 0 where
  pub system_id : Text
  pub tool_id : Text
  pub version : ℤ
  pub task_id : Text

-- state/learning.go
pub record ProtectedCase : Type 0 where
  pub input : Text
  pub expected : Text

pub record CheckRow : Type 0 where
  pub system_id : Text
  pub check_id : Text
  pub cases : List ProtectedCase

pub record EvaluationRow : Type 0 where
  pub system_id : Text
  pub evaluation_id : Text
  pub tool_id : Text
  pub version : ℤ
  pub check_id : Text
  pub origin_task : Text
  pub agent_id : Text
  pub profile_digest : Text
  pub runtime_digest : Text
  pub system_revision : ℤ
  pub configuration_digest : Text
  pub state : EvaluationState

pub record AuditRow : Type 0 where
  pub system_id : Text
  pub principal : Text
  pub action : Text
  pub revision : ℤ
