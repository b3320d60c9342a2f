-- ===== src/Store/Messages.antt =====
-- The rows of events, mailboxes, artifacts, memory, schedules and subscriptions (team_store.go,
-- knowledge_store.go), with their states.
use microoperator.Base.{ℕ, ℤ, Bool, true, false, List, Text}

-- mailboxes.state
pub data MailboxState : Type 0 where
  pending leased acked dead : MailboxState

-- schedules.state and subscriptions.state
pub data WakeState : Type 0 where
  active completed canceled expired failed : WakeState

-- memory_heads.state
pub data MemoryState : Type 0 where
  active pending deleted : MemoryState

pub record EventRow : Type 0 where
  pub event_id : Text
  pub system_id : Text
  pub type : Text
  pub source : Text
  pub recipient : Text
  pub goal_id : Text
  pub task_id : Text
  pub causation_id : Text
  pub created_at : ℤ
  pub expires_at : ℤ
  pub depth : ℕ
  pub payload : Text

pub record MailboxRow : Type 0 where
  pub system_id : Text
  pub event_id : Text
  pub recipient : Text
  pub task_id : Text
  pub state : MailboxState
  pub reason : Text
  pub applied : Bool

pub record ArtifactRow : Type 0 where
  pub system_id : Text
  pub artifact_id : Text
  pub goal_id : Text
  pub task_id : Text
  pub content : Text

pub record MemoryHeadRow : Type 0 where
  pub system_id : Text
  pub memory_id : Text
  pub scope : Text
  pub owner_id : Text
  pub revision : ℕ
  pub state : MemoryState
  pub expires_at : ℤ

pub record MemoryRevisionRow : Type 0 where
  pub system_id : Text
  pub memory_id : Text
  pub revision : ℕ
  pub content : Text
  pub evidence : Text
  pub confidence : ℤ
  pub artifacts : List Text
  pub author : Text
  pub goal_id : Text
  pub task_id : Text
  pub created_at : ℤ

pub record ScheduleRow : Type 0 where
  pub system_id : Text
  pub schedule_id : Text
  pub task_id : Text
  pub creator : Text
  pub expression : Text
  pub timezone : Text
  pub content : Text
  pub next_due : ℤ
  pub expires_at : ℤ
  pub remaining : ℤ
  pub state : WakeState
  pub reason : Text

pub record SubscriptionRow : Type 0 where
  pub system_id : Text
  pub subscription_id : Text
  pub task_id : Text
  pub creator : Text
  pub type : Text
  pub scope : Text
  pub expires_at : ℤ
  pub remaining : ℤ
  pub state : WakeState
  pub reason : Text

abbrev pub mail_pending : MailboxState → Bool
mail_pending MailboxState.pending = true
mail_pending _ = false

abbrev pub mail_leased : MailboxState → Bool
mail_leased MailboxState.leased = true
mail_leased _ = false

-- state IN ('pending','leased')
abbrev pub mail_open : MailboxState → Bool
mail_open MailboxState.pending = true
mail_open MailboxState.leased = true
mail_open _ = false

abbrev pub wake_active : WakeState → Bool
wake_active WakeState.active = true
wake_active _ = false

abbrev pub memory_active : MemoryState → Bool
memory_active MemoryState.active = true
memory_active _ = false

abbrev pub memory_pending : MemoryState → Bool
memory_pending MemoryState.pending = true
memory_pending _ = false

abbrev pub memory_deleted : MemoryState → Bool
memory_deleted MemoryState.deleted = true
memory_deleted _ = false
