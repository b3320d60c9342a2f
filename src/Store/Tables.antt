-- ===== src/Store/Tables.antt =====
-- The database: its tables.
use microoperator.Base.{List}
use microoperator.Store.Rows.{
  SystemRow, RevisionRow, GoalRow, AgentRow, AgentRevisionRow, UsageRow, TaskRow, CallRow, GroupRow,
  AttemptRow, QuotaRow, DraftRow, RevocationRow, ApprovalRow, UseRow, CheckRow, EvaluationRow,
  AuditRow,
}
use microoperator.Store.Messages.{
  EventRow, MailboxRow, ArtifactRow, MemoryHeadRow, MemoryRevisionRow, ScheduleRow, SubscriptionRow,
}

pub record Db : Type 0 where
  pub systems : List SystemRow
  pub system_revisions : List RevisionRow
  pub goals : List GoalRow
  pub agents : List AgentRow
  pub agent_revisions : List AgentRevisionRow
  pub agent_usage : List UsageRow
  pub tasks : List TaskRow
  pub model_calls : List CallRow
  pub call_groups : List GroupRow
  pub model_attempts : List AttemptRow
  pub quota_state : List QuotaRow
  pub tool_drafts : List DraftRow
  pub tool_revocations : List RevocationRow
  pub learning_approvals : List ApprovalRow
  pub learning_uses : List UseRow
  pub learning_checks : List CheckRow
  pub learning_evaluations : List EvaluationRow
  pub audit : List AuditRow
  pub events : List EventRow
  pub mailboxes : List MailboxRow
  pub artifacts : List ArtifactRow
  pub memory_heads : List MemoryHeadRow
  pub memory_revisions : List MemoryRevisionRow
  pub schedules : List ScheduleRow
  pub subscriptions : List SubscriptionRow
