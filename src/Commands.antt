-- ===== src/Commands.antt =====
-- `command` (state/store.go): the transaction of an administrative command, which records a receipt,
-- and answers a repetition of the command from it.
pub mod Replay
use microoperator.Base.{
  ℕ, zero, suc, ◌+◌, ◌-◌, ◌*◌, ◌≤◌, ◌<◌, ℤ, pos, negsuc, ◌+ℤ◌, ◌-ℤ◌, ◌*ℤ◌, lt_int, le_int, eq_int,
  min_int, max_int, Bool, true, false, not, ◌&&◌, ◌||◌, List, [], ◌∷◌, ◌++◌, map, reverse, Text,
  text, same, contains, contains_byte, length, ltb, leb, ◌==◌, if◌then◌else◌, Result, ok, err,
  fail_if, ◌>>=◌, ◌>>◌, Error, field, Option, none, some, blank, has_prefix, has_suffix, valid_utf8,
  each, all, any, keep, find, take, ◌≡◌, refl, arith,
}
use microoperator.Store.{
  SystemState, GoalState, Control, TaskState, CallState, AttemptState, DraftState, EvaluationState,
  system_running, system_paused, is_stopped, is_active, task_terminal, call_queued, call_awaiting,
  call_running, call_pending, attempt_running, attempt_open, is_draft, evaluation_active, ToolPin,
  SystemGrants, ModelToolCall, ChatMessage, SystemRow, RevisionRow, GoalRow, AgentRow,
  AgentRevisionRow, UsageRow, TaskRow, CallRow, GroupRow, AttemptRow, QuotaRow, DraftRow,
  RevocationRow, ApprovalRow, UseRow, ProtectedCase, CheckRow, EvaluationRow, AuditRow, Db,
  update_where, last, row, sum_where, count_where, order_by,
}
use microoperator.Config.{ToolConfig}
use microoperator.Access.Env.{Digests}
use microoperator.Access.Pins.{load_local_tools}
use microoperator.Access.Inspect.{System}

-- A row of command_receipts; `response` is the record that was encoded, without its local tools.
pub record Receipt : Type 0 where
  pub principal : Text
  pub command_key : Text
  pub request_hash : Text
  pub response : System

-- The database with its receipts.
pub record Journal : Type 0 where
  pub db : Db
  pub receipts : List Receipt

unfoldable pub is_receipt : Text → Text → Receipt → Bool
is_receipt principal key r = same r.principal principal && same r.command_key key

abbrev pub with_locals : System → List (Text × ToolConfig) → System
with_locals r locals = record r { local_tools = locals }

abbrev pub load_of : Digests → Journal → System → Result (List (Text × ToolConfig))
load_of digests j r = load_local_tools digests j.db r.system_row.system_id r.grants.system_tools

abbrev pub new_receipt : Text → Text → Text → System → Receipt
new_receipt principal key hash r = record {
  principal = principal;
  command_key = key;
  request_hash = hash;
  response = r;
}

abbrev pub recorded : Text → Text → Text → Journal → (Db × System) → Journal
recorded principal key hash j done = record {
  db = done.0;
  receipts = j.receipts ++ new_receipt principal key hash done.1 ∷ [];
}

-- The answer from a receipt, which changes nothing.
unfoldable pub replay : Digests → Journal → System → Result (Journal × System)
replay digests j r = load_of digests j r >>= λ locals. ok (j, with_locals r locals)

unfoldable pub command :
    Digests → Text → Text → Text → (Db → Result (Db × System)) → Journal → Result (Journal × System)
command digests principal key hash mutate j = elim (find (is_receipt principal key) j.receipts) [
  | some r ↦
      if same r.request_hash hash then replay digests j r.response else err Error.command_conflict
  | none ↦ mutate j.db >>= λ done. ok (recorded principal key hash j done, done.1)
]
