-- ===== src/Broker/Queue.antt =====
-- authorizeCall, queue, terminalCall (state/broker.go), CancelModelCall (state/workflows.go).
use microoperator.Base.{
  ℤ, eq_int, Bool, not, ◌&&◌, ◌||◌, Text, text, same, if◌then◌else◌, Result, ok, fail_if, ◌>>=◌,
  ◌>>◌, Error, field,
}
use microoperator.Store.{
  GoalState, CallState, call_awaiting, call_pending, SystemRow, GoalRow, CallRow, Db, update_where,
}
use microoperator.Access.Read.{Execution, read_execution}

-- What the caller holds of its activation.
pub record Session : Type 0 where
  pub system_id : Text
  pub call_id : Text
  pub goal_id : Text
  pub activation_id : Text
  pub activation_owner : Text
  pub revision : ℤ

unfoldable pub outside : Execution → Session → Bool
outside current session =
    not (same current.activation_id session.activation_id)
    || (not (same current.activation_owner session.activation_owner)
        || (not (eq_int current.revision session.revision)
            || not (same current.goal_id session.goal_id)))

abbrev pub outside_activation : Error
outside_activation = field (text "session") (text "model call is outside this activation")

unfoldable pub authorize_call : Db → Session → Result Execution
authorize_call db session = do
  current ← read_execution db session.system_id session.call_id
  fail_if (outside current session) outside_activation
  ok current

abbrev pub is_call : Text → CallRow → Bool
is_call id c = same c.call_id id

-- UPDATE model_calls … WHERE call_id=?
abbrev pub update_call : Text → (CallRow → CallRow) → Db → Db
update_call id f db = record db { model_calls = update_where (is_call id) f db.model_calls }

abbrev pub is_system : Execution → SystemRow → Bool
is_system e s = same s.system_id e.system_id

abbrev pub is_goal : Execution → GoalRow → Bool
is_goal e g = same g.system_id e.system_id && same g.goal_id e.goal_id

-- UPDATE goals SET state=? WHERE system_id=? AND goal_id=?
abbrev pub update_goal_state : Execution → GoalState → Db → Db
update_goal_state e state db = record db {
  goals = update_where (is_goal e) (λ (g : GoalRow). record g { state = state }) db.goals;
}

unfoldable pub queue : Db → Session → Result Db
queue db session = authorize_call db session >>= λ e. ok (
    if call_awaiting e.state
    then update_goal_state e GoalState.waiting
        (update_call e.call_id (λ (c : CallRow). record c { state = CallState.queued }) db)
    else db)

abbrev pub is_scoped_call : Execution → CallRow → Bool
is_scoped_call e c = same c.system_id e.system_id && same c.call_id e.call_id

unfoldable pub terminal_call : Db → Execution → CallState → Text → Db
terminal_call db e state reason = record db {
  model_calls =
      update_where (is_scoped_call e) (λ (c : CallRow). record c { state = state; reason = reason })
        db.model_calls;
}

abbrev pub canceled_reason : Text
canceled_reason = text "canceled before dispatch; no budget charged"

unfoldable pub cancel_model_call : Db → Session → Result Db
cancel_model_call db session = authorize_call db session >>= λ e.
    ok (if call_pending e.state then terminal_call db e CallState.canceled canceled_reason else db)
