-- ===== src/Broker/Admit.antt =====
-- `admit` (state/broker.go): the candidates in their fair order, the refusals, and the dispatch.
use microoperator.Base.{
  ℕ, suc, ◌+◌, ℤ, pos, ◌+ℤ◌, ◌-ℤ◌, lt_int, le_int, eq_int, max_int, Bool, true, false, not, ◌&&◌,
  ◌||◌, List, [], ◌∷◌, ◌++◌, map, Text, text, same, ltb, leb, ◌==◌, if◌then◌else◌, Result, ok, err,
  ◌>>=◌, none, some, find, take,
}
use microoperator.Config.{ModelConfig, lookup_or, zero_model}
use microoperator.Store.{
  GoalState, CallState, AttemptState, system_running, system_paused, call_queued, SystemRow,
  GoalRow, CallRow, AttemptRow, Db, update_where, order_by,
}
use microoperator.Access.Env.{Env, local_administrator, error_text, denied_task}
use microoperator.Access.Read.{Execution, read_execution, audit_execution}
use microoperator.Access.Inspect.{System, read_system, inspect}
use microoperator.Access.Learning.{admit_learning_uses}
use microoperator.Broker.Budget.{check_task_admission, charge_agents}
use microoperator.Broker.Queue.{
  Session, authorize_call, terminal_call, update_call, is_goal, is_system,
}
use microoperator.Broker.Quota.{Round, check_groups, take_credit}

-- MaxOperators
abbrev pub max_operators : ℕ
max_operators = 64

pub record Waiting : Type 0 where
  pub last_admission : ℕ
  pub call : CallRow

unfoldable pub waiting_calls : Db → List CallRow → List Waiting
waiting_calls db [] = []
waiting_calls db (c ∷ calls) =
    let rest = waiting_calls db calls in
    elim (find (λ (s : SystemRow). same s.system_id c.system_id && call_queued c.state)
      db.systems) [
        | none ↦ rest
        | some s ↦ record { last_admission = s.last_admission; call = c } ∷ rest
      ]

pub not_after : Waiting → Waiting → Bool
not_after a b =
    ltb a.last_admission b.last_admission
    || ((a.last_admission == b.last_admission) && leb a.call.sequence b.call.sequence)

-- The queued calls, those of the system that was admitted the longest time ago first.
unfoldable pub candidates : Db → List (Text × Text)
unfolding waiting_calls not_after
candidates db =
    map (λ (w : Waiting). (w.call.system_id, w.call.call_id))
      (take max_operators (order_by not_after (waiting_calls db db.model_calls)))

-- The switch over the reasons to reject a call.
unfoldable pub refusal : System → Execution → ℤ → Text
refusal r e now =
    if not (system_running r.system_row.state) && not (system_paused r.system_row.state)
    then text "system stopped or stopping"
    else if not (eq_int r.system_row.revision e.revision) || not (same r.blocked_reason [])
    then text "model grant revoked or administrative definitions changed"
    else if le_int e.wait_deadline now || le_int e.deadline now
    then text "queue deadline exceeded"
    else if lt_int r.remaining_tokens e.reservation
        || lt_int (e.goal_budget -ℤ e.goal_used -ℤ e.goal_reserved) e.reservation
    then text "budget exhausted"
    else []

abbrev pub max_attempt : List AttemptRow → ℕ
max_attempt [] = 0
max_attempt (a ∷ attempts) =
    let rest = max_attempt attempts in if ltb rest a.attempt_id then a.attempt_id else rest

abbrev pub reserve_system : Execution → ℕ → SystemRow → SystemRow
reserve_system e attempt s = record s {
  reserved_tokens = s.reserved_tokens +ℤ e.reservation;
  last_admission = attempt;
}

abbrev pub reserve_goal : Execution → GoalRow → GoalRow
reserve_goal e g = record g {
  reserved_tokens = g.reserved_tokens +ℤ e.reservation;
  state = GoalState.running;
}

abbrev pub start_call : Execution → ℤ → ℤ → CallRow → CallRow
start_call e dispatch_at now c = record c {
  state = CallState.running;
  reason = [];
  usage_known = false;
  attempts = c.attempts + 1;
  dispatched_at = dispatch_at;
  queue_wait_ms = c.queue_wait_ms +ℤ max_int (now -ℤ e.queued_at) (pos 0);
}

abbrev pub new_attempt : Db → Execution → ℤ → AttemptRow
new_attempt db e dispatch_at = record {
  attempt_id = suc (max_attempt db.model_attempts);
  call_id = e.call_id;
  system_id = e.system_id;
  dispatched_at = dispatch_at;
  reservation = e.reservation;
  state = AttemptState.running;
  throttled = false;
  input_tokens = pos 0;
  output_tokens = pos 0;
}

-- The rows that the admission of a call changes, its quota credit and task uses aside.
unfoldable pub dispatch : Db → Execution → List Text → ℤ → ℤ → Db
dispatch db e groups dispatch_at now =
    let charged = charge_agents db e e.reservation (pos 0) in
    let attempt = suc (max_attempt db.model_attempts) in
    audit_execution
      (update_call e.call_id (start_call e dispatch_at now) (record charged {
        quota_state = take_credit groups charged.quota_state;
        systems = update_where (is_system e) (reserve_system e attempt) charged.systems;
        goals = update_where (is_goal e) (reserve_goal e) charged.goals;
        model_attempts = charged.model_attempts ++ new_attempt db e dispatch_at ∷ [];
      }))
      e.system_id e.activation_id (text "model.dispatch") e.revision

-- How the loop goes on: with the next candidate, or not.
pub data Progress : Type 0 where
  next : Db → Progress
  stop : Db → Bool → Progress

abbrev pub waiting_reason : Text
waiting_reason = text "waiting for shared rate, cooldown, or concurrency capacity"

-- A call that its task's uses let through is dispatched.
unfoldable pub admit_uses : Result Db → Round → Execution → List Text → ℤ → Result Progress
admit_uses (ok db) round e groups now = ok (stop (dispatch db e groups round.dispatch_at now) true)
admit_uses (err problem) round e groups now =
    if denied_task problem
    then ok (next (terminal_call round.db e CallState.rejected (error_text problem)))
    else err problem

unfoldable pub after_quota : Session → Execution → List Text → ℤ → Round → Result Progress
after_quota session e groups now round =
    if not round.allowed
    then ok (
        next
          (update_call e.call_id (λ (c : CallRow). record c { reason = waiting_reason }) round.db))
    else if not (same e.call_id session.call_id)
    then ok (stop round.db false)
    else admit_uses (admit_learning_uses round.db e now) round e groups now

-- The part of the loop's body below the reasons.
unfoldable pub after_reason : Env → Session → Db → Execution → Text → Result Progress
after_reason env session db e reason =
    if not (same reason [])
    then ok (next (terminal_call db e CallState.rejected reason))
    else (let groups = ModelConfig.quota_groups (lookup_or zero_model e.model env.cfg.models) in
        check_groups env.cfg e env.now groups
          (record { db = db; allowed = true; dispatch_at = env.now })
        >>= after_quota session e groups env.now)

-- The body of the loop.
unfoldable pub admit_one : Env → Session → Db → (Text × Text) → Result Progress
admit_one env session db (system, call) = do
  e ← read_execution db system call
  found ← read_system env.digests db local_administrator e.system_id
  let reason = refusal (inspect env found) e env.now
  why ← (if same reason [] then check_task_admission env db e else ok reason)
  after_reason env session db e why

unfoldable pub admit_from : Env → Session → List (Text × Text) → Db → Result (Db × Bool)
admit_from env session [] db = ok (db, false)
admit_from env session (id ∷ ids) db = admit_one env session db id >>= λ progress. elim progress [
  | next db' ↦ admit_from env session ids db'
  | stop db' admitted ↦ ok (db', admitted)
]

pub record Admission : Type 0 where
  pub db : Db
  pub result : Execution
  pub admitted : Bool

unfoldable pub admit : Env → Db → Session → Result Admission
admit env db session = authorize_call db session >>= λ e.
    if not (call_queued e.state)
    then ok (record { db = db; result = e; admitted = false })
    else (admit_from env session (candidates db) db >>= λ done.
        read_execution done.0 session.system_id session.call_id >>= λ result.
        ok (record { db = done.0; result = result; admitted = done.1 }))
