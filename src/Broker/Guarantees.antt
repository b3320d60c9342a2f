-- ===== src/Broker/Guarantees.antt =====
-- What an admission (`admit` of state/broker.go) guarantees: the caller's own call or nothing, the
-- budgets and deadlines, and the quota groups.
use microoperator.Base.{
  ℕ, suc, ℤ, pos, ◌-ℤ◌, eq_int, true, false, ◌||◌, [], ◌∷◌, ◌++◌, Text, same, ok, ◌≡◌, refl,
}
use microoperator.Store.{AttemptState, system_running, system_paused, AttemptRow, QuotaRow, Db}
use microoperator.Base.{inl, inr, All, ◌≤ℤ◌, ◌<ℤ◌, ◌∙◌, ◌⊎◌, ap, List}
use microoperator.Access.Env.{Env, local_administrator}
use microoperator.Access.Read.{Execution, read_execution, audit_execution}
use microoperator.Access.Inspect.{System, read_system, inspect}
use microoperator.Broker.Budget.{charge_agents, check_task_admission}
use microoperator.Broker.Queue.{Session}
use microoperator.Broker.Quota.{Round, take_credit}
use microoperator.Broker.Admit.{Admission, admit, dispatch, new_attempt, max_attempt}
use microoperator.Broker.Decision.{groups_of, first_round}
use microoperator.Broker.Capacity.{HasRoom}
use microoperator.Broker.Credit.{Credited, cooldown_of}
use microoperator.Broker.Admission.{Dispatched, WaitsOnly, admit-Dispatched}
use microoperator.Ledger.Frames.{check_groups-QuotaOnly, admit_learning_uses-UsesOnly}

-- One attempt in flight of the caller's call is the only new one.
pub record OneAttempt (session : Session) (db after : Db) : Type 0 where
  pub attempt : AttemptRow
  pub own : same attempt.call_id session.call_id ≡ true
  pub flying : attempt.state ≡ AttemptState.running
  pub fresh : attempt.attempt_id ≡ suc (max_attempt db.model_attempts)
  pub attempts : after.model_attempts ≡ db.model_attempts ++ attempt ∷ []

-- Nothing is reserved, charged or dispatched.
pub record NoAttempt (db after : Db) : Type 0 where
  pub attempts : after.model_attempts ≡ db.model_attempts
  pub systems : after.systems ≡ db.systems
  pub goals : after.goals ≡ db.goals
  pub usage : after.agent_usage ≡ db.agent_usage
  pub uses : after.learning_uses ≡ db.learning_uses

module _ (env : Env) (session : Session) (db after : Db) (d : Dispatched env session db after) where
  before_attempts : Db.model_attempts (Round.db d.round) ≡ db.model_attempts
  before_attempts =
      let q =
        check_groups-QuotaOnly env.cfg d.call env.now (groups_of env d.call)
          (first_round env d.before) d.passed.quota in
      ap Db.model_attempts q.1 ∙ ap Db.model_attempts d.only_waits.2

  uses_attempts : Db.model_attempts d.uses ≡ db.model_attempts
  uses_attempts =
      ap Db.model_attempts
        (admit_learning_uses-UsesOnly (Round.db d.round) d.call env.now d.passed.used).2
      ∙ before_attempts

  dispatched_attempts :
      after.model_attempts
      ≡ db.model_attempts ++ new_attempt d.uses d.call (Round.dispatch_at d.round) ∷ []
  unfolding dispatch charge_agents audit_execution
  dispatched_attempts =
      ap Db.model_attempts d.result
      ∙ ap (λ x. x ++ new_attempt d.uses d.call (Round.dispatch_at d.round) ∷ []) uses_attempts

-- A committed admission either reports an admission and has added exactly one attempt, in flight,
-- numbered after all others, and of the call of its own caller, never of another candidate; or it
-- reports none, and attempts, reservations, charges and task uses are all as they were.
pub admit-attempts :
    (env : Env) (session : Session) (db : Db) {a : Admission}
    → admit env db session ≡ ok a
    → ((a.admitted ≡ true) × OneAttempt session db a.db)
      ⊎ ((a.admitted ≡ false) × NoAttempt db a.db)
admit-attempts env session db {a} h = elim (admit-Dispatched env session db h) [
  | inr (refused, w) ↦ inr (
    refused,
    record {
      attempts = ap Db.model_attempts w.2;
      systems = ap Db.systems w.2;
      goals = ap Db.goals w.2;
      usage = ap Db.agent_usage w.2;
      uses = ap Db.learning_uses w.2;
    },
  )
  | inl (admitted, d) ↦ inl (
    admitted,
    record {
      attempt = new_attempt d.uses d.call (Round.dispatch_at d.round);
      own = d.passed.own;
      flying = refl;
      fresh = ap (λ x. suc (max_attempt x)) (uses_attempts env session db a.db d);
      attempts = dispatched_attempts env session db a.db d;
    },
  )
]

-- A call that the switch of `admit` gives no reason to reject.
pub record Unrefused (r : System) (e : Execution) (now : ℤ) : Type 0 where
  pub live : (system_running r.system_row.state || system_paused r.system_row.state) ≡ true
  pub current : eq_int r.system_row.revision e.revision ≡ true
  pub unblocked : same r.blocked_reason [] ≡ true
  pub waits : now <ℤ e.wait_deadline
  pub lives : now <ℤ e.deadline
  pub system_budget : e.reservation ≤ℤ r.remaining_tokens
  pub goal_budget : e.reservation ≤ℤ e.goal_budget -ℤ e.goal_used -ℤ e.goal_reserved

-- The checks of an admitted call, on the database `before` that its turn of the loop reads it from:
-- turns for other candidates may have changed the states and reasons of calls, and the credit of
-- groups. `rows` are the groups when the credit of the attempt is taken from them.
pub record Checked (env : Env) (session : Session) (db after : Db) : Type 0 where
  pub before : Db
  pub only_waits : WaitsOnly db before
  pub call : Execution
  pub id : Text × Text
  pub read : read_execution before id.0 id.1 ≡ ok call
  pub own : same call.call_id session.call_id ≡ true
  pub found : System
  pub reads : read_system env.digests before local_administrator call.system_id ≡ ok found
  pub unrefused : Unrefused (inspect env found) call env.now
  pub task : check_task_admission env before call ≡ ok []
  pub room : All (HasRoom env.cfg db call env.now) (groups_of env call)
  pub cooled : All (λ group. cooldown_of db.quota_state group ≤ℤ env.now) (groups_of env call)
  pub rows : List QuotaRow
  pub credited : All (Credited env.cfg env.now rows) (groups_of env call)
  pub taken : after.quota_state ≡ take_credit (groups_of env call) rows
  pub reserves :
      (at : ℤ) × (id : ℕ) × (after.model_attempts
        ≡ db.model_attempts
          ++ record {
            attempt_id = id;
            call_id = call.call_id;
            system_id = call.system_id;
            dispatched_at = at;
            reservation = call.reservation;
            state = AttemptState.running;
            throttled = false;
            input_tokens = pos 0;
            output_tokens = pos 0;
          }
            ∷ [])
