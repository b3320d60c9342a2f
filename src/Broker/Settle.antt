-- ===== src/Broker/Settle.antt =====
-- `settle` (state/broker.go): what a finished attempt used, and whether its call is tried again.
use microoperator.Base.{
  ℤ, pos, ◌+ℤ◌, ◌-ℤ◌, ◌*ℤ◌, lt_int, le_int, min_int, max_int, Bool, true, not, ◌&&◌, ◌||◌, List, [],
  ◌∷◌, ◌++◌, Text, text, same, ltb, if◌then◌else◌, Result, ok, fail_if, ◌>>=◌, ◌>>◌, Error, Option,
  none, some, any, find,
}
use microoperator.Config.{ModelConfig, Configuration, lookup_or, zero_model, zero_quota}
use microoperator.Store.{
  GoalState, CallState, AttemptState, system_running, call_running, attempt_running, ModelToolCall,
  SystemRow, GoalRow, CallRow, AttemptRow, QuotaRow, Db, update_where, row,
}
use microoperator.Access.Env.{Env}
use microoperator.Access.Read.{Execution, audit_execution}
use microoperator.Broker.Budget.{charge_agents}
use microoperator.Broker.Queue.{
  Session, authorize_call, update_call, is_goal, is_system, update_goal_state,
}
use microoperator.Broker.Quota.{is_group, queued_calls}

-- state/requests.go; `cooldown` is `none` for the zero time.
pub record ProviderResult : Type 0 where
  pub text : Text
  pub input : ℤ
  pub output : ℤ
  pub known : Bool
  pub reason : Text
  pub retry : Bool
  pub cooldown : Option ℤ
  pub retry_delay : ℤ
  pub actions : List ModelToolCall

-- The attempt in flight of a call.
abbrev pub running_of : Text → AttemptRow → Bool
running_of call a = same a.call_id call && attempt_running a.state

unfoldable pub settle_attempt : ProviderResult → AttemptRow → AttemptRow
settle_attempt p a = record a {
  state = AttemptState.known;
  input_tokens = p.input;
  output_tokens = p.output;
  reservation = max_int a.reservation (p.input +ℤ p.output);
  throttled = p.retry;
}

unfoldable pub negative_system : SystemRow → Bool
negative_system s = lt_int s.reserved_tokens (pos 0) || lt_int s.used_tokens (pos 0)

unfoldable pub negative_goal : GoalRow → Bool
negative_goal g = lt_int g.reserved_tokens (pos 0) || lt_int g.used_tokens (pos 0)

abbrev pub release_system : Execution → ℤ → SystemRow → SystemRow
release_system e actual s = record s {
  reserved_tokens = s.reserved_tokens -ℤ e.reservation;
  used_tokens = s.used_tokens +ℤ actual;
}

abbrev pub release_goal : Execution → ℤ → GoalRow → GoalRow
release_goal e actual g = record g {
  reserved_tokens = g.reserved_tokens -ℤ e.reservation;
  used_tokens = g.used_tokens +ℤ actual;
}

-- The branch of a known usage: the reservations become what was used.
unfoldable pub released : Db → Execution → ProviderResult → Db
unfolding settle_attempt
released db e p =
    let actual = p.input +ℤ p.output in
    record (charge_agents db e (pos 0 -ℤ e.reservation) actual) {
      systems = update_where (is_system e) (release_system e actual) db.systems;
      goals = update_where (is_goal e) (release_goal e actual) db.goals;
      model_attempts = update_where (running_of e.call_id) (settle_attempt p) db.model_attempts;
    }

-- The columns of systems and goals may not be negative.
unfoldable pub settle_known : Db → Execution → ProviderResult → Result Db
unfolding negative_system negative_goal
settle_known db e p = do
  let after = released db e p
  fail_if (any negative_system after.systems)
      (Error.fault (text "CHECK constraint failed: systems"))
  fail_if (any negative_goal after.goals) (Error.fault (text "CHECK constraint failed: goals"))
  ok after

unfoldable pub settle_unknown : Db → Execution → Db
settle_unknown db e = record db {
  model_attempts =
      update_where (running_of e.call_id)
        (λ (a : AttemptRow). record a { state = AttemptState.unknown }) db.model_attempts;
}

-- What the loop over the quota groups of a throttled call leaves.
pub record Throttle : Type 0 where
  pub db : Db
  pub wait : ℤ
  pub queue_available : Bool

abbrev pub throttle_group : Configuration → ℤ → Text → Throttle → Throttle
throttle_group cfg until group t =
    let quota = lookup_or zero_quota group cfg.quota_groups in
    record {
      db = record (t.db) {
        quota_state =
            update_where (is_group group)
              (λ (q : QuotaRow). record q { cooldown_until = max_int q.cooldown_until until })
              t.db.quota_state;
      };
      wait = min_int t.wait quota.max_wait_seconds;
      queue_available =
          t.queue_available && not (le_int quota.queue_capacity (pos (queued_calls t.db group)));
    }

unfoldable pub throttle_groups : Configuration → ℤ → List Text → Throttle → Throttle
throttle_groups cfg until [] t = t
throttle_groups cfg until (group ∷ groups) t =
    throttle_groups cfg until groups (throttle_group cfg until group t)

-- What the last update of `settle` writes besides the result: the state, and a changed reason.
pub record Settled : Type 0 where
  pub db : Db
  pub state : CallState
  pub reason : Text

abbrev no_capacity : Text
no_capacity = text "provider throttled request; retry queue capacity exhausted"

abbrev pub requeued_call : ℤ → Execution → Throttle → CallRow → CallRow
requeued_call now e t c = record c {
  wait_deadline = min_int e.deadline (now +ℤ t.wait *ℤ pos 1000);
  queued_at = now;
}

-- The test of `settle` for another attempt.
unfoldable pub tries_again : ℤ → Execution → Bool → Throttle → Bool
tries_again now e running t =
    ltb e.attempts 3 && (lt_int now e.deadline && (running && t.queue_available))

-- The end of the branch of a retry.
unfoldable pub requeue : ℤ → Execution → CallState → Text → Bool → Throttle → Settled
requeue now e state reason running t =
    let why = if t.queue_available then reason else no_capacity in
    if tries_again now e running t
    then record {
      db =
          update_goal_state e GoalState.waiting
            (update_call e.call_id (requeued_call now e t) t.db);
      state = CallState.queued;
      reason = why;
    }
    else record { db = t.db; state = state; reason = why }

abbrev pub cooldown_end : ProviderResult → ℤ → ℤ
cooldown_end p now = elim p.cooldown [ none ↦ now +ℤ p.retry_delay | some t ↦ t ]

-- `if p.Retry`
unfoldable pub retry_call : Env → Execution → ProviderResult → CallState → Db → Result Settled
retry_call env e p state db =
    let groups = ModelConfig.quota_groups (lookup_or zero_model e.model env.cfg.models) in
    let t =
      throttle_groups env.cfg (cooldown_end p env.now) groups
        (record { db = db; wait = pos 3600; queue_available = true }) in
    row (find (is_system e) t.db.systems) >>= λ s.
    ok (requeue env.now e state p.reason (system_running s.state) t)

unfoldable pub settle_retry : Env → Execution → ProviderResult → CallState → Db → Result Settled
settle_retry env e p state db =
    if p.retry
    then retry_call env e p state db
    else ok (record { db = db; state = state; reason = p.reason })

abbrev state_text : CallState → Text
state_text CallState.awaiting_worker = text "awaiting_worker"
state_text CallState.queued = text "queued"
state_text CallState.running = text "running"
state_text CallState.completed = text "completed"
state_text CallState.failed = text "failed"
state_text CallState.canceled = text "canceled"
state_text CallState.rejected = text "rejected"
state_text CallState.unknown = text "unknown"

unfoldable pub settle_state : ProviderResult → CallState
settle_state p =
    if p.known
    then (if same p.reason [] then CallState.completed else CallState.failed)
    else CallState.unknown

abbrev pub finished_call : ProviderResult → Settled → CallRow → CallRow
finished_call p s c = record c {
  state = s.state;
  reason = s.reason;
  response = p.text;
  input_tokens = c.input_tokens +ℤ p.input;
  output_tokens = c.output_tokens +ℤ p.output;
  usage_known = p.known;
  actions = p.actions;
}

unfoldable pub finish_call : Execution → ProviderResult → Settled → Db
finish_call e p s =
    audit_execution (update_call e.call_id (finished_call p s) s.db) e.system_id e.activation_id
      (text "model." ++ state_text s.state) e.revision

unfoldable pub settle_usage : Db → Execution → ProviderResult → Result Db
settle_usage db e p = if p.known then settle_known db e p else ok (settle_unknown db e)

-- The rest of `settle`, for a running call.
unfoldable pub settle_running : Env → Db → Execution → ProviderResult → Result Db
settle_running env db e p = do
  used ← settle_usage db e p
  s ← settle_retry env e p (settle_state p) used
  ok (finish_call e p s)

unfoldable pub settle : Env → Db → Session → ProviderResult → Result Db
settle env db session p = authorize_call db session >>= λ e.
    if call_running e.state then settle_running env db e p else ok db
