-- ===== src/Teams/Wakes.antt =====
-- wakeEligible and notifySubscriptions (state/wakeups.go). New ids and encoded payloads are arguments.
use microoperator.Base.{
  ℕ, ◌+◌, pos, ◌-ℤ◌, lt_int, le_int, eq_int, Bool, true, false, not, ◌&&◌, ◌||◌, List, [], ◌∷◌,
  Text, text, same, if◌then◌else◌, Result, ok, err, ◌>>=◌, find, keep, any, all,
}
use microoperator.Store.{
  SystemState, system_running, is_stopped, is_active, task_terminal, TaskState, WakeState,
  wake_active, SystemRow, GoalRow, AgentRow, TaskRow, SubscriptionRow, Db, row, update_where,
  order_by,
}
use microoperator.Access.Env.{Env, local_administrator, denied_task, error_text}
use microoperator.Access.Read.{read_task, read_agent, goal_of}
use microoperator.Access.Pins.{same_pin, authorize_pins}
use microoperator.Knowledge.Search.{text_lt}
use microoperator.Knowledge.Wakeups.{has_task_tool}
use microoperator.Teams.Continue.{emit_task_wakeup}

-- Whether a task may be woken, and why not where it never may.
abbrev pub Eligible : Type 0
Eligible = Bool × Text

abbrev pub completed_task : TaskState → Bool
completed_task TaskState.completed = true
completed_task _ = false

abbrev pub stopping_system : SystemState → Bool
stopping_system SystemState.stopped = true
stopping_system SystemState.stopping = true
stopping_system _ = false

unfoldable pub target_gone : SystemRow → AgentRow → GoalRow → TaskRow → Bool
target_gone s a g t =
    (task_terminal t.state && not (g.continuous && completed_task t.state))
    || (is_stopped t.control
        || (is_stopped g.control || (is_stopped a.state || stopping_system s.state)))

unfoldable pub all_active : SystemRow → AgentRow → GoalRow → TaskRow → Bool
all_active s a g t =
    system_running s.state && (is_active a.state && (is_active g.control && is_active t.control))

-- A denial is a reason; any other error is the caller's.
unfoldable pub if_granted : Result (Unit {0}) → Result Eligible → Result Eligible
if_granted (ok _) rest = rest
if_granted (err e) rest = if denied_task e then ok (false, error_text e) else err e

-- A task that has ended wakes with the pins that its agent still has.
unfoldable pub still_held : Db → TaskRow → Result Bool
still_held db t = if not (task_terminal t.state) then ok true else (do
  a ← read_agent db t.system_id t.agent_id (pos 0)
  ok (all (λ pin. any (same_pin pin) a.tools) t.tools))

unfoldable pub wake_eligible : Env → Db → TaskRow → Result Eligible
unfolding target_gone all_active if_granted still_held
wake_eligible env db t = do
  s ← row (find (λ (s : SystemRow). same s.system_id t.system_id) db.systems)
  a ← row (
      find (λ (a : AgentRow). same a.system_id t.system_id && same a.agent_id t.agent_id) db.agents)
  g ← goal_of db t.system_id t.goal_id
  if target_gone s a g t
      then ok (false, text "target stopped or terminal")
      else if not g.continuous && le_int g.deadline env.now
      then ok (false, text "goal expired")
      else if_granted (authorize_pins env db t.system_id t.tools) (do
        held ← still_held db t
        ok (
            if not held
            then (false, text "wake source grant narrowed by agent revision")
            else (all_active s a g t, [])))

-- The subscriptions of a kind, in the order of their ids.
unfoldable pub subscriptions_to : Db → Text → Text → List SubscriptionRow
unfolding text_lt
subscriptions_to db system kind =
    order_by (λ (a b : SubscriptionRow). not (text_lt b.subscription_id a.subscription_id))
      (keep
        (λ (q : SubscriptionRow).
          same q.system_id system && (same q.type kind && wake_active q.state))
        db.subscriptions)

-- What a subscription is not told: what its own agent did, other goals, and other memories.
unfoldable pub passes_by : TaskRow → Text → Text → Text → SubscriptionRow → TaskRow → Bool
passes_by source kind scope owner q t =
    (not (same source.task_id []) && same t.agent_id source.agent_id)
    || ((same kind (text "task.completed") && not (same t.goal_id source.goal_id))
        || (same kind (text "memory.changed")
            && (not (same q.scope scope)
                || ((same scope (text "task") && not (same owner t.task_id))
                    || (same scope (text "agent") && not (same owner t.agent_id))))))

unfoldable pub refused_because : Env → Text → SubscriptionRow → TaskRow → Text → Text
unfolding has_task_tool
refused_because env kind q t reason =
    if same kind (text "memory.changed") && not (has_task_tool t (text "runtime.memory.search"))
    then text "memory retrieval grant unavailable"
    else if not (same q.creator local_administrator)
        && not (has_task_tool t (text "runtime.events.subscribe"))
    then text "subscription grant unavailable"
    else if lt_int (pos 0) q.expires_at && le_int q.expires_at env.now
    then text "subscription expired"
    else reason

unfoldable pub update_subscription : Db → Text → Text → (SubscriptionRow → SubscriptionRow) → Db
update_subscription db system id f = record db {
  subscriptions =
      update_where (λ (q : SubscriptionRow). same q.system_id system && same q.subscription_id id) f
        db.subscriptions;
}

-- After the wakeup: it failed, or a trigger is used up.
unfoldable pub after_wakeup : Db → TaskRow → SubscriptionRow → Result (Db × TaskRow) → Result Db
unfolding update_subscription
after_wakeup db t q (err e) =
    if denied_task e
    then ok (
        update_subscription db t.system_id q.subscription_id
          (λ (r : SubscriptionRow). record r { state = WakeState.failed; reason = error_text e }))
    else err e
after_wakeup db t q (ok (after, next)) = ok (
    update_subscription after next.system_id q.subscription_id (λ (r : SubscriptionRow). record r {
      remaining = r.remaining -ℤ pos 1;
      task_id = next.task_id;
      state = if eq_int r.remaining (pos 1) then WakeState.completed else WakeState.active;
    }))

-- What a notification says of the source, with its encoded payload and the new ids.
pub record Notice : Type 0 where
  pub source : TaskRow
  pub kind : Text
  pub scope : Text
  pub owner : Text
  pub cause : Text
  pub payload : Text

unfoldable pub event_kind : Text → Text
event_kind kind =
    if same kind (text "task.completed") then text "task.notice" else text "memory.changed"

unfoldable pub wake_subscriber :
    Env → Db → Notice → SubscriptionRow → TaskRow → Text → Text → Text → Result Db
unfolding refused_because after_wakeup event_kind emit_task_wakeup
wake_subscriber env db n q t reason next_id id =
    if not (same (refused_because env n.kind q t reason) [])
    then ok (
        update_subscription db t.system_id q.subscription_id (λ (r : SubscriptionRow). record r {
          state = WakeState.canceled;
          reason = refused_because env n.kind q t reason;
        }))
    else after_wakeup db t q (
        emit_task_wakeup db t (event_kind n.kind) n.source.agent_id n.cause n.payload env.now
          next_id id)

-- One subscription.
unfoldable pub notify_one : Env → Db → Notice → SubscriptionRow → Text → Text → Result Db
unfolding passes_by wake_eligible wake_subscriber
notify_one env db n q next_id id = if same q.task_id n.source.task_id then ok db else (do
  t ← read_task db n.source.system_id q.task_id
  if passes_by n.source n.kind n.scope n.owner q t then ok db else (do
    eligible ← wake_eligible env db t
    wake_subscriber env db n q t eligible.1 next_id id))

-- notifySubscriptions: those that there were at its start, each with new ids.
unfoldable pub notify_each :
    Env → (ℕ → Text) → (ℕ → Text) → Db → Notice → ℕ → List SubscriptionRow → Result Db
unfolding notify_one
notify_each env next_ids ids db n k [] = ok db
notify_each env next_ids ids db n k (q ∷ qs) = do
  after ← notify_one env db n q (next_ids k) (ids k)
  notify_each env next_ids ids after n (k + 1) qs

unfoldable pub notify_subscriptions : Env → (ℕ → Text) → (ℕ → Text) → Db → Notice → Result Db
unfolding subscriptions_to notify_each
notify_subscriptions env next_ids ids db n =
    notify_each env next_ids ids db n 0 (subscriptions_to db n.source.system_id n.kind)
