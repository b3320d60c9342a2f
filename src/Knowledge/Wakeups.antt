-- ===== src/Knowledge/Wakeups.antt =====
-- NextCron, createSchedule, createSubscription and their cancellation (state/knowledge.go), and
-- HasTaskTool (state/wakeups.go). The package cron, the zones, time.Parse and new ids are arguments.
use microoperator.Base.{
  ℕ, ℤ, pos, lt_int, le_int, eq_int, Bool, false, not, ◌&&◌, ◌||◌, [], ◌∷◌, ◌++◌, Text, text, same,
  length, ltb, leb, ◌==◌, if◌then◌else◌, Result, ok, err, fail_if, ◌>>=◌, ◌>>◌, Error, Option, none,
  some, any, blank, fields,
}
use microoperator.Store.{
  ToolPin, WakeState, TaskRow, GoalRow, ScheduleRow, SubscriptionRow, Db, count_where, update_where,
}
use microoperator.Access.Read.{goal_of}
use microoperator.Knowledge.Memory.{memory_owner, invalid}

-- A time.Time: milliseconds since the epoch (UnixMilli), and the nanoseconds within one.
pub record Instant : Type 0 where
  pub milli : ℤ
  pub nanos : ℕ

-- Time.After
abbrev pub is_after : Instant → Instant → Bool
is_after a b = lt_int b.milli a.milli || (eq_int a.milli b.milli && ltb b.nanos a.nanos)

-- What is not in the repository: time.LoadLocation, the parser of cron
-- expressions, whose schedule has no next occurrence when time.IsZero holds, and time.Parse.
pub record Clock : Type 0 where
  pub zone : Text → Bool
  pub cron : Text → Option (Instant → Option Instant)
  pub parse : Text → Option Instant

pub record ScheduleCommand : Type 0 where
  pub agent_id : Text
  pub at : Text
  pub cron : Text
  pub timezone : Text
  pub content : Text
  pub budget : ℤ

pub record SubscriptionCommand : Type 0 where
  pub agent_id : Text
  pub type : Text
  pub scope : Text
  pub budget : ℤ

unfoldable pub has_task_tool : TaskRow → Text → Bool
has_task_tool t name = any (λ (p : ToolPin). same p.name name) t.tools

abbrev pub zone_or_utc : Text → Text
zone_or_utc zone = if same zone [] then text "UTC" else zone

unfoldable pub occurrence : Option Instant → Result Instant
occurrence none = err (invalid "cron" "no occurrence within the parser's five-year horizon")
occurrence (some next) = ok next

unfoldable pub next_of : Option (Instant → Option Instant) → Instant → Result Instant
unfolding occurrence
next_of none after = err (invalid "cron" "invalid expression")
next_of (some schedule) after = occurrence (schedule after)

unfoldable pub next_cron : Clock → Text → Text → Instant → Result Instant
unfolding next_of
next_cron clock expression zone after = do
  fail_if
      (ltb 256 (length expression)
        || (not (fields expression == 5) || (same zone (text "Local") || ltb 128 (length zone))))
      (invalid "cron" "requires five fields and an explicit IANA zone (default UTC)")
  fail_if (not (clock.zone (zone_or_utc zone))) (invalid "timezone" "unknown IANA zone")
  next_of (clock.cron (text "CRON_TZ=" ++ zone_or_utc zone ++ text " " ++ expression)) after

unfoldable pub parsed : Option Instant → Result Instant
parsed none = err (invalid "at" "requires an RFC3339 timestamp")
parsed (some next) = ok next

unfoldable pub single : Clock → ScheduleCommand → Result Instant
unfolding parsed
single clock c = do
  next ← parsed (clock.parse c.at)
  fail_if (not (eq_int c.budget (pos 1)))
      (invalid "trigger_budget" "one-shot schedules require one trigger")
  ok next

-- Exactly one of `at` and `cron`, content of at most 2048 bytes, and 1 to 8 triggers.
unfoldable pub schedule_refused : ScheduleCommand → Bool
schedule_refused c =
    (if same c.at [] then same c.cron [] else not (same c.cron []))
    || (blank c.content
        || (ltb 2048 (length c.content) || (lt_int c.budget (pos 1) || lt_int (pos 8) c.budget)))

unfoldable pub first_due : Clock → ScheduleCommand → Instant → Result Instant
unfolding next_cron single
first_due clock c now =
    if not (same c.cron [])
    then next_cron clock c.cron (zone_or_utc c.timezone) now
    else single clock c

abbrev pub of_system : Text → ScheduleRow → Bool
of_system system q = same q.system_id system

abbrev pub schedule_row : TaskRow → ScheduleCommand → Text → GoalRow → Instant → Text → ScheduleRow
schedule_row t c creator g next id = record {
  system_id = t.system_id;
  schedule_id = id;
  task_id = t.task_id;
  creator = creator;
  expression = c.cron;
  timezone = zone_or_utc c.timezone;
  content = c.content;
  next_due = next.milli;
  expires_at = g.deadline;
  remaining = c.budget;
  state = WakeState.active;
  reason = [];
}

-- createSchedule, with the new id.
unfoldable pub create_schedule :
    Clock → Db → TaskRow → ScheduleCommand → Text → Instant → Text → Result Db
unfolding schedule_refused first_due
create_schedule clock db t c creator now id = do
  fail_if (schedule_refused c)
      (invalid "schedule" "requires exactly one at/cron, bounded content and 1-8 triggers")
  next ← first_due clock c now
  g ← goal_of db t.system_id t.goal_id
  fail_if (not (is_after next now) || (lt_int (pos 0) g.deadline && le_int g.deadline next.milli))
      (invalid "schedule" "occurrence must be future and within the owning goal's lifetime")
  fail_if (leb 128 (count_where (of_system t.system_id) db.schedules))
      (invalid "schedule" "system schedule capacity exhausted")
  ok (record db { schedules = db.schedules ++ schedule_row t c creator g next id ∷ [] })

abbrev pub subscription_row :
    TaskRow → SubscriptionCommand → Text → GoalRow → Text → SubscriptionRow
subscription_row t c creator g id = record {
  system_id = t.system_id;
  subscription_id = id;
  task_id = t.task_id;
  creator = creator;
  type = c.type;
  scope = c.scope;
  expires_at = g.deadline;
  remaining = c.budget;
  state = WakeState.active;
  reason = [];
}

-- What a subscription may be to: memory that the task may read, or the tasks of its goal.
unfoldable pub check_scope : Db → TaskRow → SubscriptionCommand → Result (Unit {0})
unfolding has_task_tool
check_scope db t c =
    if same c.type (text "memory.changed")
    then (do
      owner ← memory_owner db t c.scope [] false
      fail_if (not (has_task_tool t (text "runtime.memory.search")))
          (invalid "subscription" "memory retrieval grant required"))
    else fail_if (not (same c.scope []))
        (invalid "scope" "task completion subscriptions are same-goal only")

-- createSubscription, with the new id.
unfoldable pub create_subscription :
    Db → TaskRow → SubscriptionCommand → Text → ℤ → Text → Result Db
unfolding check_scope
create_subscription db t c creator now id = do
  fail_if
      ((not (same c.type (text "memory.changed")) && not (same c.type (text "task.completed")))
        || (lt_int c.budget (pos 1) || lt_int (pos 8) c.budget))
      (invalid "subscription" "unsupported type or trigger budget")
  check_scope db t c
  fail_if
      (leb 128
        (count_where (λ (q : SubscriptionRow). same q.system_id t.system_id) db.subscriptions))
      (invalid "subscription" "system subscription capacity exhausted")
  g ← goal_of db t.system_id t.goal_id
  fail_if (lt_int (pos 0) g.deadline && le_int g.deadline now)
      (invalid "subscription" "goal lifetime expired")
  ok (record db { subscriptions = db.subscriptions ++ subscription_row t c creator g id ∷ [] })

abbrev pub own_schedule : TaskRow → Text → ScheduleRow → Bool
own_schedule t id q =
    same q.system_id t.system_id && (same q.task_id t.task_id && same q.schedule_id id)

abbrev pub canceled_row : ScheduleRow → ScheduleRow
canceled_row q = record q { state = WakeState.canceled; reason = text "canceled by owning task" }

-- runtime.schedule.cancel
unfoldable pub cancel_schedule : Db → TaskRow → Text → Result Db
cancel_schedule db t id = do
  fail_if (not (count_where (own_schedule t id) db.schedules == 1)) Error.system_not_found
  ok (record db { schedules = update_where (own_schedule t id) canceled_row db.schedules })

abbrev pub own_subscription : TaskRow → Text → SubscriptionRow → Bool
own_subscription t id q =
    same q.system_id t.system_id && (same q.task_id t.task_id && same q.subscription_id id)

-- runtime.events.unsubscribe
unfoldable pub unsubscribe : Db → TaskRow → Text → Result Db
unsubscribe db t id = do
  fail_if (not (count_where (own_subscription t id) db.subscriptions == 1)) Error.system_not_found
  ok (record db {
    subscriptions =
        update_where (own_subscription t id)
          (λ (q : SubscriptionRow). record q {
            state = WakeState.canceled;
            reason = text "canceled by owning task";
          })
          db.subscriptions;
  })
