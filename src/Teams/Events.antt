-- ===== src/Teams/Events.antt =====
-- emitEvent (state/team_store.go). The payload is encoded by the caller; the new id is an argument.
use microoperator.Base.{
  ℕ, ◌+◌, ◌*◌, ℤ, pos, ◌-ℤ◌, lt_int, le_int, Bool, false, not, ◌&&◌, ◌||◌, [], ◌∷◌, ◌++◌, Text,
  text, same, length, ltb, leb, if◌then◌else◌, Result, ok, fail_if, ◌>>=◌, ◌>>◌, Error, field, find,
  any, has_prefix,
}
use microoperator.Store.{
  TaskRow, GoalRow, EventRow, MailboxRow, MailboxState, mail_open, Db, count_where, row,
}
use microoperator.Access.Read.{task_live, goal_of}

-- How deep an event is: one more than the event that caused it.
unfoldable pub depth_after : Db → Text → Text → Result ℕ
depth_after db system causation =
    if same causation []
    then ok 0
    else row
        (find (λ (v : EventRow). same v.system_id system && same v.event_id causation) db.events)
      >>= λ v. ok (v.depth + 1)

-- The events of a system that count at `now`: of a continuous goal, those of the last day.
abbrev pub counted : TaskRow → GoalRow → ℤ → EventRow → Bool
counted t g now v =
    same v.system_id t.system_id
    && (not g.continuous || lt_int (now -ℤ pos (24 * 3600000)) v.created_at)

abbrev pub goal_event : TaskRow → GoalRow → EventRow → Bool
goal_event t g v = same v.goal_id t.goal_id && (not g.continuous || same v.task_id t.task_id)

-- An open delivery to the recipient.
abbrev pub waiting_mail : Text → Text → MailboxRow → Bool
waiting_mail system recipient m =
    same m.system_id system && (same m.recipient recipient && mail_open m.state)

abbrev pub live_task : Text → TaskRow → Bool
live_task system u = same u.system_id system && task_live u.state

abbrev pub recent_source : Text → Text → ℤ → EventRow → Bool
recent_source system source now v =
    same v.system_id system && (same v.source source && lt_int (now -ℤ pos 60000) v.created_at)

-- The events that count, with one for each live task: of a system, of a goal, and those that wait for
-- a recipient.
abbrev pub system_load : Db → TaskRow → GoalRow → ℤ → ℕ
system_load db t g now =
    count_where (counted t g now) db.events + count_where (live_task t.system_id) db.tasks

abbrev pub goal_load : Db → TaskRow → GoalRow → ℤ → ℕ
goal_load db t g now =
    count_where (λ (v : EventRow). counted t g now v && goal_event t g v) db.events
    + count_where (λ (u : TaskRow). live_task t.system_id u && same u.goal_id t.goal_id) db.tasks

abbrev pub recipient_load : Db → TaskRow → ℕ
recipient_load db t =
    count_where (waiting_mail t.system_id t.agent_id) db.mailboxes
    + count_where (λ (u : TaskRow). live_task t.system_id u && same u.parent_task t.task_id)
        db.tasks

abbrev pub sent_lately : Db → Text → Text → ℤ → ℕ
sent_lately db system source now = count_where (recent_source system source now) db.events

unfoldable pub over_budget : Db → TaskRow → GoalRow → Text → ℕ → ℤ → Bool
unfolding task_live
over_budget db t g source depth now =
    leb 4096 (system_load db t g now)
    || (leb 256 (goal_load db t g now)
        || (leb 64 (recipient_load db t)
            || (ltb 16 depth
                || (has_prefix source (text "agent_")
                    && leb 32 (sent_lately db t.system_id source now)))))

abbrev pub event_row : TaskRow → GoalRow → Text → Text → Text → Text → Text → ℕ → ℤ → EventRow
event_row t g id kind source causation payload depth now = record {
  event_id = id;
  system_id = t.system_id;
  type = kind;
  source = source;
  recipient = t.agent_id;
  goal_id = t.goal_id;
  task_id = t.task_id;
  causation_id = causation;
  created_at = now;
  expires_at = g.deadline;
  depth = depth;
  payload = payload;
}

abbrev pub mail_of : TaskRow → Text → MailboxRow
mail_of t id = record {
  system_id = t.system_id;
  event_id = id;
  recipient = t.agent_id;
  task_id = t.task_id;
  state = MailboxState.pending;
  reason = [];
  applied = false;
}

-- Both inserts; an id that is there violates its UNIQUE constraint.
unfoldable pub insert_event : Db → TaskRow → EventRow → Result Db
insert_event db t v = do
  fail_if (any (λ (w : EventRow). same w.event_id v.event_id) db.events)
      (Error.fault (text "UNIQUE constraint failed: events.event_id"))
  ok (record db {
    events = db.events ++ v ∷ [];
    mailboxes = db.mailboxes ++ mail_of t v.event_id ∷ [];
  })

-- emitEvent, with the new id.
unfoldable pub emit_event : Db → TaskRow → Text → Text → Text → Text → ℤ → Text → Result Db
unfolding depth_after over_budget insert_event
emit_event db t kind source causation payload now id = do
  fail_if (ltb 8192 (length payload)) (field (text "event") (text "payload exceeds 8 KiB"))
  g ← goal_of db t.system_id t.goal_id
  depth ← depth_after db t.system_id causation
  fail_if (over_budget db t g source depth now)
      (field (text "events") (text "event budget, queue, or causation limit exhausted"))
  fail_if (not g.continuous && (le_int g.deadline now && not (same kind (text "task.result"))))
      (field (text "event") (text "goal lifetime has expired"))
  insert_event db t (event_row t g id kind source causation payload depth now)
