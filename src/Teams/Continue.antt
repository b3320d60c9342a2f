-- ===== src/Teams/Continue.antt =====
-- goalIsContinuous, wakeContinuousTask, continuePendingInput and emitTaskWakeup (state/continuous.go).
-- New ids and encoded payloads are arguments.
use microoperator.Base.{
  ℕ, ◌+◌, ℤ, pos, Bool, not, ◌&&◌, ◌||◌, List, [], ◌∷◌, ◌++◌, reverse, Text, text, same, length,
  ltb, leb, ◌==◌, if◌then◌else◌, Result, ok, fail_if, ◌>>=◌, ◌>>◌, Error, field, none, some, find,
  any, keep,
}
use microoperator.Store.{
  TaskState, Control, is_stopped, task_terminal, system_running, system_paused, ChatMessage,
  SystemRow, GoalRow, TaskRow, EventRow, MailboxRow, mail_pending, Db, count_where, update_where,
  row,
}
use microoperator.Access.Read.{Agent, task_live, read_agent, goal_of}
use microoperator.Access.Pins.{same_pin}
use microoperator.Teams.Events.{emit_event}

unfoldable pub goal_is_continuous : Db → TaskRow → Result Bool
goal_is_continuous db t = do g ← goal_of db t.system_id t.goal_id; ok g.continuous

-- Messages that are carried over: what was said, without tools and without the prompt.
unfoldable pub carried : Text → ChatMessage → Bool
carried prompt m =
    (same m.role (text "user") || same m.role (text "assistant"))
    && (length m.tool_calls == 0 && not (same m.content prompt))

-- From the last message back: at most 8 of them, of 8192 bytes in all.
unfoldable pub recent_messages : Text → ℕ → ℕ → List ChatMessage → List ChatMessage
unfolding carried
recent_messages prompt count size [] = []
recent_messages prompt count size (m ∷ earlier) =
    let skipped = recent_messages prompt count size earlier in
    let taken = recent_messages prompt (count + 1) (size + length m.content) earlier in
    if not (carried prompt m)
    then skipped
    else if count == 8 || ltb 8192 (size + length m.content)
    then []
    else m ∷ taken

unfoldable pub history : TaskRow → List ChatMessage
history t =
    if same t.response []
    then t.conversation
    else t.conversation
      ++ record {
        role = text "assistant";
        content = t.response;
        tool_calls = [];
        tool_call_id = [];
      }
        ∷ []

unfoldable pub task_state_text : TaskState → Text
task_state_text TaskState.queued = text "queued"
task_state_text TaskState.running = text "running"
task_state_text TaskState.waiting = text "waiting"
task_state_text TaskState.completed = text "completed"
task_state_text TaskState.failed = text "failed"
task_state_text TaskState.canceled = text "canceled"
task_state_text TaskState.rejected = text "rejected"

user_message : Text → ChatMessage
user_message content = record {
  role = text "user";
  content = content;
  tool_calls = [];
  tool_call_id = [];
}

unfoldable pub continued : Text → TaskRow → List ChatMessage
unfolding recent_messages history task_state_text user_message
continued prompt t =
    user_message prompt
    ∷ user_message (
        text
          "Continuing the same goal. Only bounded recent conversation follows; use scoped memory/artifacts for older context. Previous task outcome: "
        ++ task_state_text t.state
        ++ text ". "
        ++ t.reason
        ++ text " Do not replay actions with unknown outcomes.")
    ∷ reverse (recent_messages prompt 0 0 (reverse (history t)))

unfoldable pub next_row : TaskRow → Agent → Text → Text → TaskRow
unfolding continued
next_row previous agent prompt id = record {
  system_id = previous.system_id;
  task_id = id;
  goal_id = previous.goal_id;
  agent_id = agent.agent_id;
  agent_revision = agent.revision;
  parent_task = previous.parent_task;
  state = TaskState.queued;
  control = Control.active;
  tools = keep (λ pin. any (same_pin pin) previous.tools) agent.tools;
  conversation = continued prompt previous;
  turns = 0;
  call_id = [];
  waiting_tool = [];
  response = [];
  reason = [];
  learning_id = [];
  learning_role = [];
  deadline = pos 0;
}

abbrev pub live_of_agent : TaskRow → TaskRow → Bool
live_of_agent previous u =
    same u.system_id previous.system_id
    && (same u.agent_id previous.agent_id && (same u.goal_id previous.goal_id && task_live u.state))

abbrev pub live_of_goal : TaskRow → TaskRow → Bool
live_of_goal previous u =
    same u.system_id previous.system_id && (same u.goal_id previous.goal_id && task_live u.state)

-- A goal or a system that gives no more work.
unfoldable pub not_continued : TaskRow → GoalRow → SystemRow → Bool
not_continued previous g s =
    not g.continuous
    || (is_stopped g.control
        || (not (system_running s.state || system_paused s.state)
            || (is_stopped previous.control || not (same previous.learning_id []))))

-- INSERT INTO tasks; an id that is there violates the primary key.
unfoldable pub insert_task : Db → TaskRow → Result (Db × TaskRow)
insert_task db t = do
  fail_if (any (λ (u : TaskRow). same u.system_id t.system_id && same u.task_id t.task_id) db.tasks)
      (Error.fault (text "UNIQUE constraint failed: tasks"))
  ok (record db { tasks = db.tasks ++ t ∷ [] }, t)

-- The task of the agent that is live already, or a new one.
unfoldable pub next_task : Db → TaskRow → Agent → Text → Text → Result (Db × TaskRow)
unfolding insert_task task_live next_row
next_task db previous agent prompt id = elim (find (live_of_agent previous) db.tasks) [
  | some u ↦ ok (db, u)
  | none ↦ do
    fail_if (leb 64 (count_where (live_of_goal previous) db.tasks))
        (field (text "tasks") (text "continuous goal active-task capacity exhausted"))
    insert_task db (next_row previous agent prompt id)
]

-- wakeContinuousTask
unfoldable pub wake_continuous_task : Db → TaskRow → Text → Result (Db × TaskRow)
unfolding not_continued next_task
wake_continuous_task db previous id =
    if not (task_terminal previous.state) then ok (db, previous) else (do
      g ← goal_of db previous.system_id previous.goal_id
      s ← row (find (λ (s : SystemRow). same s.system_id previous.system_id) db.systems)
      fail_if (not_continued previous g s) Error.execution_conflict
      agent ← read_agent db previous.system_id previous.agent_id (pos 0)
      fail_if (is_stopped agent.state) Error.execution_conflict
      next_task db previous agent g.prompt id)

-- The kinds of event that ask for more work.
unfoldable pub asks_work : Text → Bool
asks_work kind =
    same kind (text "user.input")
    || (same kind (text "schedule.fired")
        || (same kind (text "memory.changed") || same kind (text "task.notice")))

-- A pending delivery to the task of such an event.
unfoldable pub pending_input : Db → TaskRow → MailboxRow → Bool
unfolding asks_work
pending_input db t m =
    same m.system_id t.system_id
    && (same m.task_id t.task_id
        && (mail_pending m.state
            && any
                (λ (v : EventRow).
                  same v.system_id m.system_id && (same v.event_id m.event_id && asks_work v.type))
                db.events))

-- continuePendingInput
unfoldable pub continue_pending_input : Db → TaskRow → Text → Result Db
unfolding wake_continuous_task pending_input
continue_pending_input db t id = if not (any (pending_input db t) db.mailboxes) then ok db else (do
  woken ← wake_continuous_task db t id
  ok (record woken.0 {
    mailboxes =
        update_where (pending_input db t)
          (λ (m : MailboxRow). record m { task_id = woken.1.task_id }) (woken.0).mailboxes;
  }))

-- emitTaskWakeup: both steps, or none.
unfoldable pub emit_task_wakeup :
    Db → TaskRow → Text → Text → Text → Text → ℤ → Text → Text → Result (Db × TaskRow)
unfolding wake_continuous_task emit_event
emit_task_wakeup db t kind source cause payload now next_id id = do
  woken ← wake_continuous_task db t next_id
  after ← emit_event woken.0 woken.1 kind source cause payload now id
  ok (after, woken.1)
