-- ===== src/Teams/Terminate.antt =====
-- terminateTask (state/team_ops.go). Its recursion on the parent is a loop of single steps; new ids and
-- the encoded notice for a parent are arguments.
use microoperator.Base.{
  ℕ, zero, suc, ℤ, Bool, true, false, not, ◌&&◌, ◌||◌, [], ◌++◌, Text, text, same, if◌then◌else◌,
  Result, ok, err, ◌>>=◌, Option, none, some, any,
}
use microoperator.Store.{
  SystemState, GoalState, Control, TaskState, CallState, WakeState, MailboxState, is_stopped,
  task_terminal, call_pending, mail_pending, mail_leased, wake_active, SystemRow, GoalRow, AgentRow,
  TaskRow, CallRow, MailboxRow, ScheduleRow, SubscriptionRow, Db, update_where,
}
use microoperator.Access.Env.{denied_task, error_text}
use microoperator.Access.Read.{task_live, read_task}
use microoperator.Teams.Events.{emit_event}
use microoperator.Teams.Continue.{goal_is_continuous, continue_pending_input, task_state_text}

-- The states in which a task ends.
pub data Ending : Type 0 where
  completed failed canceled rejected : Ending

abbrev pub ended_task : Ending → TaskState
ended_task Ending.completed = TaskState.completed
ended_task Ending.failed = TaskState.failed
ended_task Ending.canceled = TaskState.canceled
ended_task Ending.rejected = TaskState.rejected

abbrev pub ended_call : Ending → CallState
ended_call Ending.completed = CallState.completed
ended_call Ending.failed = CallState.failed
ended_call Ending.canceled = CallState.canceled
ended_call Ending.rejected = CallState.rejected

abbrev pub ended_goal : Ending → GoalState
ended_goal Ending.completed = GoalState.completed
ended_goal Ending.failed = GoalState.failed
ended_goal Ending.canceled = GoalState.canceled
ended_goal Ending.rejected = GoalState.rejected

abbrev pub is_completed : Ending → Bool
is_completed Ending.completed = true
is_completed _ = false

abbrev pub is_canceled : Ending → Bool
is_canceled Ending.canceled = true
is_canceled _ = false

abbrev pub is_task : TaskRow → TaskRow → Bool
is_task t u = same u.system_id t.system_id && same u.task_id t.task_id

-- A completion after which a continuous goal goes on.
unfoldable pub goes_on : Bool → Ending → TaskRow → Bool
goes_on continuous ending t = continuous && (is_completed ending && same t.learning_id [])

-- The task's active schedules and subscriptions end with it.
unfoldable pub cancel_wakes : Db → TaskRow → Db
cancel_wakes db t = record db {
  schedules =
      update_where
        (λ (q : ScheduleRow).
          same q.system_id t.system_id && (same q.task_id t.task_id && wake_active q.state))
        (λ (q : ScheduleRow). record q {
          state = WakeState.canceled;
          reason = text "owning task is terminal";
        })
        db.schedules;
  subscriptions =
      update_where
        (λ (q : SubscriptionRow).
          same q.system_id t.system_id && (same q.task_id t.task_id && wake_active q.state))
        (λ (q : SubscriptionRow). record q {
          state = WakeState.canceled;
          reason = text "owning task is terminal";
        })
        db.subscriptions;
}

abbrev pub pending_call : TaskRow → CallRow → Bool
pending_call t c =
    same c.system_id t.system_id && (same c.task_id t.task_id && call_pending c.state)

-- The task, and its calls that were not sent.
unfoldable pub end_task : Db → TaskRow → Ending → Text → Text → Db
end_task db t ending response reason = record db {
  tasks =
      update_where (is_task t)
        (λ (u : TaskRow). record u {
          state = ended_task ending;
          response = response;
          reason = reason;
        })
        db.tasks;
  model_calls =
      update_where (pending_call t)
        (λ (c : CallRow). record c { state = ended_call ending; reason = reason }) db.model_calls;
}

abbrev pub pending_mail : TaskRow → MailboxRow → Bool
pending_mail t m =
    same m.system_id t.system_id && (same m.task_id t.task_id && mail_pending m.state)

unfoldable pub drop_mail : Db → TaskRow → Ending → Db
unfolding task_state_text
drop_mail db t ending = record db {
  mailboxes =
      update_where (pending_mail t)
        (λ (m : MailboxRow). record m {
          state = MailboxState.dead;
          reason = text "task is terminal: " ++ task_state_text (ended_task ending);
        })
        db.mailboxes;
}

abbrev pub is_goal : TaskRow → GoalRow → Bool
is_goal t g = same g.system_id t.system_id && same g.goal_id t.goal_id

-- A continuous goal runs while one of its tasks is live.
unfoldable pub settle_goal : Db → TaskRow → Db
unfolding task_live
settle_goal db t = record db {
  goals =
      update_where (λ (g : GoalRow). is_goal t g && not (is_stopped g.control))
        (λ (g : GoalRow). record g {
          state =
              if any
                (λ (u : TaskRow).
                  same u.system_id t.system_id && (same u.goal_id t.goal_id && task_live u.state))
                db.tasks
              then GoalState.running
              else GoalState.waiting;
        })
        db.goals;
}

-- What becomes of the system when its root task has ended.
unfoldable pub idle_system : Db → Text → SystemState → SystemState
idle_system db system state =
    let left =
      if any (λ (m : MailboxRow). same m.system_id system && mail_leased m.state) db.mailboxes
      then SystemState.stopping
      else SystemState.stopped in
    elim state [
      | SystemState.stopping ↦ left
      | SystemState.stopped ↦ left
      | _ ↦ SystemState.inactive
    ]

unfoldable pub end_goal : Db → TaskRow → Ending → Db
unfolding idle_system
end_goal db t ending = record db {
  goals =
      update_where (is_goal t) (λ (g : GoalRow). record g { state = ended_goal ending }) db.goals;
  systems =
      update_where (λ (s : SystemRow). same s.system_id t.system_id)
        (λ (s : SystemRow). record s { state = idle_system db t.system_id s.state }) db.systems;
  agents =
      update_where (λ (a : AgentRow). same a.system_id t.system_id && same a.goal_id t.goal_id)
        (λ (a : AgentRow). record a { state = Control.stopped }) db.agents;
}

unfoldable pub end_wakes : Bool → Db → TaskRow → Db
unfolding cancel_wakes
end_wakes true db t = db
end_wakes false db t = cancel_wakes db t

unfoldable pub move_input : Bool → Db → TaskRow → Text → Result Db
unfolding continue_pending_input
move_input true db t next_id = continue_pending_input db t next_id
move_input false db t next_id = ok db

unfoldable pub refresh_goal : Bool → Db → TaskRow → Db
unfolding settle_goal
refresh_goal true db t = settle_goal db t
refresh_goal false db t = db

-- The task itself with all that belongs to it, up to the notice for its parent.
unfoldable pub close_task : Db → TaskRow → Bool → Ending → Text → Text → Text → Result Db
unfolding end_wakes end_task goes_on move_input drop_mail refresh_goal
close_task db t continuous ending response reason next_id = do
  let ended = end_task (end_wakes (goes_on continuous ending t) db t) t ending response reason
  moved ←
      move_input (goes_on continuous ending t) ended
        (record t { state = ended_task ending; response = response; reason = reason }) next_id
  ok (refresh_goal continuous (drop_mail moved t ending) t)

-- Whether the parent has to be ended too, and for which reason.
abbrev pub Outcome : Type 0
Outcome = Db × Option (TaskRow × Text)

-- A refused notice ends the parent; any other error is the caller's.
unfoldable pub notified : Db → TaskRow → Result Db → Result Outcome
notified db parent (ok after) = ok (after, none)
notified db parent (err e) =
    if denied_task e
    then ok (db, some (parent, text "child result delivery rejected: " ++ error_text e))
    else err e

unfoldable pub tell_parent :
    (Text → Text → Text) → Db → TaskRow → Ending → Text → Text → ℤ → Text → Result Outcome
unfolding notified emit_event task_state_text
tell_parent notice db t ending source cause now id = do
  parent ← read_task db t.system_id t.parent_task
  if task_terminal parent.state || is_stopped parent.control
      then ok (db, none)
      else notified db parent (
          emit_event db parent (text "task.result") source cause
            (notice t.task_id (task_state_text (ended_task ending))) now id)

-- terminateTask, up to its call of itself.
unfoldable pub terminate_one :
    (Text → Text → Text)
    → Db
    → TaskRow
    → Ending
    → Text
    → Text
    → Text
    → Text
    → ℤ
    → Text
    → Text
    → Result Outcome
unfolding goal_is_continuous close_task tell_parent end_goal
terminate_one notice db t ending response reason source cause now next_id id =
    if task_terminal t.state then ok (db, none) else (do
      continuous ← goal_is_continuous db t
      after ← close_task db t continuous ending response reason next_id
      if not (same t.learning_id [])
          then ok (after, none)
          else if not (same t.parent_task [])
          then tell_parent notice after t ending source cause now id
          else ok (
            (if continuous && not (is_canceled ending) then after else end_goal after t ending),
            none,
          ))

-- `again` is the call for a parent.
unfoldable pub with_parent :
    (Db → TaskRow → Text → Option (Result Db)) → Result Outcome → Option (Result Db)
with_parent again (err e) = some (err e)
with_parent again (ok (db, none)) = some (ok db)
with_parent again (ok (db, some (parent, reason))) = again db parent reason

-- terminateTask: the parents in turn, on fuel; `ids` gives the new id of each level.
unfoldable pub terminate_task :
    (Text → Text → Text)
    → (ℕ → Text)
    → ℕ
    → Db
    → TaskRow
    → Ending
    → Text
    → Text
    → Text
    → Text
    → ℤ
    → Text
    → Option (Result Db)
unfolding terminate_one with_parent
terminate_task notice ids zero db t ending response reason source cause now next_id = none
terminate_task notice ids (suc fuel) db t ending response reason source cause now next_id =
    with_parent
      (λ after parent why.
        terminate_task notice ids fuel after parent Ending.rejected [] why (text "runtime") cause
          now next_id)
      (terminate_one notice db t ending response reason source cause now next_id (ids fuel))
