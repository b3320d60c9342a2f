-- ===== src/Examples/Teams.antt =====
-- The witnesses of events, of the end of a task and of schedules: one task without a parent.
use microoperator.Base.{
  ℕ, ◌+◌, ◌<◌, pos, false, [], ◌∷◌, Text, text, same, has_prefix, ok, Result, some, ◌≡◌, refl,
  arith,
}
use microoperator.Store.{task_terminal, GoalRow, Db}
use microoperator.Access.Read.{read_task, goal_of, task_live}
use microoperator.Teams.Events.{emit_event, event_row, mail_of}
use microoperator.Teams.Causes.{CausesKnown, emit_event-CausesKnown}
use microoperator.Teams.Budget.{InBudget, emit_event-InBudget}
use microoperator.Teams.Terminate.{
  Ending, cancel_wakes, end_task, drop_mail, end_goal, terminate_task,
}
use microoperator.Teams.Live.{live_tasks}
use microoperator.Teams.Ends.{terminate_task-ends}
use microoperator.Teams.Closed.{Closed}
use microoperator.Teams.Ended.{terminate_task-Closed}
use microoperator.Knowledge.Wakeups.{canceled_row, cancel_schedule}
use microoperator.Knowledge.Capacity.{SchedulesBounded, ScheduleStep, step-SchedulesBounded}
use microoperator.Store.{WakeState, ScheduleRow}
use microoperator.Examples.{sample_db, sample_goal}
use microoperator.Examples.Memories.{reader}

abbrev team_db : Db
team_db = record sample_db { tasks = reader ∷ [] }

abbrev notified_db : Db
notified_db = record team_db {
  events =
      event_row reader sample_goal (text "e") (text "task.result") (text "runtime") [] (text "x") 0
        (pos 1000)
      ∷ [];
  mailboxes = mail_of reader (text "e") ∷ [];
}

emitted :
    emit_event team_db reader
      (text "task.result")
      (text "runtime")
      []
      (text "x")
      (pos 1000)
      (text "e")
    ≡ ok notified_db
unfolding emit_event goal_of same text has_prefix task_live
emitted = refl

emit_event-CausesKnown_example : CausesKnown notified_db
emit_event-CausesKnown_example =
    emit_event-CausesKnown team_db reader (text "task.result") (text "runtime") [] (text "x")
      (pos 1000) (text "e") notified_db tt emitted

emit_event-InBudget_example :
    (g : GoalRow) × (goal_of team_db (text "a") (text "o") ≡ ok g)
    × InBudget notified_db reader g (text "runtime") (pos 1000)
emit_event-InBudget_example =
    emit_event-InBudget team_db reader (text "task.result") (text "runtime") [] (text "x")
      (pos 1000) (text "e") notified_db emitted

abbrev no_notice : Text → Text → Text
no_notice id state = []

abbrev level_ids : ℕ → Text
level_ids n = n ∷ []

one_live : live_tasks team_db + 2 < 4
unfolding task_terminal
one_live = omega arith

terminate_task-ends_example :
    (r : Result Db) × (terminate_task no_notice level_ids 4 team_db reader Ending.failed []
        (text "w")
        (text "runtime")
        []
        (pos 1000)
        (text "n")
      ≡ some r)
terminate_task-ends_example =
    terminate_task-ends no_notice level_ids 4 team_db reader Ending.failed [] (text "w")
      (text "runtime") [] (pos 1000) (text "n") one_live

abbrev ended_db : Db
ended_db =
    end_goal
      (drop_mail (end_task (cancel_wakes notified_db reader) reader Ending.failed [] (text "w"))
        reader Ending.failed)
      reader Ending.failed

is_running : task_terminal reader.state ≡ false
unfolding task_terminal
is_running = refl

is_read : read_task notified_db reader.system_id reader.task_id ≡ ok reader
unfolding read_task same text
is_read = refl

ended :
    terminate_task no_notice level_ids 4 notified_db reader Ending.failed []
      (text "w")
      (text "runtime")
      []
      (pos 1000)
      (text "n")
    ≡ some (ok ended_db)
unfolding terminate_task goal_of same text task_terminal
ended = refl

terminate_task-Closed_example : Closed reader ended_db
terminate_task-Closed_example =
    terminate_task-Closed no_notice level_ids 4 notified_db ended_db reader Ending.failed []
      (text "w") (text "runtime") [] (pos 1000) (text "n") is_running is_read ended

abbrev daily : ScheduleRow
daily = record {
  system_id = text "a";
  schedule_id = text "q";
  task_id = text "t";
  creator = text "b";
  expression = text "0 9 * * *";
  timezone = text "UTC";
  content = text "x";
  next_due = pos 9000;
  expires_at = pos 0;
  remaining = pos 3;
  state = WakeState.active;
  reason = [];
}

abbrev scheduled_db : Db
scheduled_db = record team_db { schedules = daily ∷ [] }

abbrev unscheduled_db : Db
unscheduled_db = record team_db { schedules = canceled_row daily ∷ [] }

canceled : cancel_schedule scheduled_db reader (text "q") ≡ ok unscheduled_db
unfolding cancel_schedule same text
canceled = refl

scheduled_db-Bounded : SchedulesBounded scheduled_db
unfolding same text
scheduled_db-Bounded = (((omega arith, omega arith, λ h. cc), tt), λ system. ground arith)

step-SchedulesBounded_example : SchedulesBounded unscheduled_db
step-SchedulesBounded_example =
    step-SchedulesBounded scheduled_db unscheduled_db
      (ScheduleStep.canceled reader (text "q") canceled) scheduled_db-Bounded
