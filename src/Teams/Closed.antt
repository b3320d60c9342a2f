-- ===== src/Teams/Closed.antt =====
-- What terminateTask (state/team_ops.go) leaves of the task that it ends.
use microoperator.Base.{
  leb, pos, Bool, true, false, not, ◌&&◌, [], ◌∷◌, Text, same, ok, some, any, find, ◌≡◌, refl, sym,
  ap, ◌∙◌, Bool-cases, Option-cases, inl, inr, if-true, if-false, &&_split, >>=-eq-ok, fail_if-then,
  ok-injective, same_iff, All, All-append,
}
use mathlib.Core.Path.{subst}
use microoperator.Store.{
  any-find, All-trivial, task_terminal, is_stopped, call_pending, TaskRow, CallRow, MailboxRow, Db,
  count_where, row, All-update_where, All-update_where_to, find-update_where,
}
use microoperator.Access.Read.{Agent, read_agent, goal_of}
use microoperator.Teams.Continue.{
  continue_pending_input, wake_continuous_task, next_task, insert_task, next_row, not_continued,
  live_of_agent, live_of_goal, pending_input,
}
use microoperator.Teams.Terminate.{
  Ending, ended_task, ended_call, is_completed, is_task, pending_call, pending_mail, goes_on,
  cancel_wakes, end_task, drop_mail, settle_goal, refresh_goal, end_wakes, move_input, close_task,
}
use microoperator.Teams.Live.{ended_task-terminal}
use microoperator.Teams.Ends.{not_completed}

abbrev pub TasksEnded : TaskRow → Db → Type 0
TasksEnded t db = All (λ (u : TaskRow). is_task t u ≡ true → task_terminal u.state ≡ true) db.tasks

-- The task has ended; none of its deliveries is pending, and none of its calls waits to be sent.
abbrev pub Closed : TaskRow → Db → Type 0
Closed t db =
    TasksEnded t db
    × All (λ (m : MailboxRow). pending_mail t m ≡ false) db.mailboxes
    × All (λ (c : CallRow). pending_call t c ≡ false) db.model_calls

pub last_false : (a b c : Bool) → c ≡ false → (a && (b && c)) ≡ false
last_false false b c h = refl
last_false true false c h = refl
last_false true true c h = h

ended_call-sent : (e : Ending) → call_pending (ended_call e) ≡ false
ended_call-sent Ending.completed = refl
ended_call-sent Ending.failed = refl
ended_call-sent Ending.canceled = refl
ended_call-sent Ending.rejected = refl

end_task-TasksEnded :
    (db : Db) (t : TaskRow) (ending : Ending) (response reason : Text)
    → TasksEnded t (end_task db t ending response reason)
unfolding end_task
end_task-TasksEnded db t ending response reason =
    All-update_where_to (λ u. Unit {0})
      (λ (u : TaskRow). is_task t u ≡ true → task_terminal u.state ≡ true) (is_task t) _ db.tasks
      (λ u _ _ _. ended_task-terminal ending) (λ u _ miss hit. cc) (All-trivial db.tasks)

end_task-calls :
    (db : Db) (t : TaskRow) (ending : Ending) (response reason : Text)
    → All
        (λ (c : CallRow). pending_call t c ≡ false)
        (end_task db t ending response reason).model_calls
unfolding end_task
end_task-calls db t ending response reason =
    All-update_where_to (λ c. Unit {0}) (λ (c : CallRow). pending_call t c ≡ false) (pending_call t)
      _ db.model_calls
      (λ c _ _.
        last_false (same c.system_id t.system_id) (same c.task_id t.task_id) _
          (ended_call-sent ending))
      (λ c _ miss. miss) (All-trivial db.model_calls)

drop_mail-gone :
    (db : Db) (t : TaskRow) (ending : Ending)
    → All (λ (m : MailboxRow). pending_mail t m ≡ false) (drop_mail db t ending).mailboxes
unfolding drop_mail
drop_mail-gone db t ending =
    All-update_where_to (λ m. Unit {0}) (λ (m : MailboxRow). pending_mail t m ≡ false)
      (pending_mail t) _ db.mailboxes
      (λ m _ _. last_false (same m.system_id t.system_id) (same m.task_id t.task_id) _ refl)
      (λ m _ miss. miss) (All-trivial db.mailboxes)

-- The steps that end another task, with no completion.
end_task-keeps :
    (db : Db) (t p : TaskRow) (ending : Ending) (response reason : Text)
    → Closed t db
    → Closed t (end_task db p ending response reason)
unfolding end_task
end_task-keeps db t p ending response reason closed = (
  All-update_where (λ (u : TaskRow). is_task t u ≡ true → task_terminal u.state ≡ true) (is_task p)
      _ db.tasks (λ u _ _ _. ended_task-terminal ending) closed.0,
  closed.1,
  All-update_where (λ (c : CallRow). pending_call t c ≡ false) (pending_call p) _ db.model_calls
      (λ c _ _.
        last_false (same c.system_id t.system_id) (same c.task_id t.task_id) _
          (ended_call-sent ending))
      closed.2,
)

drop_mail-keeps :
    (db : Db) (t p : TaskRow) (ending : Ending) → Closed t db → Closed t (drop_mail db p ending)
unfolding drop_mail
drop_mail-keeps db t p ending closed = (
  closed.0,
  All-update_where (λ (m : MailboxRow). pending_mail t m ≡ false) (pending_mail p) _ db.mailboxes
      (λ m _ _. last_false (same m.system_id t.system_id) (same m.task_id t.task_id) _ refl)
      closed.1,
  closed.2,
)

refresh_goal-keeps :
    (goes : Bool) (db : Db) (t p : TaskRow) → Closed t db → Closed t (refresh_goal goes db p)
unfolding refresh_goal settle_goal
refresh_goal-keeps true db t p closed = closed
refresh_goal-keeps false db t p closed = closed

end_wakes-keeps :
    (goes : Bool) (db : Db) (t p : TaskRow) → Closed t db → Closed t (end_wakes goes db p)
unfolding end_wakes cancel_wakes
end_wakes-keeps true db t p closed = closed
end_wakes-keeps false db t p closed = closed

taken_ids :
    (db : Db) (t new : TaskRow)
    → any (is_task t) db.tasks ≡ true
    → is_task t new ≡ true
    → any (λ (u : TaskRow). same u.system_id new.system_id && same u.task_id new.task_id) db.tasks
      ≡ true
taken_ids db t new there hit =
    let ids = &&_split (same new.system_id t.system_id) (same new.task_id t.task_id) hit in
    ap (λ s. any (λ (u : TaskRow). same u.system_id s && same u.task_id new.task_id) db.tasks)
      ((same_iff new.system_id t.system_id).0 ids.0)
    ∙ ap (λ i. any (λ (u : TaskRow). same u.system_id t.system_id && same u.task_id i) db.tasks)
        ((same_iff new.task_id t.task_id).0 ids.1)
    ∙ there

-- A new task has new ids.
insert_task-TasksEnded :
    (db : Db) (t new : TaskRow) {done : Db × TaskRow}
    → any (is_task t) db.tasks ≡ true
    → insert_task db new ≡ ok done
    → TasksEnded t db
    → TasksEnded t done.0
unfolding insert_task
insert_task-TasksEnded db t new there h ended =
    let fresh =
      fail_if-then
        (any (λ (u : TaskRow). same u.system_id new.system_id && same u.task_id new.task_id)
          db.tasks)
        _ _ h in
    subst (λ (x : Db × TaskRow). TasksEnded t x.0) (ok-injective fresh.1)
      (All-append (λ (u : TaskRow). is_task t u ≡ true → task_terminal u.state ≡ true) db.tasks
        (new ∷ []) ended ((λ hit. let clash = taken_ids db t new there hit in cc), tt))

-- The tables that a wake leaves alone.
abbrev CallsKept : Db → Db → Type 0
CallsKept db after = after.model_calls ≡ db.model_calls

next_task-keeps :
    (db : Db) (t previous : TaskRow) (agent : Agent) (prompt id : Text) {woken : Db × TaskRow}
    → any (is_task t) db.tasks ≡ true
    → next_task db previous agent prompt id ≡ ok woken
    → TasksEnded t db
    → TasksEnded t woken.0 × CallsKept db woken.0
unfolding next_task insert_task
next_task-keeps db t previous agent prompt id there h ended =
    elim (Option-cases (find (live_of_agent previous) db.tasks)) [
      | inl missing ↦
          let made = rw (missing, next_task) at h in
          let room =
            fail_if-then (leb 64 (count_where (live_of_goal previous) db.tasks)) _ _ made in
          let fresh = fail_if-then (any _ db.tasks) _ _ room.1 in
          (
            insert_task-TasksEnded db t (next_row previous agent prompt id) there room.1 ended,
            ap (λ (x : Db × TaskRow). (x.0).model_calls) (sym (ok-injective fresh.1)),
          )
      | inr (u, live) ↦
          subst (λ (x : Db × TaskRow). TasksEnded t x.0 × CallsKept db x.0)
            (ok-injective (rw (live, next_task) at h)) (ended, refl)
    ]

wake-keeps :
    (db : Db) (t previous : TaskRow) (id : Text) {woken : Db × TaskRow}
    → any (is_task t) db.tasks ≡ true
    → wake_continuous_task db previous id ≡ ok woken
    → TasksEnded t db
    → TasksEnded t woken.0 × CallsKept db woken.0
unfolding wake_continuous_task
wake-keeps db t previous id {woken} there h ended =
    elim (Bool-cases (not (task_terminal previous.state))) [
      | inl live ↦
          subst (λ (x : Db × TaskRow). TasksEnded t x.0 × CallsKept db x.0)
            (ok-injective (sym (if-true _ _ _ live) ∙ h)) (ended, refl)
      | inr over ↦
          let goal =
            >>=-eq-ok (goal_of db previous.system_id previous.goal_id) _
              (sym (if-false _ _ _ over) ∙ h) in
          let system = >>=-eq-ok (row (find _ db.systems)) _ goal.2 in
          let open_ = fail_if-then (not_continued previous goal.0 system.0) _ _ system.2 in
          let agent =
            >>=-eq-ok (read_agent db previous.system_id previous.agent_id (pos 0)) _ open_.1 in
          let active = fail_if-then (is_stopped agent.0.state) _ _ agent.2 in
          next_task-keeps db t previous agent.0 goal.0.prompt id there active.1 ended
    ]

continue-keeps :
    (db : Db) (t previous : TaskRow) (id : Text) {after : Db}
    → any (is_task t) db.tasks ≡ true
    → continue_pending_input db previous id ≡ ok after
    → TasksEnded t db
    → TasksEnded t after × CallsKept db after
unfolding continue_pending_input
continue-keeps db t previous id {after} there h ended =
    elim (Bool-cases (not (any (pending_input db previous) db.mailboxes))) [
      | inl idle ↦
          subst (λ (x : Db). TasksEnded t x × CallsKept db x)
            (ok-injective (sym (if-true _ _ _ idle) ∙ h)) (ended, refl)
      | inr waiting ↦
          let woken =
            >>=-eq-ok (wake_continuous_task db previous id) _ (sym (if-false _ _ _ waiting) ∙ h) in
          subst (λ (x : Db). TasksEnded t x × CallsKept db x) (ok-injective woken.2)
            (wake-keeps db t previous id there woken.1 ended)
    ]

move_input-keeps :
    (goes : Bool) (db : Db) (t previous : TaskRow) (id : Text) {after : Db}
    → any (is_task t) db.tasks ≡ true
    → move_input goes db previous id ≡ ok after
    → TasksEnded t db
    → TasksEnded t after × CallsKept db after
unfolding move_input
move_input-keeps true db t previous id there h ended = continue-keeps db t previous id there h ended
move_input-keeps false db t previous id there h ended =
    subst (λ (x : Db). TasksEnded t x × CallsKept db x) (ok-injective h) (ended, refl)

end_task-there :
    (db : Db) (t : TaskRow) (ending : Ending) (response reason : Text) {u : TaskRow}
    → find (is_task t) db.tasks ≡ some u
    → any (is_task t) (end_task db t ending response reason).tasks ≡ true
unfolding end_task
end_task-there db t ending response reason there =
    any-find (is_task t) _
      (find-update_where (is_task t) (is_task t) _ db.tasks (λ v. refl) there).1

end_wakes-there :
    (goes : Bool) (db : Db) (t : TaskRow) {u : TaskRow}
    → find (is_task t) db.tasks ≡ some u
    → find (is_task t) (end_wakes goes db t).tasks ≡ some u
unfolding end_wakes cancel_wakes
end_wakes-there true db t there = there
end_wakes-there false db t there = there

drop_mail-closes :
    (db : Db) (t : TaskRow) (ending : Ending)
    → TasksEnded t db
    → All (λ (c : CallRow). pending_call t c ≡ false) db.model_calls
    → Closed t (drop_mail db t ending)
unfolding drop_mail
drop_mail-closes db t ending ended calls = (ended, drop_mail-gone db t ending, calls)

-- A task that stands in the table is closed.
pub close_task-Closed :
    (db : Db) (t : TaskRow) (continuous : Bool) (ending : Ending) (response reason id : Text)
    {u : TaskRow} {after : Db}
    → find (is_task t) db.tasks ≡ some u
    → close_task db t continuous ending response reason id ≡ ok after
    → Closed t after
unfolding close_task
close_task-Closed db t continuous ending response reason id there h =
    let goes = goes_on continuous ending t in
    let ended = end_task (end_wakes goes db t) t ending response reason in
    let moved = >>=-eq-ok (move_input goes ended _ id) _ h in
    let kept =
      move_input-keeps goes ended t _ id
        (end_task-there (end_wakes goes db t) t ending response reason
          (end_wakes-there goes db t there))
        moved.1 (end_task-TasksEnded (end_wakes goes db t) t ending response reason) in
    subst (Closed t) (ok-injective moved.2) (
      refresh_goal-keeps continuous (drop_mail moved.0 t ending) t t (
        drop_mail-closes moved.0 t ending kept.0 (
          subst (All (λ (c : CallRow). pending_call t c ≡ false)) (sym kept.1)
            (end_task-calls (end_wakes goes db t) t ending response reason))))

-- So does the end of another, which is not a completion.
pub close_task-keeps :
    (db : Db) (t p : TaskRow) (continuous : Bool) (ending : Ending) (response reason id : Text)
    {after : Db}
    → is_completed ending ≡ false
    → Closed t db
    → close_task db p continuous ending response reason id ≡ ok after
    → Closed t after
unfolding close_task move_input
close_task-keeps db t p continuous ending response reason id failed closed h =
    let goes = goes_on continuous ending p in
    let ended = end_task (end_wakes goes db p) p ending response reason in
    let no = not_completed continuous ending p failed in
    let moved = >>=-eq-ok (move_input goes ended _ id) _ h in
    let stays : ended ≡ moved.0 = ok-injective (
      ap
        (λ b.
          move_input b ended
            (record p { state = ended_task ending; response = response; reason = reason }) id)
        (sym no)
      ∙ moved.1) in
    subst (Closed t) (ok-injective moved.2) (
      refresh_goal-keeps continuous (drop_mail moved.0 p ending) t p (
        drop_mail-keeps moved.0 t p ending (
          subst (Closed t) stays (
            end_task-keeps (end_wakes goes db p) t p ending response reason
              (end_wakes-keeps goes db t p closed)))))
