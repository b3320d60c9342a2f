-- ===== src/Teams/Live.antt =====
-- The number of live tasks through the steps of terminateTask (state/team_ops.go).
use microoperator.Base.{
  ℕ, ◌+◌, ◌≤◌, ◌<◌, leb, pos, Bool, true, false, not, List, [], ◌∷◌, Text, if◌then◌else◌, ok, some,
  any, find, ◌≡◌, refl, sym, ap, ◌∙◌, arith, Bool-cases, Option-cases, inl, inr, if-true, if-false,
  >>=-eq-ok, fail_if-then, ok-injective, some-injective,
}
use mathlib.Core.Path.{subst}
use microoperator.Store.{
  task_terminal, is_stopped, TaskRow, Db, update_where, count-append, count_where, row,
}
use microoperator.Access.Read.{Agent, read_agent, goal_of}
use microoperator.Teams.Continue.{
  continue_pending_input, wake_continuous_task, next_task, insert_task, next_row, not_continued,
  live_of_agent, live_of_goal, pending_input,
}
use microoperator.Teams.Terminate.{
  Ending, ended_task, is_task, goes_on, cancel_wakes, end_task, drop_mail, settle_goal,
  refresh_goal, end_wakes, move_input, close_task,
}

abbrev pub is_live : TaskRow → Bool
is_live u = not (task_terminal u.state)

abbrev pub live_tasks : Db → ℕ
live_tasks db = count_where is_live db.tasks

module _ {ℓ} {A : Type ℓ} (p live : A → Bool) (f : A → A)
    (dead : (x : A) → live (f x) ≡ false) where
  count-update : (xs : List A) → count_where live (update_where p f xs) ≤ count_where live xs
  count-update [] = omega arith
  count-update (x ∷ xs) = elim (Bool-cases (p x)) [
    | inl hit ↦ rw (hit, dead x) (omega (arith, count-update xs))
    | inr miss ↦ rw miss (omega (arith, count-update xs))
  ]

  count-update_live :
      (xs : List A) {x : A}
      → find p xs ≡ some x
      → live x ≡ true
      → count_where live (update_where p f xs) < count_where live xs
  count-update_live [] h l = cc
  count-update_live (y ∷ xs) {x} h l = elim (Bool-cases (p y)) [
    | inl hit ↦
        let found : y ≡ x = some-injective (rw hit at h) in
        rw (hit, dead y, ap live found, l) (omega (arith, count-update xs))
    | inr miss ↦ rw miss (omega (arith, count-update_live xs (rw miss at h) l))
  ]

pub ended_task-terminal : (e : Ending) → task_terminal (ended_task e) ≡ true
unfolding task_terminal
ended_task-terminal Ending.completed = refl
ended_task-terminal Ending.failed = refl
ended_task-terminal Ending.canceled = refl
ended_task-terminal Ending.rejected = refl

-- At most one new task.
next_task-live :
    (db : Db) (t : TaskRow) (agent : Agent) (prompt id : Text) {woken : Db × TaskRow}
    → next_task db t agent prompt id ≡ ok woken
    → live_tasks woken.0 ≤ live_tasks db + 1
unfolding next_task insert_task
next_task-live db t agent prompt id h = elim (Option-cases (find (live_of_agent t) db.tasks)) [
  | inl missing ↦
      let made = rw (missing, next_task) at h in
      let room = fail_if-then (leb 64 (count_where (live_of_goal t) db.tasks)) _ _ made in
      let fresh = fail_if-then (any _ db.tasks) _ _ room.1 in
      subst (λ (x : Db × TaskRow). live_tasks x.0 ≤ live_tasks db + 1) (ok-injective fresh.1)
        (count-append is_live db.tasks (next_row t agent prompt id))
  | inr (u, there) ↦
      subst (λ (x : Db × TaskRow). live_tasks x.0 ≤ live_tasks db + 1)
        (ok-injective (rw (there, next_task) at h)) (omega arith)
]

wake-live :
    (db : Db) (t : TaskRow) (id : Text) {woken : Db × TaskRow}
    → wake_continuous_task db t id ≡ ok woken
    → live_tasks woken.0 ≤ live_tasks db + 1
unfolding wake_continuous_task
wake-live db t id {woken} h = elim (Bool-cases (not (task_terminal t.state))) [
  | inl live ↦
      subst (λ (x : Db × TaskRow). live_tasks x.0 ≤ live_tasks db + 1)
        (ok-injective (sym (if-true _ _ _ live) ∙ h)) (omega arith)
  | inr ended ↦
      let goal = >>=-eq-ok (goal_of db t.system_id t.goal_id) _ (sym (if-false _ _ _ ended) ∙ h) in
      let system = >>=-eq-ok (row (find _ db.systems)) _ goal.2 in
      let open_ = fail_if-then (not_continued t goal.0 system.0) _ _ system.2 in
      let agent = >>=-eq-ok (read_agent db t.system_id t.agent_id (pos 0)) _ open_.1 in
      let active = fail_if-then (is_stopped agent.0.state) _ _ agent.2 in
      next_task-live db t agent.0 goal.0.prompt id active.1
]

continue-live :
    (db : Db) (t : TaskRow) (id : Text) {after : Db}
    → continue_pending_input db t id ≡ ok after
    → live_tasks after ≤ live_tasks db + 1
unfolding continue_pending_input
continue-live db t id {after} h = elim (Bool-cases (not (any (pending_input db t) db.mailboxes))) [
  | inl idle ↦
      subst (λ (x : Db). live_tasks x ≤ live_tasks db + 1)
        (ok-injective (sym (if-true _ _ _ idle) ∙ h)) (omega arith)
  | inr waiting ↦
      let woken = >>=-eq-ok (wake_continuous_task db t id) _ (sym (if-false _ _ _ waiting) ∙ h) in
      subst (λ (x : Db). live_tasks x ≤ live_tasks db + 1) (ok-injective woken.2)
        (wake-live db t id woken.1)
]

-- The live tasks after the task is closed: one may be new, and the task itself is live no more.
pub end_task-live :
    (db : Db) (t : TaskRow) (ending : Ending) (response reason : Text)
    → live_tasks (end_task db t ending response reason) ≤ live_tasks db
unfolding end_task
end_task-live db t ending response reason =
    count-update (is_task t) is_live _ (λ u. ap not (ended_task-terminal ending)) db.tasks

abbrev pub Found : Db → TaskRow → Type 0
Found db t = (u : TaskRow) × (find (is_task t) db.tasks ≡ some u) × (is_live u ≡ true)

pub end_task-fewer :
    (db : Db) (t : TaskRow) (ending : Ending) (response reason : Text)
    → Found db t
    → live_tasks (end_task db t ending response reason) < live_tasks db
unfolding end_task
end_task-fewer db t ending response reason (u, there, live) =
    count-update_live (is_task t) is_live _ (λ u. ap not (ended_task-terminal ending)) db.tasks
      there live

-- The tasks of databases that differ elsewhere.
refresh_goal-live :
    (db : Db) (t : TaskRow) (ending : Ending) (continuous : Bool)
    → live_tasks (refresh_goal continuous (drop_mail db t ending) t) ≡ live_tasks db
unfolding refresh_goal settle_goal drop_mail
refresh_goal-live db t ending true = refl
refresh_goal-live db t ending false = refl

end_wakes-tasks :
    (goes : Bool) (db : Db) (t : TaskRow) (ending : Ending) (response reason : Text)
    → live_tasks (end_task (end_wakes goes db t) t ending response reason)
      ≡ live_tasks (end_task db t ending response reason)
unfolding end_wakes cancel_wakes end_task
end_wakes-tasks true db t ending response reason = refl
end_wakes-tasks false db t ending response reason = refl

move_input-live :
    (goes : Bool) (db : Db) (t : TaskRow) (id : Text) {after : Db}
    → move_input goes db t id ≡ ok after
    → live_tasks after ≤ live_tasks db + (if goes then 1 else 0)
unfolding move_input
move_input-live true db t id h = continue-live db t id h
move_input-live false db t id {after} h =
    subst (λ (x : Db). live_tasks x ≤ live_tasks db + 0) (ok-injective h) (omega arith)

pub close_task-live :
    (db : Db) (t : TaskRow) (continuous : Bool) (ending : Ending) (response reason id : Text)
    {after : Db}
    → close_task db t continuous ending response reason id ≡ ok after
    → live_tasks after
      ≤ live_tasks (end_task db t ending response reason)
        + (if goes_on continuous ending t then 1 else 0)
unfolding close_task
close_task-live db t continuous ending response reason id {after} h =
    let goes = goes_on continuous ending t in
    let ended = end_task (end_wakes goes db t) t ending response reason in
    let moved =
      >>=-eq-ok
        (move_input goes ended
          (record t { state = ended_task ending; response = response; reason = reason }) id)
        _ h in
    let last =
      ap live_tasks (sym (ok-injective moved.2)) ∙ refresh_goal-live moved.0 t ending continuous in
    let first = end_wakes-tasks goes db t ending response reason in
    omega (arith, last, first, move_input-live goes ended _ id moved.1)
