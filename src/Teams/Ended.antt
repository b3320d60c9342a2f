-- ===== src/Teams/Ended.antt =====
-- What terminateTask (state/team_ops.go) leaves of the task that it ends, with its parents.
use microoperator.Base.{
  ℕ, zero, suc, ℤ, Bool, true, false, not, ◌&&◌, ◌||◌, [], ◌∷◌, Text, text, same, if◌then◌else◌,
  Result, ok, err, Option, none, some, find, ◌≡◌, ◌⊎◌, refl, sym, ◌∙◌, Bool-cases, inl, inr,
  if-true, if-false, ||_split, >>=-eq-ok, ok-injective, some-injective, All-append,
}
use mathlib.Core.Path.{subst}
use microoperator.Store.{task_terminal, is_stopped, TaskRow, MailboxRow, Db, All-find}
use microoperator.Access.Env.{denied_task}
use microoperator.Access.Read.{read_task}
use microoperator.Teams.Events.{emit_event, mail_of}
use microoperator.Teams.Causes.{emit_event-Emitted}
use microoperator.Teams.Continue.{goal_is_continuous, task_state_text}
use microoperator.Teams.Terminate.{
  Ending, ended_task, is_completed, is_canceled, is_task, pending_mail, end_goal, close_task,
  Outcome, notified, tell_parent, terminate_one, with_parent, terminate_task,
}
use microoperator.Teams.Ends.{read_task-itself}
use microoperator.Teams.Closed.{TasksEnded, Closed, close_task-Closed, close_task-keeps}

no_pending : (a b : Bool) → (a && b) ≡ false → (a && (b && true)) ≡ false
no_pending true true h = h
no_pending true false h = refl
no_pending false b h = refl

-- A delivery to a live task is none to a closed one.
mail_of-other :
    (db : Db) (t p : TaskRow) (id : Text)
    → TasksEnded t db
    → find (is_task p) db.tasks ≡ some p
    → task_terminal p.state ≡ false
    → pending_mail t (mail_of p id) ≡ false
mail_of-other db t p id ended there live = elim (Bool-cases (is_task t p)) [
  | inl hit ↦
      let over =
        (All-find (λ (u : TaskRow). is_task t u ≡ true → task_terminal u.state ≡ true) (is_task p)
            db.tasks ended there).0
          hit in
      cc
  | inr miss ↦ no_pending (same p.system_id t.system_id) (same p.task_id t.task_id) miss
]

notified-keeps :
    (db : Db) (t p : TaskRow) (source cause payload : Text) (now : ℤ) (id : Text) (r : Result Db)
    {done : Outcome}
    → r ≡ emit_event db p (text "task.result") source cause payload now id
    → Closed t db
    → find (is_task p) db.tasks ≡ some p
    → task_terminal p.state ≡ false
    → notified db p r ≡ ok done
    → Closed t done.0
unfolding notified
notified-keeps db t p source cause payload now id (ok after) sent closed there live h =
    let wrote =
      emit_event-Emitted db p (text "task.result") source cause payload now id (sym sent) in
    subst (λ (x : Outcome). Closed t x.0) (ok-injective h)
      (subst (Closed t) (sym wrote.5) (
        closed.0,
        All-append (λ (m : MailboxRow). pending_mail t m ≡ false) db.mailboxes (mail_of p id ∷ [])
            closed.1 (mail_of-other db t p id closed.0 there live, tt),
        closed.2,
      ))
notified-keeps db t p source cause payload now id (err e) sent closed there live h =
    elim (Bool-cases (denied_task e)) [
      | inl refused ↦
          subst (λ (x : Outcome). Closed t x.0) (ok-injective (sym (if-true _ _ _ refused) ∙ h))
            closed
      | inr other ↦ let failed = sym (if-false _ _ _ other) ∙ h in cc
    ]

tell_parent-keeps :
    (notice : Text → Text → Text) (db : Db) (t p : TaskRow) (ending : Ending) (source cause : Text)
    (now : ℤ) (id : Text) {done : Outcome}
    → Closed t db
    → tell_parent notice db p ending source cause now id ≡ ok done
    → Closed t done.0
unfolding tell_parent
tell_parent-keeps notice db t p ending source cause now id closed h =
    let read = >>=-eq-ok (read_task db p.system_id p.parent_task) _ h in
    elim (Bool-cases (task_terminal read.0.state || is_stopped read.0.control)) [
      | inl over ↦
          subst (λ (x : Outcome). Closed t x.0) (ok-injective (sym (if-true _ _ _ over) ∙ read.2))
            closed
      | inr live ↦
          notified-keeps db t read.0 source cause
            (notice p.task_id (task_state_text (ended_task ending))) now id _ refl closed
            (read_task-itself db p.system_id p.parent_task read.1)
            (||_split (task_terminal read.0.state) (is_stopped read.0.control) live).0
            (sym (if-false _ _ _ live) ∙ read.2)
    ]

goal_ended :
    (db : Db) (t p : TaskRow) (ending : Ending) (stays : Bool)
    → Closed t db
    → Closed t (if stays then db else end_goal db p ending)
unfolding end_goal
goal_ended db t p ending true closed = closed
goal_ended db t p ending false closed = closed

-- What follows the closing of the task.
after_close :
    (notice : Text → Text → Text) (db : Db) (t p : TaskRow) (continuous : Bool) (ending : Ending)
    (source cause : Text) (now : ℤ) (id : Text) {done : Outcome}
    → Closed t db
    → (if not (same p.learning_id [])
        then ok (db, none)
        else if not (same p.parent_task [])
        then tell_parent notice db p ending source cause now id
        else ok
            ((if continuous && not (is_canceled ending) then db else end_goal db p ending), none))
      ≡ ok done
    → Closed t done.0
after_close notice db t p continuous ending source cause now id closed h =
    elim (Bool-cases (not (same p.learning_id []))) [
      | inl learning ↦
          subst (λ (x : Outcome). Closed t x.0) (ok-injective (sym (if-true _ _ _ learning) ∙ h))
            closed
      | inr plain ↦
          let rest = sym (if-false _ _ _ plain) ∙ h in
          elim (Bool-cases (not (same p.parent_task []))) [
            | inl child ↦
                tell_parent-keeps notice db t p ending source cause now id closed
                  (sym (if-true _ _ _ child) ∙ rest)
            | inr root ↦
                subst (λ (x : Outcome). Closed t x.0)
                  (ok-injective (sym (if-false _ _ _ root) ∙ rest))
                  (goal_ended db t p ending (continuous && not (is_canceled ending)) closed)
          ]
    ]

-- A live task that stands in the table is closed by the call for it.
terminate_one-Closed :
    (notice : Text → Text → Text) (db : Db) (t : TaskRow) (ending : Ending)
    (response reason source cause : Text) (now : ℤ) (next_id id : Text) {u : TaskRow}
    {done : Outcome}
    → task_terminal t.state ≡ false
    → find (is_task t) db.tasks ≡ some u
    → terminate_one notice db t ending response reason source cause now next_id id ≡ ok done
    → Closed t done.0
unfolding terminate_one
terminate_one-Closed notice db t ending response reason source cause now next_id id live there h =
    let kind = >>=-eq-ok (goal_is_continuous db t) _ (sym (if-false _ _ _ live) ∙ h) in
    let closed = >>=-eq-ok (close_task db t kind.0 ending response reason next_id) _ kind.2 in
    after_close notice closed.0 t t kind.0 ending source cause now id
      (close_task-Closed db t kind.0 ending response reason next_id there closed.1) closed.2

-- It stays closed when another one is rejected.
terminate_one-keeps :
    (notice : Text → Text → Text) (db : Db) (t p : TaskRow) (ending : Ending)
    (response reason source cause : Text) (now : ℤ) (next_id id : Text) {done : Outcome}
    → is_completed ending ≡ false
    → Closed t db
    → terminate_one notice db p ending response reason source cause now next_id id ≡ ok done
    → Closed t done.0
unfolding terminate_one
terminate_one-keeps notice db t p ending response reason source cause now next_id id failed closed
      h =
    elim (Bool-cases (task_terminal p.state)) [
      | inl over ↦
          subst (λ (x : Outcome). Closed t x.0) (ok-injective (sym (if-true _ _ _ over) ∙ h)) closed
      | inr live ↦
          let kind = >>=-eq-ok (goal_is_continuous db p) _ (sym (if-false _ _ _ live) ∙ h) in
          let shut = >>=-eq-ok (close_task db p kind.0 ending response reason next_id) _ kind.2 in
          after_close notice shut.0 t p kind.0 ending source cause now id
            (close_task-keeps db t p kind.0 ending response reason next_id failed closed shut.1)
            shut.2
    ]

-- A loop that came to a result: its first call, and the call for the parent where there is one.
with_parent-done :
    (again : Db → TaskRow → Text → Option (Result Db)) (r : Result Outcome) {after : Db}
    → with_parent again r ≡ some (ok after)
    → (done : Outcome) × (r ≡ ok done)
      × ((done.0 ≡ after) ⊎ ((p : TaskRow) × (why : Text) × (again done.0 p why ≡ some (ok after))))
unfolding with_parent
with_parent-done again (err e) h = let failed = some-injective h in cc
with_parent-done again (ok (db, none)) h = ((db, none), refl, inl (ok-injective (some-injective h)))
with_parent-done again (ok (db, some (p, why))) h = ((db, some (p, why)), refl, inr (p, why, h))

module _ (notice : Text → Text → Text) (ids : ℕ → Text) where
  rejected-keeps :
      (fuel : ℕ) (db after : Db) (t p : TaskRow) (why cause : Text) (now : ℤ) (next_id : Text)
      → Closed t db
      → terminate_task notice ids fuel db p Ending.rejected [] why
          (text "runtime")
          cause
          now
          next_id
        ≡ some (ok after)
      → Closed t after
  unfolding terminate_task
  rejected-keeps zero db after t p why cause now next_id closed h = cc
  rejected-keeps (suc fuel) db after t p why cause now next_id closed h =
      let run = with_parent-done _ _ h in
      let kept =
        terminate_one-keeps notice db t p Ending.rejected [] why (text "runtime") cause now next_id
          (ids fuel) refl closed run.1 in
      elim run.2 [
        | inl done ↦ subst (Closed t) done kept
        | inr (q, reason, more) ↦
            rejected-keeps fuel (run.0).0 after t q reason cause now next_id kept more
      ]

  -- When the end of a live task is committed, however many parents ended with it, the task is in a
  -- terminal state, none of its deliveries is pending and none of its calls waits to be sent: so
  -- nothing is dispatched for it any more. The task is given as it was read from the table.
  pub terminate_task-Closed :
      (fuel : ℕ) (db after : Db) (t : TaskRow) (ending : Ending)
      (response reason source cause : Text) (now : ℤ) (next_id : Text)
      → task_terminal t.state ≡ false
      → read_task db t.system_id t.task_id ≡ ok t
      → terminate_task notice ids fuel db t ending response reason source cause now next_id
        ≡ some (ok after)
      → Closed t after
  unfolding terminate_task
  terminate_task-Closed zero db after t ending response reason source cause now next_id live read
        h =
      cc
  terminate_task-Closed (suc fuel) db after t ending response reason source cause now next_id live
        read h =
      let run = with_parent-done _ _ h in
      let closed =
        terminate_one-Closed notice db t ending response reason source cause now next_id (ids fuel)
          live (read_task-itself db t.system_id t.task_id read) run.1 in
      elim run.2 [
        | inl done ↦ subst (Closed t) done closed
        | inr (p, why, more) ↦
            rejected-keeps fuel (run.0).0 after t p why cause now next_id closed more
      ]
