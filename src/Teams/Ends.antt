-- ===== src/Teams/Ends.antt =====
-- terminateTask (state/team_ops.go) ends: each task that it goes on to was live.
use microoperator.Base.{
  ℕ, zero, suc, ◌+◌, ◌≤◌, ◌<◌, ℤ, Bool, true, false, not, ◌&&◌, ◌||◌, [], Text, text, same,
  if◌then◌else◌, Result, ok, err, Option, none, some, find, ◌≡◌, refl, sym, ap, ◌∙◌, arith,
  Bool-cases, inl, inr, if-true, if-false, ||_split, &&_split, >>=-eq-ok, ok-injective, same_iff,
  some-injective,
}
use mathlib.Core.Path.{subst}
use microoperator.Store.{task_terminal, is_stopped, TaskRow, Db, find-holds, row-found}
use microoperator.Access.Env.{denied_task}
use microoperator.Access.Read.{read_task}
use microoperator.Teams.Continue.{goal_is_continuous}
use microoperator.Teams.Terminate.{
  Ending, is_completed, is_task, goes_on, end_task, close_task, Outcome, notified, tell_parent,
  terminate_one, with_parent, terminate_task,
}
use microoperator.Teams.Live.{live_tasks, Found, end_task-live, end_task-fewer, close_task-live}

-- What was read by its ids stands in the table.
pub read_task-itself :
    (db : Db) (system id : Text) {u : TaskRow}
    → read_task db system id ≡ ok u
    → find (is_task u) db.tasks ≡ some u
unfolding read_task
read_task-itself db system id {u} h =
    let there = row-found (find _ db.tasks) h in
    let ids =
      &&_split (same u.system_id system) (same u.task_id id) (find-holds _ db.tasks there) in
    ap (λ s. find (λ (v : TaskRow). same v.system_id s && same v.task_id u.task_id) db.tasks)
      ((same_iff u.system_id system).0 ids.0)
    ∙ ap (λ i. find (λ (v : TaskRow). same v.system_id system && same v.task_id i) db.tasks)
        ((same_iff u.task_id id).0 ids.1)
    ∙ there

notified-some :
    (db : Db) (p : TaskRow) (r : Result Db) {after : Db} {parent : TaskRow} {why : Text}
    → notified db p r ≡ ok (after, some (parent, why))
    → (db ≡ after) × (p ≡ parent)
unfolding notified
notified-some db p (ok x) {after} {parent} {why} h =
    let nothing = ap (λ (o : Outcome). o.1) (ok-injective h) in cc
notified-some db p (err e) {after} {parent} {why} h = elim (Bool-cases (denied_task e)) [
  | inl refused ↦
      let both = ok-injective (sym (if-true _ _ _ refused) ∙ h) in
      (
        ap (λ (o : Outcome). o.0) both,
        ap (λ (x : TaskRow × Text). x.0) (some-injective (ap (λ (o : Outcome). o.1) both)),
      )
  | inr other ↦ let failed = sym (if-false _ _ _ other) ∙ h in cc
]

-- Where the parent has to be ended: the database is the one in which it was read, and it is live.
tell_parent-Found :
    (notice : Text → Text → Text) (db : Db) (t : TaskRow) (ending : Ending) (source cause : Text)
    (now : ℤ) (id : Text) {after : Db} {parent : TaskRow} {why : Text}
    → tell_parent notice db t ending source cause now id ≡ ok (after, some (parent, why))
    → (after ≡ db) × Found db parent
unfolding tell_parent
tell_parent-Found notice db t ending source cause now id {after} {parent} {why} h =
    let read = >>=-eq-ok (read_task db t.system_id t.parent_task) _ h in
    elim (Bool-cases (task_terminal read.0.state || is_stopped read.0.control)) [
      | inl done ↦
          let nothing =
            ap (λ (o : Outcome). o.1) (ok-injective (sym (if-true _ _ _ done) ∙ read.2)) in
          cc
      | inr live ↦
          let both = notified-some db read.0 _ (sym (if-false _ _ _ live) ∙ read.2) in
          (
            sym both.0,
            subst (Found db) both.1 (
              read.0,
              read_task-itself db t.system_id t.parent_task read.1,
              ap not (||_split (task_terminal read.0.state) (is_stopped read.0.control) live).0,
            ),
          )
    ]

no_parent :
    (r : Result Outcome) {db after : Db} (up : TaskRow × Text)
    → r ≡ ok (db, none)
    → r ≡ ok (after, some up)
    → ⊥
no_parent r up alone more =
    let nothing = ap (λ (o : Outcome). o.1) (ok-injective (sym alone ∙ more)) in cc

-- A step up: the parent is live, and there is at most one live task more; after an end that is not a
-- completion there are fewer, if the task was live.
terminate_one-step :
    (notice : Text → Text → Text) (db : Db) (t : TaskRow) (ending : Ending)
    (response reason source cause : Text) (now : ℤ) (next_id id : Text) {after : Db}
    {parent : TaskRow} {why : Text}
    → terminate_one notice db t ending response reason source cause now next_id id
      ≡ ok (after, some (parent, why))
    → Found after parent
      × (continuous : Bool) × (live_tasks after
          ≤ live_tasks (end_task db t ending response reason)
            + (if goes_on continuous ending t then 1 else 0))
unfolding terminate_one
terminate_one-step notice db t ending response reason source cause now next_id id {after} {parent}
      {why} h =
    elim (Bool-cases (task_terminal t.state)) [
      | inl ended ↦ absurd (no_parent _ _ (if-true _ _ _ ended) h)
      | inr live ↦
          let kind = >>=-eq-ok (goal_is_continuous db t) _ (sym (if-false _ _ _ live) ∙ h) in
          let closed = >>=-eq-ok (close_task db t kind.0 ending response reason next_id) _ kind.2 in
          let fewer = close_task-live db t kind.0 ending response reason next_id closed.1 in
          elim (Bool-cases (not (same t.learning_id []))) [
            | inl learning ↦ absurd (no_parent _ _ (if-true _ _ _ learning) closed.2)
            | inr plain ↦
                let rest = sym (if-false _ _ _ plain) ∙ closed.2 in
                elim (Bool-cases (not (same t.parent_task []))) [
                  | inl child ↦
                      let told =
                        tell_parent-Found notice closed.0 t ending source cause now id
                          (sym (if-true _ _ _ child) ∙ rest) in
                      let same_live = ap live_tasks told.0 in
                      (
                        subst (λ (x : Db). Found x parent) (sym told.0) told.1,
                        kind.0,
                        omega (arith, same_live, fewer),
                      )
                  | inr root ↦ absurd (no_parent _ _ (if-false _ _ _ root) rest)
                ]
          ]
    ]

pub not_completed :
    (continuous : Bool) (ending : Ending) (t : TaskRow)
    → is_completed ending ≡ false
    → goes_on continuous ending t ≡ false
unfolding goes_on
not_completed false ending t h = refl
not_completed true ending t h = rw h refl

at_most_one : (b : Bool) → (if b then 1 else 0) ≤ 1
at_most_one true = omega arith
at_most_one false = omega arith

-- A level ends when the call for a parent, if there is one, does.
with_parent-ends :
    (again : Db → TaskRow → Text → Option (Result Db)) (r : Result Outcome)
    → ((after : Db) (parent : TaskRow) (why : Text)
        → r ≡ ok (after, some (parent, why))
        → (x : Result Db) × (again after parent why ≡ some x))
    → (x : Result Db) × (with_parent again r ≡ some x)
unfolding with_parent
with_parent-ends again (err e) up = (err e, refl)
with_parent-ends again (ok (db, none)) up = (ok db, refl)
with_parent-ends again (ok (db, some (parent, why))) up = up db parent why refl

module _ (notice : Text → Text → Text) (ids : ℕ → Text) where
  -- Every fuel above the number of live tasks is enough for a live task that is rejected.
  rejected-enough :
      (fuel : ℕ) (db : Db) (t : TaskRow) (why cause : Text) (now : ℤ) (next_id : Text)
      → Found db t
      → live_tasks db < fuel
      → (r : Result Db) × (terminate_task notice ids fuel db t Ending.rejected [] why
            (text "runtime")
            cause
            now
            next_id
          ≡ some r)
  unfolding terminate_task
  rejected-enough zero db t why cause now next_id live enough = absurd (omega arith)
  rejected-enough (suc fuel) db t why cause now next_id live enough =
      with_parent-ends _ _ λ after parent reason up.
        let step =
          terminate_one-step notice db t Ending.rejected [] why (text "runtime") cause now next_id
            (ids fuel) up in
        let stays =
          ap {B = ℕ} (λ b. if b then 1 else 0) (not_completed step.1 Ending.rejected t refl) in
        rejected-enough fuel after parent reason cause now next_id step.0
          (omega (arith, step.2, stays, end_task-fewer db t Ending.rejected [] why live))

  -- Whatever the task and its end are, a fuel that exceeds the number of live tasks by three is enough: the task
  -- and its parents end, or an error stops them. So parents that form a cycle do not keep it going.
  pub terminate_task-ends :
      (fuel : ℕ) (db : Db) (t : TaskRow) (ending : Ending) (response reason source cause : Text)
      (now : ℤ) (next_id : Text)
      → live_tasks db + 2 < fuel
      → (r : Result Db) × (terminate_task notice ids fuel db t ending response reason source cause
            now next_id
          ≡ some r)
  unfolding terminate_task
  terminate_task-ends zero db t ending response reason source cause now next_id enough =
      absurd (omega arith)
  terminate_task-ends (suc fuel) db t ending response reason source cause now next_id enough =
      with_parent-ends _ _ λ after parent why up.
        let step =
          terminate_one-step notice db t ending response reason source cause now next_id (ids fuel)
            up in
        rejected-enough fuel after parent why cause now next_id step.0 (
          omega (
            arith,
            step.2,
            at_most_one (goes_on step.1 ending t),
            end_task-live db t ending response reason,
          ))
