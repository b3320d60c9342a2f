-- ===== src/Knowledge/Capacity.antt =====
-- The bounds of the schedules (state/knowledge.go).
use microoperator.Base.{
  ℕ, ◌+◌, ◌≤◌, ℤ, pos, lt_int, eq_int, Bool, true, false, not, ◌||◌, List, [], ◌∷◌, ◌++◌, Text,
  same, length, ltb, leb, ◌==◌, if◌then◌else◌, ok, blank, ◌≡◌, refl, sym, ap, ◌∙◌, arith,
  Bool-cases, inl, inr, ||_split, not-not, if-false, >>=-eq-ok, fail_if-then, ok-injective, All,
  All-append, same_iff, ◌≤ℤ◌,
}
use mathlib.Core.Path.{subst}
use microoperator.Store.{
  TaskRow, ScheduleRow, Db, count_where, count-append, update_where, All-update_where,
}
use microoperator.Access.Read.{goal_of}
use microoperator.Knowledge.Wakeups.{
  Instant, is_after, Clock, ScheduleCommand, schedule_refused, first_due, single, parsed, of_system,
  own_schedule, canceled_row, schedule_row, create_schedule, cancel_schedule,
}

-- 1 to 8 triggers, and one alone for a schedule without an expression.
abbrev pub RowBounded : ScheduleRow → Type 0
RowBounded q =
    (pos 1 ≤ℤ q.remaining)
    × (q.remaining ≤ℤ pos 8)
    × (same q.expression [] ≡ true → eq_int q.remaining (pos 1) ≡ true)

abbrev pub SchedulesBounded : Db → Type 0
SchedulesBounded db =
    All RowBounded db.schedules
    × ((system : Text) → count_where (of_system system) db.schedules ≤ 128)

-- The test of the command, taken apart.
schedule_refused-budget :
    (c : ScheduleCommand)
    → schedule_refused c ≡ false
    → (lt_int c.budget (pos 1) ≡ false) × (lt_int (pos 8) c.budget ≡ false)
unfolding schedule_refused
schedule_refused-budget c h =
    let range = lt_int c.budget (pos 1) || lt_int (pos 8) c.budget in
    let long = ltb 2048 (length c.content) in
    let first =
      ||_split (if same c.at [] then same c.cron [] else not (same c.cron []))
        (blank c.content || (long || range)) h in
    let second = ||_split (blank c.content) (long || range) first.1 in
    let third = ||_split long range second.1 in
    ||_split (lt_int c.budget (pos 1)) (lt_int (pos 8) c.budget) third.1

single-budget :
    (clock : Clock) (c : ScheduleCommand) {next : Instant}
    → single clock c ≡ ok next
    → eq_int c.budget (pos 1) ≡ true
unfolding single
single-budget clock c h =
    let read = >>=-eq-ok (parsed (clock.parse c.at)) _ h in
    not-not _ (fail_if-then (not (eq_int c.budget (pos 1))) _ _ read.2).0

first_due-budget :
    (clock : Clock) (c : ScheduleCommand) (now : Instant) {next : Instant}
    → first_due clock c now ≡ ok next
    → same c.cron [] ≡ true
    → eq_int c.budget (pos 1) ≡ true
unfolding first_due
first_due-budget clock c now h once = single-budget clock c (sym (if-false _ _ _ (ap not once)) ∙ h)

in_range :
    (n : ℤ) → lt_int n (pos 1) ≡ false → lt_int (pos 8) n ≡ false → (pos 1 ≤ℤ n) × (n ≤ℤ pos 8)
in_range n low high = (ground (arith, low), ground (arith, high))

-- Another system's count does not change.
count-elsewhere :
    (system : Text) (qs : List ScheduleRow) (q : ScheduleRow)
    → of_system system q ≡ false
    → count_where (of_system system) (qs ++ q ∷ []) ≡ count_where (of_system system) qs
count-elsewhere system [] q other = rw other refl
count-elsewhere system (r ∷ qs) q other = omega (arith, count-elsewhere system qs q other)

same-count :
    (s t : Text) (qs : List ScheduleRow)
    → same s t ≡ true
    → count_where (of_system t) qs ≡ count_where (of_system s) qs
same-count s t qs h = ap (λ x. count_where (of_system x) qs) (sym ((same_iff s t).0 h))

count-kept {ℓ} :
    {A : Type ℓ} (p q : A → Bool) (f : A → A) (xs : List A)
    → ((x : A) → q (f x) ≡ q x)
    → count_where q (update_where p f xs) ≡ count_where q xs
count-kept p q f [] keeps = refl
count-kept p q f (x ∷ xs) keeps = elim (Bool-cases (p x)) [
  | inl hit ↦ rw (hit, keeps x) (omega (arith, count-kept p q f xs keeps))
  | inr miss ↦ rw miss (omega (arith, count-kept p q f xs keeps))
]

below : (n k : ℕ) → leb 128 n ≡ false → k ≤ n + 1 → k ≤ 128
below n k room grown = ground arith

-- The count of every system, with a row for one that had room.
counts_with :
    (qs : List ScheduleRow) (q : ScheduleRow) (system : Text)
    → leb 128 (count_where (of_system q.system_id) qs) ≡ false
    → count_where (of_system system) qs ≤ 128
    → count_where (of_system system) (qs ++ q ∷ []) ≤ 128
counts_with qs q system room before = elim (Bool-cases (of_system system q)) [
  | inl own ↦
      below (count_where (of_system system) qs) _
        (ap (leb 128) (same-count q.system_id system qs own) ∙ room)
        (count-append (of_system system) qs q)
  | inr other ↦ omega (arith, before, count-elsewhere system qs q other)
]

-- A change of the schedules that a task makes.
pub data ScheduleStep (db after : Db) : Type 0 where
  created :
      (clock : Clock) (t : TaskRow) (c : ScheduleCommand) (creator : Text) (now : Instant)
      (id : Text)
      → create_schedule clock db t c creator now id ≡ ok after
      → ScheduleStep db after
  canceled : (t : TaskRow) (id : Text) → cancel_schedule db t id ≡ ok after → ScheduleStep db after

created-SchedulesBounded :
    (clock : Clock) (db : Db) (t : TaskRow) (c : ScheduleCommand) (creator : Text) (now : Instant)
    (id : Text) {after : Db}
    → create_schedule clock db t c creator now id ≡ ok after
    → SchedulesBounded db
    → SchedulesBounded after
unfolding create_schedule
created-SchedulesBounded clock db t c creator now id h bounded =
    let first = fail_if-then (schedule_refused c) _ _ h in
    let due = >>=-eq-ok (first_due clock c now) _ first.1 in
    let goal = >>=-eq-ok (goal_of db t.system_id t.goal_id) _ due.2 in
    let future = fail_if-then (not (is_after due.0 now) || _) _ _ goal.2 in
    let room =
      fail_if-then (leb 128 (count_where (of_system t.system_id) db.schedules)) _ _ future.1 in
    let q = schedule_row t c creator goal.0 due.0 id in
    let range = schedule_refused-budget c first.0 in
    let within = in_range c.budget range.0 range.1 in
    subst SchedulesBounded (ok-injective room.1) (
      All-append RowBounded db.schedules (q ∷ []) bounded.0
          ((within.0, within.1, first_due-budget clock c now due.1), tt),
      λ system. counts_with db.schedules q system room.0 (bounded.1 system),
    )

canceled-SchedulesBounded :
    (db : Db) (t : TaskRow) (id : Text) {after : Db}
    → cancel_schedule db t id ≡ ok after
    → SchedulesBounded db
    → SchedulesBounded after
unfolding cancel_schedule
canceled-SchedulesBounded db t id h bounded =
    let one = fail_if-then (not (count_where (own_schedule t id) db.schedules == 1)) _ _ h in
    subst SchedulesBounded (ok-injective one.1) (
      All-update_where RowBounded (own_schedule t id) canceled_row db.schedules (λ q fine _. fine)
          bounded.0,
      λ system. omega (
        arith,
        bounded.1 system,
        count-kept (own_schedule t id) (of_system system) canceled_row db.schedules (λ q. refl),
      ),
    )

-- Creating and cancelling schedules keeps their bounds: a system has at most 128 of them, each has 1 to
-- 8 triggers left, and one that has no expression has one.
pub step-SchedulesBounded :
    (db after : Db) → ScheduleStep db after → SchedulesBounded db → SchedulesBounded after
step-SchedulesBounded db after (ScheduleStep.created clock t c creator now id done) bounded =
    created-SchedulesBounded clock db t c creator now id done bounded
step-SchedulesBounded db after (ScheduleStep.canceled t id done) bounded =
    canceled-SchedulesBounded db t id done bounded
