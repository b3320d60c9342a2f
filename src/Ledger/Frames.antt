-- ===== src/Ledger/Frames.antt =====
-- What the parts of `admit` and `settle` (state/broker.go) leave as it was, and where the rows that
-- they read come from.
use microoperator.Base.{
  &&_split, ℤ, true, ◌&&◌, ◌||◌, List, [], ◌∷◌, map, Text, same, ok, any, find, take, ◌≡◌, refl,
}
use microoperator.Store.{
  call_queued, ToolPin, SystemRow, TaskRow, CallRow, QuotaRow, ApprovalRow, UseRow, Db, last,
  order_by,
}
use microoperator.Base.{
  Bool-cases, inl, inr, All, >>=-eq-ok, Option-cases, ◌∙◌, ap, ok-injective, sym,
}
use microoperator.Store.{All-last, All-keep, All-order_by, All-take, find-holds}
use mathlib.Core.Path.{subst}
use microoperator.Config.{Configuration, lookup_or, zero_quota}
use microoperator.Access.Read.{Execution, read_execution, calls_of, goal_of}
use microoperator.Access.Learning.{
  admit_learning_uses, pending_pins, consume_all, consume, consumed, open_approval, use_of,
}
use microoperator.Broker.Quota.{Round, with_quota_row, is_group, check_group, check_groups}
use microoperator.Broker.Admit.{Waiting, max_operators, waiting_calls, not_after, candidates}
use microoperator.Broker.Settle.{Throttle, throttle_group, throttle_groups}

-- Only the quota groups of `db` may differ from those of `before`.
abbrev pub QuotaOnly : Db → Db → Type 0
QuotaOnly before db = (rows : List QuotaRow) × (db ≡ record before { quota_state = rows })

QuotaOnly-chain : (a b c : Db) → QuotaOnly a b → QuotaOnly b c → QuotaOnly a c
QuotaOnly-chain a b c h k = (k.0, k.1 ∙ ap (λ (d : Db). record d { quota_state = k.0 }) h.1)

pub check_group-QuotaOnly :
    (cfg : Configuration) (e : Execution) (now : ℤ) (group : Text) (round : Round) {after : Round}
    → check_group cfg e now group round ≡ ok after
    → QuotaOnly round.db after.db
unfolding check_group
check_group-QuotaOnly cfg e now group round {after} done =
    let rows =
      with_quota_row group (lookup_or zero_quota group cfg.quota_groups) now round.db.quota_state in
    elim (Option-cases (find (is_group group) rows)) [
      | inl none_there ↦ let failed = rw none_there at done in cc
      | inr (q, hit) ↦ let made = rw hit at done in (_, sym (ap Round.db (ok-injective made)))
    ]

pub check_groups-QuotaOnly :
    (cfg : Configuration) (e : Execution) (now : ℤ) (groups : List Text) (round : Round)
    {after : Round}
    → check_groups cfg e now groups round ≡ ok after
    → QuotaOnly round.db after.db
unfolding check_groups
check_groups-QuotaOnly cfg e now [] round {after} done =
    (Db.quota_state round.db, sym (ap Round.db (ok-injective done)))
check_groups-QuotaOnly cfg e now (group ∷ groups) round {after} done =
    let step =
      >>=-eq-ok (check_group cfg e now group round) (λ next. check_groups cfg e now groups next)
        done in
    QuotaOnly-chain round.db (Round.db step.0) after.db
      (check_group-QuotaOnly cfg e now group round step.1)
      (check_groups-QuotaOnly cfg e now groups step.0 step.2)

pub throttle_groups-QuotaOnly :
    (cfg : Configuration) (until : ℤ) (groups : List Text) (t : Throttle)
    → QuotaOnly t.db (Throttle.db (throttle_groups cfg until groups t))
unfolding throttle_groups
throttle_groups-QuotaOnly cfg until [] t = (Db.quota_state t.db, refl)
throttle_groups-QuotaOnly cfg until (group ∷ groups) t =
    let rest = throttle_groups-QuotaOnly cfg until groups (throttle_group cfg until group t) in
    (rest.0, rest.1)

-- Only the uses of approved tools may differ.
abbrev pub UsesOnly : Db → Db → Type 0
UsesOnly before db =
    (approvals : List ApprovalRow) × (uses : List UseRow) × (db
      ≡ record before { learning_approvals = approvals; learning_uses = uses })

UsesOnly-chain : (a b c : Db) → UsesOnly a b → UsesOnly b c → UsesOnly a c
UsesOnly-chain a b c h k = (
  k.0,
  k.1,
  k.2 ∙ ap (λ (d : Db). record d { learning_approvals = k.0; learning_uses = k.1 }) h.2,
)

consume-UsesOnly :
    (t : TaskRow) (pin : ToolPin) (db : Db) {after : Db}
    → consume t pin db ≡ ok after
    → UsesOnly db after
unfolding consume
consume-UsesOnly t pin db {after} done =
    elim (Bool-cases (any (open_approval t pin) db.learning_approvals)) [
      | inl approved ↦ elim (Bool-cases (any (use_of t.system_id pin t.task_id) db.learning_uses)) [
        | inl used ↦ let failed = rw used at (rw approved at done) in cc
        | inr fresh ↦
            (_, _, sym (ok-injective {a = consumed t pin db} (rw fresh at (rw approved at done))))
      ]
      | inr refused ↦ let failed = rw refused at done in cc
    ]

pub consume_all-UsesOnly :
    (t : TaskRow) (pins : List ToolPin) (db : Db) {after : Db}
    → consume_all t pins db ≡ ok after
    → UsesOnly db after
unfolding consume_all
consume_all-UsesOnly t [] db {after} done =
    (Db.learning_approvals db, Db.learning_uses db, sym (ok-injective done))
consume_all-UsesOnly t (pin ∷ pins) db {after} done =
    let step = >>=-eq-ok (consume t pin db) (λ next. consume_all t pins next) done in
    UsesOnly-chain db step.0 after (consume-UsesOnly t pin db step.1)
      (consume_all-UsesOnly t pins step.0 step.2)

pub admit_learning_uses-UsesOnly :
    (db : Db) (e : Execution) (now : ℤ) {after : Db}
    → admit_learning_uses db e now ≡ ok after
    → UsesOnly db after
unfolding admit_learning_uses
admit_learning_uses-UsesOnly db e now {after} done =
    elim (Option-cases
      (find (λ (t : TaskRow). same t.system_id e.system_id && same t.task_id e.task_id) db.tasks)) [
        | inl no_task ↦ (
          Db.learning_approvals db,
          Db.learning_uses db,
          sym (ok-injective (rw (admit_learning_uses, no_task) at done)),
        )
        | inr (t, hit) ↦
            let opened = rw (admit_learning_uses, hit) at done in
            let step =
              >>=-eq-ok (pending_pins db t now t.tools) (λ pending. consume_all t pending db)
                opened in
            consume_all-UsesOnly t step.0 db step.2
      ]

-- The call that is read is a row of the table, and the one that is asked for.
pub read_execution-All :
    (P : CallRow → Type 0) (db : Db) (system call : Text) {e : Execution}
    → All P db.model_calls
    → read_execution db system call ≡ ok e
    → P e.call × ((same e.system_id system && (same call [] || same e.call_id call)) ≡ true)
unfolding read_execution calls_of
read_execution-All P db system call {e} h done =
    elim (Option-cases (last (calls_of db system call))) [
      | inl no_call ↦ let failed = rw no_call at done in cc
      | inr (c, hit) ↦
          let found = >>=-eq-ok (goal_of db c.system_id c.goal_id) _ (rw hit at done) in
          let same_call : c ≡ e.call = ap Execution.call (ok-injective found.2) in
          let facts =
            All-last _ (calls_of db system call)
              (All-keep P
                (λ (x : CallRow). same x.system_id system && (same call [] || same x.call_id call))
                db.model_calls h)
              hit in
          (
            subst P same_call facts.0,
            subst
                (λ (x : CallRow).
                  (same x.system_id system && (same call [] || same x.call_id call)) ≡ true)
                same_call facts.1,
          )
    ]

-- A candidate is a queued call of the table.
pub candidates-All :
    (P : Text → Type 0) (db : Db)
    → All (λ (c : CallRow). call_queued c.state ≡ true → P c.call_id) db.model_calls
    → All (λ (id : Text × Text). P id.1) (candidates db)
unfolding candidates
candidates-All P db h =
    ids (take max_operators (order_by not_after (waiting_calls db db.model_calls))) (
      All-take Chosen max_operators (order_by not_after (waiting_calls db db.model_calls))
        (All-order_by Chosen not_after (waiting_calls db db.model_calls) (chosen db.model_calls h)))
  where
    Chosen : Waiting → Type 0
    Chosen w = P w.call.call_id

    ids :
        (ws : List Waiting)
        → All Chosen ws
        → All
            (λ (id : Text × Text). P id.1)
            (map (λ (w : Waiting). (w.call.system_id, w.call.call_id)) ws)
    ids [] h = tt
    ids (w ∷ ws) h = (h.0, ids ws h.1)

    chosen :
        (calls : List CallRow)
        → All (λ (c : CallRow). call_queued c.state ≡ true → P c.call_id) calls
        → All Chosen (waiting_calls db calls)
    chosen [] h = tt
    chosen (c ∷ calls) h =
        let rest = chosen calls h.1 in
        let joined = λ (s : SystemRow). same s.system_id c.system_id && call_queued c.state in
        elim (Option-cases (find joined db.systems)) [
          | inl alone ↦ rw (waiting_calls, alone) rest
          | inr (s, hit) ↦
              let parts =
                &&_split (same s.system_id c.system_id) (call_queued c.state)
                  (find-holds joined db.systems hit) in
              rw (waiting_calls, hit) (h.0 parts.1, rest)
        ]
