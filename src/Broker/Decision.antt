-- ===== src/Broker/Decision.antt =====
-- What one turn of the loop of `admit` (state/broker.go) decides for a candidate.
use microoperator.Base.{
  Bool, true, false, not, List, [], Text, same, if◌then◌else◌, Result, ok, err, ◌≡◌, refl,
}
use microoperator.Store.{CallState, CallRow, Db}
use microoperator.Base.{same_iff, Bool-cases, inl, inr, >>=-eq-ok, ok-injective, ◌∙◌, sym, ap}
use mathlib.Core.Path.{subst}
use microoperator.Config.{ModelConfig, lookup_or, zero_model}
use microoperator.Access.Env.{Env, local_administrator, error_text, denied_task}
use microoperator.Access.Read.{Execution, read_execution}
use microoperator.Access.Inspect.{System, read_system, inspect}
use microoperator.Access.Learning.{admit_learning_uses}
use microoperator.Broker.Budget.{check_task_admission}
use microoperator.Broker.Queue.{Session, terminal_call, update_call}
use microoperator.Broker.Quota.{Round, check_groups}
use microoperator.Broker.Admit.{
  Progress, next, stop, refusal, dispatch, waiting_reason, admit_one, after_reason, after_quota,
  admit_uses,
}

-- The quota groups of the model that a call asks for.
abbrev pub groups_of : Env → Execution → List Text
groups_of env e = ModelConfig.quota_groups (lookup_or zero_model e.model env.cfg.models)

abbrev pub first_round : Env → Db → Round
first_round env db = record { db = db; allowed = true; dispatch_at = env.now }

-- The checks that a call passes before it is dispatched.
pub record Passed (env : Env) (session : Session) (db : Db) (e : Execution) (round : Round)
    (uses : Db) : Type 0 where
  pub found : System
  pub reads : read_system env.digests db local_administrator e.system_id ≡ ok found
  pub unrefused : same (refusal (inspect env found) e env.now) [] ≡ true
  pub task : check_task_admission env db e ≡ ok []
  pub quota : check_groups env.cfg e env.now (groups_of env e) (first_round env db) ≡ ok round
  pub allowed : round.allowed ≡ true
  pub own : same e.call_id session.call_id ≡ true
  pub used : admit_learning_uses round.db e env.now ≡ ok uses

-- The outcomes for a candidate that reads as `e`.
pub data Decided (env : Env) (session : Session) (db : Db) (e : Execution) : Progress → Type 0 where
  refused :
      (reason : Text)
      → Decided env session db e (next (terminal_call db e CallState.rejected reason))
  denied :
      (round : Round) (reason : Text)
      → check_groups env.cfg e env.now (groups_of env e) (first_round env db) ≡ ok round
      → Decided env session db e (next (terminal_call round.db e CallState.rejected reason))
  waits :
      (round : Round)
      → check_groups env.cfg e env.now (groups_of env e) (first_round env db) ≡ ok round
      → Decided env session db e (
          next (
            update_call e.call_id (λ (c : CallRow). record c { reason = waiting_reason }) round.db))
  yields :
      (round : Round)
      → check_groups env.cfg e env.now (groups_of env e) (first_round env db) ≡ ok round
      → Decided env session db e (stop round.db false)
  dispatches :
      (round : Round) (uses : Db)
      → Passed env session db e round uses
      → Decided env session db e
          (stop (dispatch uses e (groups_of env e) round.dispatch_at env.now) true)

if_not-true {ℓ} : {A : Type ℓ} (x y : A) (b : Bool) → b ≡ true → (if not b then x else y) ≡ y
if_not-true x y true h = refl
if_not-true x y false h = cc

module _ (env : Env) (session : Session) (db : Db) (e : Execution) where
  uses-Decided :
      (round : Round) (uses : Result Db) {progress : Progress}
      → check_groups env.cfg e env.now (groups_of env e) (first_round env db) ≡ ok round
      → ((after : Db) → uses ≡ ok after → Passed env session db e round after)
      → admit_uses uses round e (groups_of env e) env.now ≡ ok progress
      → Decided env session db e progress
  unfolding admit_uses
  uses-Decided round (ok after) {progress} quota passed done =
      subst (Decided env session db e) (ok-injective done)
        (dispatches round after (passed after refl))
  uses-Decided round (err problem) {progress} quota passed done =
      elim (Bool-cases (denied_task problem)) [
        | inl denial ↦
            subst (Decided env session db e) (ok-injective (rw denial at done))
              (denied round (error_text problem) quota)
        | inr fatal ↦ let failed = rw fatal at done in cc
      ]

  quota-Decided :
      (found : System) (round : Round) {progress : Progress}
      → read_system env.digests db local_administrator e.system_id ≡ ok found
      → same (refusal (inspect env found) e env.now) [] ≡ true
      → check_task_admission env db e ≡ ok []
      → check_groups env.cfg e env.now (groups_of env e) (first_round env db) ≡ ok round
      → after_quota session e (groups_of env e) env.now round ≡ ok progress
      → Decided env session db e progress
  unfolding after_quota
  quota-Decided found round {progress} reads unrefused task quota done =
      elim (Bool-cases round.allowed) [
        | inr full ↦
            subst (Decided env session db e) (ok-injective (rw full at done)) (waits round quota)
        | inl open_groups ↦
            let past = sym (if_not-true _ _ round.allowed open_groups) ∙ done in
            elim (Bool-cases (same e.call_id session.call_id)) [
              | inr other ↦
                  subst (Decided env session db e) (ok-injective (rw other at past))
                    (yields round quota)
              | inl mine ↦
                  uses-Decided round (admit_learning_uses round.db e env.now) quota
                    (λ after used. record {
                      found = found;
                      reads = reads;
                      unrefused = unrefused;
                      task = task;
                      quota = quota;
                      allowed = open_groups;
                      own = mine;
                      used = used;
                    })
                    (rw mine at past)
            ]
      ]

  -- An empty reason comes from an unrefused call whose task is admitted.
  no_reason :
      (reason : Text) (task : Result Text) {why : Text}
      → (if same reason [] then task else ok reason) ≡ ok why
      → same why [] ≡ true
      → (same reason [] ≡ true) × (task ≡ ok [])
  no_reason reason task {why} done empty = elim (Bool-cases (same reason [])) [
    | inl none_found ↦ (none_found, (rw none_found at done) ∙ ap ok ((same_iff why []).0 empty))
    | inr found ↦
        let same_reason : reason ≡ why = ok-injective (rw found at done) in
        let clash = subst (λ x. same x [] ≡ false) same_reason found in cc
  ]

pub admit_one-Decided :
    (env : Env) (session : Session) (db : Db) (id : Text × Text) {progress : Progress}
    → admit_one env session db id ≡ ok progress
    → (e : Execution) × (read_execution db id.0 id.1 ≡ ok e) × Decided env session db e progress
unfolding admit_one after_reason
admit_one-Decided env session db (system, call) {progress} done =
    let read = >>=-eq-ok (read_execution db system call) _ done in
    let e = read.0 in
    let sys = >>=-eq-ok (read_system env.digests db local_administrator e.system_id) _ read.2 in
    let reason = refusal (inspect env sys.0) e env.now in
    let task = check_task_admission env db e in
    let why = >>=-eq-ok (if same reason [] then task else ok reason) _ sys.2 in
    elim (Bool-cases (same why.0 [])) [
      | inr given ↦ (
        e,
        read.1,
        subst (Decided env session db e) (ok-injective (rw given at why.2)) (refused why.0),
      )
      | inl empty ↦
          let passed = no_reason env session db e reason task why.1 empty in
          let round =
            >>=-eq-ok (check_groups env.cfg e env.now (groups_of env e) (first_round env db)) _
              (rw empty at why.2) in
          (
            e,
            read.1,
            quota-Decided env session db e sys.0 round.0 sys.1 passed.0 passed.1 round.1 round.2,
          )
    ]
