-- ===== src/Broker/Admission.antt =====
-- What an admission (`admit` of state/broker.go) guarantees: its budgets, its deadlines, its quota
-- groups, and that it dispatches the caller's call or nothing.
use microoperator.Base.{Bool, true, false, List, [], ◌∷◌, map, Text, Result, ok, ◌≡◌, refl}
use microoperator.Store.{CallState, call_queued, CallRow, QuotaRow, Db, update_where}
use microoperator.Base.{Bool-cases, inl, inr, >>=-eq-ok, ok-injective, ◌∙◌, ◌⊎◌, ap, sym}
use mathlib.Core.Path.{subst}
use microoperator.Access.Env.{Env}
use microoperator.Access.Read.{Execution, read_execution}
use microoperator.Broker.Queue.{Session, authorize_call, terminal_call}
use microoperator.Broker.Quota.{Round, check_groups}
use microoperator.Broker.Credit.{cooldown_of, check_groups-cooldown}
use microoperator.Broker.Admit.{
  Admission, Progress, next, stop, candidates, admit, admit_from, admit_one, dispatch,
}
use microoperator.Broker.Decision.{
  Decided, Passed, admit_one-Decided, refused, denied, waits, yields, dispatches, groups_of,
  first_round,
}
use microoperator.Ledger.Frames.{QuotaOnly, check_groups-QuotaOnly}

-- A call without the columns that a waiting call changes in.
abbrev pub erase : CallRow → CallRow
erase c = record c { state = CallState.queued; reason = [] }

-- Only the states and reasons of calls, and the credit of quota groups, may differ.
abbrev pub WaitsOnly : Db → Db → Type 0
WaitsOnly before db =
    (calls : List CallRow) × (rows : List QuotaRow) × (db
      ≡ record before { model_calls = calls; quota_state = rows })
    × (map erase calls ≡ map erase before.model_calls)
    × ((group : Text) → cooldown_of rows group ≡ cooldown_of before.quota_state group)

WaitsOnly-chain : (a b c : Db) → WaitsOnly a b → WaitsOnly b c → WaitsOnly a c
WaitsOnly-chain a b c h k = (
  k.0,
  k.1,
  k.2 ∙ ap (λ (d : Db). record d { model_calls = k.0; quota_state = k.1 }) h.2,
  k.3 ∙ (ap (λ (d : Db). map erase d.model_calls) h.2 ∙ h.3),
  λ group. k.4 group ∙ (ap (λ (d : Db). cooldown_of d.quota_state group) h.2 ∙ h.4 group),
)

WaitsOnly-refl : (db : Db) → WaitsOnly db db
WaitsOnly-refl db = (db.model_calls, db.quota_state, refl, refl, λ group. refl)

erase-update_where :
    (p : CallRow → Bool) (f : CallRow → CallRow) (calls : List CallRow)
    → ((c : CallRow) → erase (f c) ≡ erase c)
    → map erase (update_where p f calls) ≡ map erase calls
erase-update_where p f [] k = refl
erase-update_where p f (c ∷ calls) k = elim (Bool-cases (p c)) [
  | inl hit ↦ rw hit (
      ap (λ x. x ∷ map erase (update_where p f calls)) (k c)
      ∙ ap (λ y. erase c ∷ y) (erase-update_where p f calls k))
  | inr miss ↦ rw miss (ap (λ y. erase c ∷ y) (erase-update_where p f calls k))
]

-- The calls change in state and reason only, after the quota groups were checked.
waits_on :
    (db after : Db) (p : CallRow → Bool) (f : CallRow → CallRow)
    → QuotaOnly db after
    → ((group : Text) → cooldown_of after.quota_state group ≡ cooldown_of db.quota_state group)
    → ((c : CallRow) → erase (f c) ≡ erase c)
    → WaitsOnly db (record after { model_calls = update_where p f after.model_calls })
waits_on db after p f q cools k = (
  update_where p f after.model_calls,
  q.0,
  ap (λ (d : Db). record d { model_calls = update_where p f after.model_calls }) q.1,
  erase-update_where p f after.model_calls k ∙ ap (λ (d : Db). map erase d.model_calls) q.1,
  λ group. ap (λ (d : Db). cooldown_of d.quota_state group) (sym q.1) ∙ cools group,
)

-- How the loop of `admit` dispatches a call: the database that it reads it from, and its checks.
pub record Dispatched (env : Env) (session : Session) (db after : Db) : Type 0 where
  pub before : Db
  pub only_waits : WaitsOnly db before
  pub call : Execution
  pub id : Text × Text
  pub reads : read_execution before id.0 id.1 ≡ ok call
  pub round : Round
  pub uses : Db
  pub passed : Passed env session before call round uses
  pub result : after ≡ dispatch uses call (groups_of env call) round.dispatch_at env.now

Turned : Env → Session → Db → Progress → Type 0
Turned env session db (next after) = WaitsOnly db after
Turned env session db (stop after false) = WaitsOnly db after
Turned env session db (stop after true) = Dispatched env session db after

admit_one-Turned :
    (env : Env) (session : Session) (db : Db) (id : Text × Text) {progress : Progress}
    → admit_one env session db id ≡ ok progress
    → Turned env session db progress
unfolding Turned terminal_call
admit_one-Turned env session db id one =
    let read = admit_one-Decided env session db id one in turned read.0 read.1 read.2
  where
    only_quota :
        (e : Execution) {round : Round}
        → check_groups env.cfg e env.now (groups_of env e) (first_round env db) ≡ ok round
        → QuotaOnly db (Round.db round)
    only_quota e quota =
        check_groups-QuotaOnly env.cfg e env.now (groups_of env e) (first_round env db) quota

    cools :
        (e : Execution) (group : Text) {round : Round}
        → check_groups env.cfg e env.now (groups_of env e) (first_round env db) ≡ ok round
        → cooldown_of (Db.quota_state (Round.db round)) group ≡ cooldown_of db.quota_state group
    cools e group quota =
        check_groups-cooldown env.cfg e env.now (groups_of env e) group (first_round env db) quota

    turned :
        (e : Execution) {progress : Progress}
        → read_execution db id.0 id.1 ≡ ok e
        → Decided env session db e progress
        → Turned env session db progress
    turned e read (refused reason) =
        waits_on db db _ _ (db.quota_state, refl) (λ group. refl) (λ c. refl)
    turned e read (denied round reason quota) =
        waits_on db (Round.db round) _ _ (only_quota e quota) (λ group. cools e group quota)
          (λ c. refl)
    turned e read (waits round quota) =
        waits_on db (Round.db round) _ _ (only_quota e quota) (λ group. cools e group quota)
          (λ c. refl)
    turned e read (yields round quota) =
        let q = only_quota e quota in
        (
          Db.model_calls db,
          q.0,
          q.1,
          refl,
          λ group. ap (λ (d : Db). cooldown_of d.quota_state group) (sym q.1) ∙ cools e group quota,
        )
    turned e read (dispatches round uses passed) = record {
      before = db;
      only_waits = WaitsOnly-refl db;
      call = e;
      id = id;
      reads = read;
      round = round;
      uses = uses;
      passed = passed;
      result = refl;
    }

Ended : Env → Session → Db → Db × Bool → Type 0
Ended env session db (after, false) = WaitsOnly db after
Ended env session db (after, true) = Dispatched env session db after

-- A turn of the loop before the last one only changes calls and quota groups.
Ended-WaitsOnly :
    (env : Env) (session : Session) (db mid : Db) (done : Db × Bool)
    → WaitsOnly db mid
    → Ended env session mid done
    → Ended env session db done
unfolding Ended
Ended-WaitsOnly env session db mid (after, false) h k = WaitsOnly-chain db mid after h k
Ended-WaitsOnly env session db mid (after, true) h k = record {
  before = k.before;
  only_waits = WaitsOnly-chain db mid k.before h k.only_waits;
  call = k.call;
  id = k.id;
  reads = k.reads;
  round = k.round;
  uses = k.uses;
  passed = k.passed;
  result = k.result;
}

admit_from-Ended :
    (env : Env) (session : Session) (ids : List (Text × Text)) (db : Db) {done : Db × Bool}
    → admit_from env session ids db ≡ ok done
    → Ended env session db done
unfolding admit_from Ended Turned
admit_from-Ended env session [] db {done} h =
    subst (Ended env session db) (ok-injective h) (WaitsOnly-refl db)
admit_from-Ended env session (id ∷ ids) db {done} h =
    let turn = >>=-eq-ok (admit_one env session db id) _ h in
    go
      (λ after kept rest.
        Ended-WaitsOnly env session db after done kept
          (admit_from-Ended env session ids after rest))
      turn.0 (admit_one-Turned env session db id turn.1) turn.2
  where
    go :
        ((after : Db)
          → WaitsOnly db after
          → admit_from env session ids after ≡ ok done
          → Ended env session db done)
        → (progress : Progress) → Turned env session db progress
        → (elim progress as (λ _. Result (Db × Bool)) [
          | next after ↦ admit_from env session ids after
          | stop after admitted ↦ ok (after, admitted)
        ])
          ≡ ok done
        → Ended env session db done
    go again (next after) turned rest = again after turned rest
    go again (stop after true) turned rest = subst (Ended env session db) (ok-injective rest) turned
    go again (stop after false) turned rest =
        subst (Ended env session db) (ok-injective rest) turned

pub admit-Dispatched :
    (env : Env) (session : Session) (db : Db) {a : Admission}
    → admit env db session ≡ ok a
    → ((a.admitted ≡ true) × Dispatched env session db a.db)
      ⊎ ((a.admitted ≡ false) × WaitsOnly db a.db)
unfolding admit Ended
admit-Dispatched env session db {a} h =
    let caller = >>=-eq-ok (authorize_call db session) _ h in
    elim (Bool-cases (call_queued caller.0.state)) [
      | inr other ↦
          let same_result = ok-injective (rw other at caller.2) in
          inr (
            sym (ap Admission.admitted same_result),
            subst (WaitsOnly db) (ap Admission.db same_result) (WaitsOnly-refl db),
          )
      | inl queued ↦
          let loop =
            >>=-eq-ok (admit_from env session (candidates db) db) _ (rw queued at caller.2) in
          let result =
            >>=-eq-ok (read_execution loop.0.0 session.system_id session.call_id) _ loop.2 in
          let same_result = ok-injective result.2 in
          finished loop.0 result.0 same_result
            (admit_from-Ended env session (candidates db) db loop.1)
    ]
  where
    finished :
        (done : Db × Bool) (e : Execution)
        → record { db = done.0; result = e; admitted = done.1 } ≡ a
        → Ended env session db done
        → ((a.admitted ≡ true) × Dispatched env session db a.db)
          ⊎ ((a.admitted ≡ false) × WaitsOnly db a.db)
    finished (after, true) e same_result k = inl (
      sym (ap Admission.admitted same_result),
      subst (Dispatched env session db) (ap Admission.db same_result) k,
    )
    finished (after, false) e same_result k = inr (
      sym (ap Admission.admitted same_result),
      subst (WaitsOnly db) (ap Admission.db same_result) k,
    )
