-- ===== src/Ledger/Admitted.antt =====
-- The books through the loop of `admit` (state/broker.go).
use microoperator.Base.{
  pos, Bool, true, false, ◌||◌, List, [], ◌∷◌, Text, same, Result, ok, ◌≡◌, refl,
}
use microoperator.Store.{CallState, call_queued, call_running, CallRow, Db}
use microoperator.Base.{
  Bool-cases, inl, inr, All, All-map, >>=-eq-ok, ok-injective, &&_split, same_iff, ◌∙◌, ap, sym,
}
use mathlib.Core.Path.{subst}
use microoperator.Access.Env.{Env}
use microoperator.Access.Read.{Execution, read_execution}
use microoperator.Broker.Queue.{Session, authorize_call, terminal_call}
use microoperator.Broker.Admit.{
  Admission, Progress, next, stop, candidates, admit, admit_from, waiting_reason, admit_one,
}
use microoperator.Broker.Decision.{
  Decided, admit_one-Decided, refused, denied, waits, yields, dispatches, groups_of, first_round,
}
use microoperator.Ledger.Sums.{CallInfo, running_tokens}
use microoperator.Ledger.Books.{Known, Held, Named, Books}
use microoperator.Ledger.Frames.{
  QuotaOnly, UsesOnly, check_groups-QuotaOnly, admit_learning_uses-UsesOnly, read_execution-All,
  candidates-All,
}
use microoperator.Ledger.Keeps.{
  read_execution-Held, terminal_call-Books, update_call-Books, dispatch-Books,
}

-- The books after a turn of the loop; while it goes on, the attempts stay as they are.
After : (Text → CallInfo) → Db → Progress → Type 0
After info db (next after) = Books info after × (after.model_attempts ≡ db.model_attempts)
After info db (stop after admitted) = Books info after

module _ (info : Text → CallInfo) where
  quota-Books : (db after : Db) → QuotaOnly db after → Books info db → Books info after
  quota-Books db after same_else b = subst (Books info) (sym same_else.1) (record {
    accounts = record {
      calls = b.accounts.calls;
      systems = b.accounts.systems;
      goals = b.accounts.goals;
      usage = b.accounts.usage;
    };
    named = b.named;
    held = b.held;
  })

  uses-Books : (db after : Db) → UsesOnly db after → Books info db → Books info after
  uses-Books db after same_else b = subst (Books info) (sym same_else.2) (record {
    accounts = record {
      calls = b.accounts.calls;
      systems = b.accounts.systems;
      goals = b.accounts.goals;
      usage = b.accounts.usage;
    };
    named = b.named;
    held = b.held;
  })

  Decided-After :
      (env : Env) (session : Session) (db : Db) (e : Execution) {progress : Progress}
      → Decided env session db e progress
      → running_tokens e.call_id db.model_attempts ≡ pos 0
      → Known info db e.call
      → Books info db
      → After info db progress
  unfolding After terminal_call
  Decided-After env session db e (refused reason) idle known b =
      (terminal_call-Books info db e CallState.rejected reason refl idle b, refl)
  Decided-After env session db e (denied round reason quota) idle known b =
      let q =
        check_groups-QuotaOnly env.cfg e env.now (groups_of env e) (first_round env db) quota in
      let attempts = ap Db.model_attempts q.1 in
      (
        terminal_call-Books info round.db e CallState.rejected reason refl
            (ap (running_tokens e.call_id) attempts ∙ idle) (quota-Books db round.db q b),
        attempts,
      )
  Decided-After env session db e (waits round quota) idle known b =
      let q =
        check_groups-QuotaOnly env.cfg e env.now (groups_of env e) (first_round env db) quota in
      (
        update_call-Books info round.db e.call_id
            (λ (c : CallRow). record c { reason = waiting_reason }) (λ c h. h) (λ c h. h)
            (λ c h _. h) (quota-Books db round.db q b),
        ap Db.model_attempts q.1,
      )
  Decided-After env session db e (yields round quota) idle known b =
      quota-Books db round.db
        (check_groups-QuotaOnly env.cfg e env.now (groups_of env e) (first_round env db) quota) b
  Decided-After env session db e (dispatches round uses passed) idle known b =
      let q =
        check_groups-QuotaOnly env.cfg e env.now (groups_of env e) (first_round env db)
          passed.quota in
      let u = admit_learning_uses-UsesOnly round.db e env.now passed.used in
      let attempts = ap Db.model_attempts u.2 ∙ ap Db.model_attempts q.1 in
      let known_round = subst (λ d. Known info d e.call) (sym q.1) known in
      dispatch-Books info uses e (groups_of env e) round.dispatch_at env.now
        (subst (λ d. Known info d e.call) (sym u.2) known_round)
        (ap (running_tokens e.call_id) attempts ∙ idle)
        (uses-Books round.db uses u (quota-Books db round.db q b))

  Idle : Db → (Text × Text) → Type 0
  Idle db id = running_tokens id.1 db.model_attempts ≡ pos 0

  -- The call that is read for a candidate is the candidate.
  candidate_idle :
      (db : Db) (system call : Text) {e : Execution}
      → Books info db
      → read_execution db system call ≡ ok e
      → running_tokens call db.model_attempts ≡ pos 0
      → same call [] ≡ false
      → running_tokens e.call_id db.model_attempts ≡ pos 0
  candidate_idle db system call {e} b read idle named =
      let found = (read_execution-All Named db system call b.named read).1 in
      let either =
        (&&_split (same e.system_id system) (same call [] || same e.call_id call) found).1 in
      let same_call = (same_iff e.call_id call).0 (rw named at either) in
      ap (λ x. running_tokens x db.model_attempts) same_call ∙ idle

  admit_from-Books :
      (env : Env) (session : Session) (ids : List (Text × Text)) (db : Db) {done : Db × Bool}
      → Books info db
      → All (λ (id : Text × Text). running_tokens id.1 db.model_attempts ≡ pos 0) ids
      → All (λ (id : Text × Text). same id.1 [] ≡ false) ids
      → admit_from env session ids db ≡ ok done
      → Books info done.0
  unfolding admit_from After
  admit_from-Books env session [] db b idle named ok_done =
      subst (λ (d : Db × Bool). Books info d.0) (ok-injective ok_done) b
  admit_from-Books env session (id ∷ ids) db {done} b idle named ok_done =
      let turn = >>=-eq-ok (admit_one env session db id) _ ok_done in
      go
        (λ after kept rest_idle next_done.
          admit_from-Books env session ids after kept rest_idle named.1 next_done)
        turn.0 turn.1 turn.2
    where
      go :
          ((after : Db)
            → Books info after
            → All (λ (x : Text × Text). running_tokens x.1 after.model_attempts ≡ pos 0) ids
            → admit_from env session ids after ≡ ok done
            → Books info done.0)
          → (progress : Progress) → admit_one env session db id ≡ ok progress
          → (elim progress as (λ _. Result (Db × Bool)) [
            | next after ↦ admit_from env session ids after
            | stop after admitted ↦ ok (after, admitted)
          ])
            ≡ ok done
          → Books info done.0
      go again (next after) one rest =
          let read = admit_one-Decided env session db id one in
          let facts = read_execution-Held info db id.0 id.1 b read.1 in
          let kept =
            Decided-After env session db read.0 read.2
              (candidate_idle db id.0 id.1 b read.1 idle.0 named.0) facts.1 b in
          again after kept.0 (All-map _ _ ids (λ x h. ap (running_tokens x.1) kept.1 ∙ h) idle.1)
            rest
      go again (stop after admitted) one rest =
          let read = admit_one-Decided env session db id one in
          let facts = read_execution-Held info db id.0 id.1 b read.1 in
          subst (λ (d : Db × Bool). Books info d.0) (ok-injective rest)
            (Decided-After env session db read.0 read.2
              (candidate_idle db id.0 id.1 b read.1 idle.0 named.0) facts.1 b)

  pub admit-Books :
      (env : Env) (session : Session) (db : Db) {done : Admission}
      → Books info db
      → admit env db session ≡ ok done
      → Books info done.db
  unfolding admit
  admit-Books env session db {done} b ok_done =
      let caller = >>=-eq-ok (authorize_call db session) _ ok_done in
      elim (Bool-cases (call_queued caller.0.state)) [
        | inr other ↦
            subst (λ (a : Admission). Books info a.db) (ok-injective (rw other at caller.2)) b
        | inl queued ↦
            let loop =
              >>=-eq-ok (admit_from env session (candidates db) db) _ (rw queued at caller.2) in
            let result =
              >>=-eq-ok (read_execution loop.0.0 session.system_id session.call_id) _ loop.2 in
            subst (λ (a : Admission). Books info a.db) (ok-injective result.2)
              (admit_from-Books env session (candidates db) db b
                (candidates-All (λ id. running_tokens id db.model_attempts ≡ pos 0) db
                  (All-map _ _ db.model_calls (λ c h waiting. queued_idle c waiting h) b.held))
                (candidates-All (λ id. same id [] ≡ false) db
                  (All-map _ _ db.model_calls (λ c h waiting. h) b.named))
                loop.1)
      ]
    where
      queued_not_running : (s : CallState) → call_queued s ≡ true → call_running s ≡ false
      queued_not_running CallState.queued h = refl
      queued_not_running CallState.awaiting_worker h = refl
      queued_not_running CallState.running h = cc
      queued_not_running CallState.completed h = refl
      queued_not_running CallState.failed h = refl
      queued_not_running CallState.canceled h = refl
      queued_not_running CallState.rejected h = refl
      queued_not_running CallState.unknown h = refl

      queued_idle :
          (c : CallRow)
          → call_queued c.state ≡ true
          → Held db.model_attempts c
          → running_tokens c.call_id db.model_attempts ≡ pos 0
      queued_idle c waiting h = rw (queued_not_running c.state waiting) at h
