-- ===== src/Ledger/Settled.antt =====
-- The books through `settle` (state/broker.go), and through queue and CancelModelCall.
use microoperator.Base.{true, false, [], Text, same, ok, ◌≡◌, refl}
use microoperator.Store.{
  GoalState, CallState, call_awaiting, call_running, call_pending, GoalRow, CallRow, Db,
}
use microoperator.Base.{Bool-cases, inl, inr, >>=-eq-ok, ok-injective, ◌∙◌, ap}
use mathlib.Core.Path.{subst}
use microoperator.Store.{All-update_where}
use microoperator.Access.Env.{Env}
use microoperator.Broker.Queue.{
  Session, authorize_call, queue, canceled_reason, cancel_model_call, is_goal,
}
use microoperator.Broker.Settle.{
  settle_usage, settle_running, ProviderResult, settle_retry, settle_state, settle,
}
use microoperator.Ledger.Sums.{CallInfo, running_tokens}
use microoperator.Ledger.Books.{GoalHas, Books}
use microoperator.Ledger.Keeps.{
  authorize_call-reads, read_execution-Held, terminal_call-Books, update_call-Books,
}
use microoperator.Ledger.Closing.{finish_call-Books, settle_retry-Closing, settle_usage-Closing}

pub settled_not_running : (p : ProviderResult) → call_running (settle_state p) ≡ false
unfolding settle_state
settled_not_running p = elim (Bool-cases p.known) [
  | inr lost ↦ rw lost refl
  | inl told ↦
      rw told elim (Bool-cases (same p.reason [])) [
        | inl fine ↦ rw fine refl
        | inr failed ↦ rw failed refl
      ]
]

awaiting_not_running : (s : CallState) → call_awaiting s ≡ true → call_running s ≡ false
awaiting_not_running CallState.awaiting_worker h = refl
awaiting_not_running CallState.running h = cc
awaiting_not_running CallState.queued h = refl
awaiting_not_running CallState.completed h = refl
awaiting_not_running CallState.failed h = refl
awaiting_not_running CallState.canceled h = refl
awaiting_not_running CallState.rejected h = refl
awaiting_not_running CallState.unknown h = refl

pending_not_running : (s : CallState) → call_pending s ≡ true → call_running s ≡ false
pending_not_running CallState.awaiting_worker h = refl
pending_not_running CallState.running h = cc
pending_not_running CallState.queued h = refl
pending_not_running CallState.completed h = refl
pending_not_running CallState.failed h = refl
pending_not_running CallState.canceled h = refl
pending_not_running CallState.rejected h = refl
pending_not_running CallState.unknown h = refl

module _ (info : Text → CallInfo) (db : Db) (session : Session) where
  pub settle-Books :
      (env : Env) (p : ProviderResult) {after : Db}
      → Books info db
      → settle env db session p ≡ ok after
      → Books info after
  unfolding settle settle_running
  settle-Books env p {after} b done =
      let caller = >>=-eq-ok (authorize_call db session) _ done in
      let e = caller.0 in
      let facts =
        read_execution-Held info db session.system_id session.call_id b
          (authorize_call-reads db session caller.1) in
      elim (Bool-cases (call_running e.state)) [
        | inr other ↦ subst (Books info) (ok-injective (rw other at caller.2)) b
        | inl runs ↦
            let used = >>=-eq-ok (settle_usage db e p) _ (rw runs at caller.2) in
            let s = >>=-eq-ok (settle_retry env e p (settle_state p) used.0) _ used.2 in
            let closing =
              settle_usage-Closing info e db p facts.1 (rw runs at (facts.0)) b used.1 in
            let ended =
              settle_retry-Closing info e env p (settle_state p) used.0 (settled_not_running p)
                closing s.1 in
            subst (Books info) (ok-injective s.2) (finish_call-Books info e p s.0 ended.0 ended.1)
      ]

  pub queue-Books : {after : Db} → Books info db → queue db session ≡ ok after → Books info after
  unfolding queue
  queue-Books {after} b done =
      let caller = >>=-eq-ok (authorize_call db session) _ done in
      let e = caller.0 in
      let facts =
        read_execution-Held info db session.system_id session.call_id b
          (authorize_call-reads db session caller.1) in
      elim (Bool-cases (call_awaiting e.state)) [
        | inr other ↦ subst (Books info) (ok-injective (rw other at caller.2)) b
        | inl waits ↦
            let idle = rw (awaiting_not_running e.state waits) at (facts.0) in
            let queued =
              update_call-Books info db e.call_id queued_call (λ c h. h) (λ c h. h)
                (λ c h same_call. ap (λ x. running_tokens x db.model_attempts) same_call ∙ idle)
                b in
            subst (Books info) (ok-injective (rw waits at caller.2)) (record {
              accounts = record {
                calls = queued.accounts.calls;
                systems = queued.accounts.systems;
                goals =
                    All-update_where (GoalHas info db.model_attempts) (is_goal e) waiting db.goals
                      (λ g h _. h) queued.accounts.goals;
                usage = queued.accounts.usage;
              };
              named = queued.named;
              held = queued.held;
            })
      ]
    where
      queued_call : CallRow → CallRow
      queued_call c = record c { state = CallState.queued }

      waiting : GoalRow → GoalRow
      waiting g = record g { state = GoalState.waiting }

  pub cancel_model_call-Books :
      {after : Db} → Books info db → cancel_model_call db session ≡ ok after → Books info after
  unfolding cancel_model_call
  cancel_model_call-Books {after} b done =
      let caller = >>=-eq-ok (authorize_call db session) _ done in
      let e = caller.0 in
      let facts =
        read_execution-Held info db session.system_id session.call_id b
          (authorize_call-reads db session caller.1) in
      elim (Bool-cases (call_pending e.state)) [
        | inr other ↦ subst (Books info) (ok-injective (rw other at caller.2)) b
        | inl pending ↦ subst (Books info) (ok-injective (rw pending at caller.2)) (
            terminal_call-Books info db e CallState.canceled canceled_reason refl
              (rw (pending_not_running e.state pending) at (facts.0)) b)
      ]
