-- ===== src/Ledger/Closing.antt =====
-- The books inside `settle` (state/broker.go), from the closing of an attempt to the last write.
use microoperator.Base.{ℤ, pos, Bool, true, false, Text, same, ok, any, find, ◌≡◌, refl}
use microoperator.Store.{
  GoalState, CallState, AttemptState, system_running, call_running, SystemRow, GoalRow, CallRow,
  AttemptRow, Db, last, row,
}
use microoperator.Base.{
  if-true, if-false, Bool-cases, inl, inr, All, All-map, >>=-eq-ok, ok-injective, fail_if-then,
  same_iff, ◌∙◌, ap, sym,
}
use mathlib.Core.Path.{subst}
use microoperator.Store.{All-update_where, All-update_where_to}
use microoperator.Config.{ModelConfig, lookup_or, zero_model}
use microoperator.Access.Env.{Env}
use microoperator.Access.Read.{Execution, audit_execution}
use microoperator.Broker.Budget.{charge_agents}
use microoperator.Broker.Queue.{is_call, is_goal, is_system}
use microoperator.Broker.Settle.{
  retry_call, settle_usage, cooldown_end, ProviderResult, Settled, Throttle, settle_attempt,
  released, settle_known, settle_unknown, negative_system, negative_goal, requeue, settle_retry,
  finish_call, finished_call, throttle_groups, requeued_call, tries_again,
}
use microoperator.Ledger.Sums.{CallInfo, running_tokens, running_tokens-close, running_tokens-other}
use microoperator.Ledger.Books.{Known, Held, Named, GoalHas, Accounts, Books}
use microoperator.Ledger.Steps.{released-Accounts, settle_unknown-Accounts}
use microoperator.Ledger.Frames.{QuotaOnly, throttle_groups-QuotaOnly}

-- The books while the call `id` is settled: its attempt is closed, and its state not yet written.
pub record Closing (info : Text → CallInfo) (id : Text) (db : Db) : Type 0 where
  pub accounts : Accounts info db
  pub named : All Named db.model_calls
  pub others :
      All (λ (c : CallRow). same c.call_id id ≡ false → Held db.model_attempts c) db.model_calls
  pub closed : running_tokens id db.model_attempts ≡ pos 0

module _ (info : Text → CallInfo) (e : Execution) where
  quota-Closing :
      (db after : Db)
      → QuotaOnly db after
      → Closing info e.call_id db
      → Closing info e.call_id after
  quota-Closing db after same_else k = subst (Closing info e.call_id) (sym same_else.1) (record {
    accounts = record {
      calls = k.accounts.calls;
      systems = k.accounts.systems;
      goals = k.accounts.goals;
      usage = k.accounts.usage;
    };
    named = k.named;
    others = k.others;
    closed = k.closed;
  })

  released-Closing :
      (db : Db) (p : ProviderResult)
      → Known info db e.call
      → running_tokens e.call_id db.model_attempts ≡ e.reservation
      → Books info db
      → Closing info e.call_id (released db e p)
  unfolding released charge_agents settle_attempt
  released-Closing db p known held b = record {
    accounts = released-Accounts info db e p known held b.accounts;
    named = b.named;
    others =
        All-map _ _ db.model_calls
          (λ c h differs.
            running_tokens-other e.call_id (settle_attempt p) c.call_id db.model_attempts differs
              (λ a. refl)
            ∙ h)
          b.held;
    closed = running_tokens-close e.call_id (settle_attempt p) db.model_attempts (λ a. refl);
  }

  unknown-Closing : (db : Db) → Books info db → Closing info e.call_id (settle_unknown db e)
  unfolding settle_unknown
  unknown-Closing db b = record {
    accounts = settle_unknown-Accounts info db e b.accounts;
    named = b.named;
    others =
        All-map _ _ db.model_calls
          (λ c h differs.
            running_tokens-other e.call_id lost c.call_id db.model_attempts differs (λ a. refl) ∙ h)
          b.held;
    closed = running_tokens-close e.call_id lost db.model_attempts (λ a. refl);
  }
    where
      lost : AttemptRow → AttemptRow
      lost a = record a { state = AttemptState.unknown }

  -- The write of the state of the call ends the settlement.
  pub finish_call-Books :
      (p : ProviderResult) (s : Settled)
      → call_running s.state ≡ false
      → Closing info e.call_id s.db
      → Books info (finish_call e p s)
  unfolding finish_call audit_execution
  finish_call-Books p s ends k = record {
    accounts = record {
      calls =
          All-update_where (Known info s.db) (is_call e.call_id) (finished_call p s)
            s.db.model_calls (λ c h _. h) k.accounts.calls;
      systems = k.accounts.systems;
      goals = k.accounts.goals;
      usage = k.accounts.usage;
    };
    named =
        All-update_where Named (is_call e.call_id) (finished_call p s) s.db.model_calls (λ c h _. h)
          k.named;
    held =
        All-update_where_to
          (λ (c : CallRow). same c.call_id e.call_id ≡ false → Held s.db.model_attempts c)
          (Held s.db.model_attempts) (is_call e.call_id) (finished_call p s) s.db.model_calls
          (λ c _ hit.
            let nothing =
              ap (λ x. running_tokens x s.db.model_attempts) ((same_iff c.call_id e.call_id).0 hit)
              ∙ k.closed in
            rw ends nothing)
          (λ c h miss. h miss) k.others;
  }

  requeue-Closing :
      (now : ℤ) (state : CallState) (reason : Text) (running : Bool) (t : Throttle)
      → call_running state ≡ false
      → Closing info e.call_id t.db
      → (call_running (Settled.state (requeue now e state reason running t)) ≡ false)
        × Closing info e.call_id (Settled.db (requeue now e state reason running t))
  unfolding requeue
  requeue-Closing now state reason running t ends k =
      elim (Bool-cases (tries_again now e running t)) [
        | inr last ↦ rw last (ends, k)
        | inl again ↦ rw again (
          refl,
          record {
            accounts = record {
              calls =
                  All-update_where (Known info t.db) (is_call e.call_id) (requeued_call now e t)
                    t.db.model_calls (λ c h _. h) k.accounts.calls;
              systems = k.accounts.systems;
              goals =
                  All-update_where (GoalHas info t.db.model_attempts) (is_goal e) waiting t.db.goals
                    (λ g h _. h) k.accounts.goals;
              usage = k.accounts.usage;
            };
            named =
                All-update_where Named (is_call e.call_id) (requeued_call now e t) t.db.model_calls
                  (λ c h _. h) k.named;
            others =
                All-update_where
                  (λ (c : CallRow). same c.call_id e.call_id ≡ false → Held t.db.model_attempts c)
                  (is_call e.call_id) (requeued_call now e t) t.db.model_calls (λ c h _. h)
                  k.others;
            closed = k.closed;
          },
        )
      ]
    where
      waiting : GoalRow → GoalRow
      waiting g = record g { state = GoalState.waiting }

  retry_call-Closing :
      (env : Env) (p : ProviderResult) (state : CallState) (db : Db) {s : Settled}
      → call_running state ≡ false
      → Closing info e.call_id db
      → retry_call env e p state db ≡ ok s
      → (call_running s.state ≡ false) × Closing info e.call_id s.db
  unfolding retry_call
  retry_call-Closing env p state db {s} ends k done =
      let there = >>=-eq-ok (row (find (is_system e) (Db.systems (Throttle.db t)))) _ done in
      subst (λ (x : Settled). (call_running x.state ≡ false) × Closing info e.call_id x.db)
        (ok-injective there.2)
        (requeue-Closing env.now state p.reason (system_running (SystemRow.state there.0)) t ends (
          quota-Closing db t.db
            (throttle_groups-QuotaOnly env.cfg (cooldown_end p env.now)
              (ModelConfig.quota_groups (lookup_or zero_model e.model env.cfg.models))
              (record { db = db; wait = pos 3600; queue_available = true }))
            k))
    where
      t : Throttle
      t =
          throttle_groups env.cfg (cooldown_end p env.now)
            (ModelConfig.quota_groups (lookup_or zero_model e.model env.cfg.models))
            (record { db = db; wait = pos 3600; queue_available = true })

  pub settle_retry-Closing :
      (env : Env) (p : ProviderResult) (state : CallState) (db : Db) {s : Settled}
      → call_running state ≡ false
      → Closing info e.call_id db
      → settle_retry env e p state db ≡ ok s
      → (call_running s.state ≡ false) × Closing info e.call_id s.db
  unfolding settle_retry
  settle_retry-Closing env p state db {s} ends k done = elim (Bool-cases p.retry) [
    | inr final ↦
        subst (λ (x : Settled). (call_running x.state ≡ false) × Closing info e.call_id x.db)
          (ok-injective (sym (if-false p.retry _ _ final) ∙ done)) (ends, k)
    | inl again ↦ retry_call-Closing env p state db ends k (sym (if-true p.retry _ _ again) ∙ done)
  ]

  pub settle_usage-Closing :
      (db : Db) (p : ProviderResult) {used : Db}
      → Known info db e.call
      → running_tokens e.call_id db.model_attempts ≡ e.reservation
      → Books info db
      → settle_usage db e p ≡ ok used
      → Closing info e.call_id used
  unfolding settle_usage settle_known
  settle_usage-Closing db p {used} known held b done = elim (Bool-cases p.known) [
    | inr lost ↦
        subst (Closing info e.call_id) (ok-injective (sym (if-false p.known _ _ lost) ∙ done))
          (unknown-Closing db b)
    | inl told ↦
        let after = released db e p in
        let systems_fit =
          fail_if-then (any negative_system after.systems) _ _
            (sym (if-true p.known _ _ told) ∙ done) in
        let goals_fit = fail_if-then (any negative_goal after.goals) _ (ok after) systems_fit.1 in
        subst (Closing info e.call_id) (ok-injective goals_fit.1)
          (released-Closing db p known held b)
  ]
