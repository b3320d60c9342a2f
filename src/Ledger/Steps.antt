-- ===== src/Ledger/Steps.antt =====
-- The accounts through the admission of a call (`dispatch`), and the closing of its attempt
-- (`settle_known`, `settle_unknown`), of state/broker.go.
use microoperator.Base.{
  suc, ℤ, pos, ◌+ℤ◌, ◌-ℤ◌, Bool, true, false, ◌&&◌, List, [], ◌∷◌, ◌++◌, Text, if◌then◌else◌, ◌≡◌,
  refl,
}
use microoperator.Store.{AttemptState, attempt_open, UsageRow, AttemptRow, Db, update_where}
use microoperator.Base.{sym, ◌∙◌, ap, int_laws, All, All-map}
use microoperator.Store.{All-update_where, All-update_where_to, sum_where-append}
use microoperator.Access.Read.{Execution, audit_execution}
use microoperator.Broker.Budget.{budget_agents, charge_agents}
use microoperator.Broker.Queue.{is_goal, is_system, is_call}
use microoperator.Broker.Admit.{
  dispatch, max_attempt, new_attempt, reserve_system, reserve_goal, start_call,
}
use microoperator.Broker.Settle.{
  ProviderResult, release_system, release_goal, released, settle_unknown, settle_attempt,
  running_of,
}
use microoperator.Ledger.Charge.{charge_each-charged, charged-contains, budget_agents-Distinct}
use microoperator.Ledger.Sums.{
  CallInfo, outstanding, running_tokens, outstanding-close, outstanding-unknown,
}
use microoperator.Ledger.Books.{
  Known, SystemHas, GoalHas, UsageHas, info_of, of_system, of_goal, of_usage, Accounts,
}

-- Charging the agents of a call adds the amount to the rows that the call draws on.
charge_agents-adds :
    (info : Text → CallInfo) (db : Db) (e : Execution) (amount used : ℤ)
    (before : Text → Text → Text → ℤ)
    → info e.call_id ≡ info_of db e.call
    → All
        (λ (u : UsageRow). u.reserved_tokens ≡ before u.system_id u.agent_id u.goal_id)
        db.agent_usage
    → All
        (λ (u : UsageRow).
          u.reserved_tokens
          ≡ before u.system_id u.agent_id u.goal_id
            +ℤ (if of_usage u.system_id u.agent_id u.goal_id (info e.call_id)
                then amount
                else pos 0))
        (Db.agent_usage (charge_agents db e amount used))
unfolding charge_agents
charge_agents-adds info db e amount used before known h =
    let ids = budget_agents db.agents db.tasks e.system_id e.agent_id e.task_id in
    All-map _ _ _
      (λ u sum. rw known (
        sum
        ∙ ap (λ x. before u.system_id u.agent_id u.goal_id +ℤ x)
            (charged-contains e amount ids u.system_id u.agent_id u.goal_id
              (budget_agents-Distinct db.agents db.tasks e.system_id e.agent_id e.task_id))))
      (charge_each-charged e amount used ids db.agent_usage before h)

module _ (info : Text → CallInfo) (q : CallInfo → Bool) where
  outstanding-reserve :
      (attempts : List AttemptRow) (a : AttemptRow)
      → attempt_open a.state ≡ true
      → outstanding info q (attempts ++ a ∷ [])
        ≡ outstanding info q attempts +ℤ (if q (info a.call_id) then a.reservation else pos 0)
  unfolding outstanding
  outstanding-reserve attempts a held =
      let sum =
        sum_where-append (λ (x : AttemptRow). attempt_open x.state && q (info x.call_id))
          AttemptRow.reservation attempts (a ∷ []) in
      let one = rw held at sum in grind (int_laws, one)

pub dispatch-Accounts :
    (info : Text → CallInfo) (db : Db) (e : Execution) (groups : List Text) (dispatch_at now : ℤ)
    → info e.call_id ≡ info_of db e.call
    → Accounts info db
    → Accounts info (dispatch db e groups dispatch_at now)
unfolding dispatch charge_agents audit_execution
dispatch-Accounts info db e groups dispatch_at now known acc = record {
  calls =
      All-update_where (Known info db) (is_call e.call_id) (start_call e dispatch_at now)
        db.model_calls (λ c h _. h) acc.calls;
  systems =
      All-update_where_to (SystemHas info db.model_attempts) (SystemHas info open_attempts)
        (is_system e) (reserve_system e (suc (max_attempt db.model_attempts))) db.systems
        (λ s h hit. rw (reserve (of_system s.system_id)) rw known rw hit rw h refl)
        (λ s h miss. rw (reserve (of_system s.system_id)) rw known rw miss grind (int_laws, h))
        acc.systems;
  goals =
      All-update_where_to (GoalHas info db.model_attempts) (GoalHas info open_attempts) (is_goal e)
        (reserve_goal e) db.goals
        (λ g h hit. rw (reserve (of_goal g.system_id g.goal_id)) rw known rw hit rw h refl)
        (λ g h miss.
          rw (reserve (of_goal g.system_id g.goal_id)) rw known rw miss grind (int_laws, h))
        acc.goals;
  usage =
      All-map _ (UsageHas info open_attempts) _
        (λ u sum. rw (reserve (of_usage u.system_id u.agent_id u.goal_id)) sum)
        (charge_agents-adds info db e e.reservation (pos 0)
          (λ system agent goal. outstanding info (of_usage system agent goal) db.model_attempts)
          known acc.usage);
}
  where
    open_attempts : List AttemptRow
    open_attempts = db.model_attempts ++ new_attempt db e dispatch_at ∷ []

    reserve :
        (q : CallInfo → Bool)
        → outstanding info q open_attempts
          ≡ outstanding info q db.model_attempts
            +ℤ (if q (info e.call_id) then e.reservation else pos 0)
    reserve q = outstanding-reserve info q db.model_attempts (new_attempt db e dispatch_at) refl

-- The accounts when the attempt in flight of a call is closed, and what it held is released.
pub released-Accounts :
    (info : Text → CallInfo) (db : Db) (e : Execution) (p : ProviderResult)
    → info e.call_id ≡ info_of db e.call
    → running_tokens e.call_id db.model_attempts ≡ e.reservation
    → Accounts info db
    → Accounts info (released db e p)
unfolding released charge_agents settle_attempt
released-Accounts info db e p known held acc = record {
  calls = acc.calls;
  systems =
      All-update_where_to (SystemHas info db.model_attempts) (SystemHas info closed) (is_system e)
        (release_system e (p.input +ℤ p.output)) db.systems
        (λ s h hit. rw (close (of_system s.system_id)) rw known rw hit rw h rw held refl)
        (λ s h miss. rw (close (of_system s.system_id)) rw known rw miss grind (int_laws, h))
        acc.systems;
  goals =
      All-update_where_to (GoalHas info db.model_attempts) (GoalHas info closed) (is_goal e)
        (release_goal e (p.input +ℤ p.output)) db.goals
        (λ g h hit. rw (close (of_goal g.system_id g.goal_id)) rw known rw hit rw h rw held refl)
        (λ g h miss.
          rw (close (of_goal g.system_id g.goal_id)) rw known rw miss grind (int_laws, h))
        acc.goals;
  usage =
      All-map _ (UsageHas info closed) _
        (λ u sum. rw (close (of_usage u.system_id u.agent_id u.goal_id)) rw held (
          give_back (of_usage u.system_id u.agent_id u.goal_id (info e.call_id)) u.reserved_tokens _
            e.reservation sum))
        (charge_agents-adds info db e (pos 0 -ℤ e.reservation) (p.input +ℤ p.output)
          (λ system agent goal. outstanding info (of_usage system agent goal) db.model_attempts)
          known acc.usage);
}
  where
    closed : List AttemptRow
    closed = update_where (running_of e.call_id) (settle_attempt p) db.model_attempts

    close :
        (q : CallInfo → Bool)
        → outstanding info q closed
          ≡ outstanding info q db.model_attempts
            -ℤ (if q (info e.call_id) then running_tokens e.call_id db.model_attempts else pos 0)
    close q = outstanding-close info q e.call_id (settle_attempt p) db.model_attempts (λ a. refl)

    give_back :
        (b : Bool) (total before amount : ℤ)
        → total ≡ before +ℤ (if b then pos 0 -ℤ amount else pos 0)
        → total ≡ before -ℤ (if b then amount else pos 0)
    give_back true total before amount h = grind (int_laws, h)
    give_back false total before amount h = grind (int_laws, h)

-- An attempt of unknown outcome keeps its reservation.
pub settle_unknown-Accounts :
    (info : Text → CallInfo) (db : Db) (e : Execution)
    → Accounts info db
    → Accounts info (settle_unknown db e)
unfolding settle_unknown
settle_unknown-Accounts info db e acc = record {
  calls = acc.calls;
  systems =
      All-map (SystemHas info db.model_attempts) (SystemHas info after) db.systems
        (λ s h. h ∙ sym (same_total (of_system s.system_id))) acc.systems;
  goals =
      All-map (GoalHas info db.model_attempts) (GoalHas info after) db.goals
        (λ g h. h ∙ sym (same_total (of_goal g.system_id g.goal_id))) acc.goals;
  usage =
      All-map (UsageHas info db.model_attempts) (UsageHas info after) db.agent_usage
        (λ u h. h ∙ sym (same_total (of_usage u.system_id u.agent_id u.goal_id))) acc.usage;
}
  where
    after : List AttemptRow
    after =
        update_where (running_of e.call_id)
          (λ (a : AttemptRow). record a { state = AttemptState.unknown }) db.model_attempts

    same_total :
        (q : CallInfo → Bool) → outstanding info q after ≡ outstanding info q db.model_attempts
    same_total q = outstanding-unknown info q e.call_id db.model_attempts
