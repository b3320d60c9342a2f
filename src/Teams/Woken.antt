-- ===== src/Teams/Woken.antt =====
-- What wakeEligible (state/wakeups.go) guarantees.
use microoperator.Base.{
  ℤ, pos, le_int, le_int→gt, ◌<ℤ◌, Bool, true, false, not, not-not, ◌&&◌, &&_split, ||_split, [],
  Text, text, same, if◌then◌else◌, Result, ok, err, some, find, any, all, ◌≡◌, refl, sym, ap, ◌∙◌,
  Bool-cases, inl, inr, ◌⊎◌, if-true, if-false, >>=-eq-ok, ok-injective,
}
use microoperator.Store.{
  system_running, is_active, task_terminal, SystemRow, GoalRow, AgentRow, TaskRow, Db, row,
  row-found,
}
use microoperator.Access.Env.{Env, denied_task}
use microoperator.Access.Read.{Agent, read_agent, goal_of}
use microoperator.Access.Pins.{same_pin, authorize_pins}
use microoperator.Teams.Wakes.{
  Eligible, completed_task, target_gone, all_active, if_granted, still_held, wake_eligible,
}

if_granted-true :
    (r : Result (Unit {0})) (rest : Result Eligible) {e : Eligible}
    → if_granted r rest ≡ ok e
    → e.0 ≡ true
    → (r ≡ ok tt) × (rest ≡ ok e)
unfolding if_granted
if_granted-true (ok tt) rest h ready = (refl, h)
if_granted-true (err problem) rest {e} h ready = elim (Bool-cases (denied_task problem)) [
  | inl refused ↦
      let never = ap (λ (x : Eligible). x.0) (ok-injective (sym (if-true _ _ _ refused) ∙ h)) in cc
  | inr other ↦ let failed = sym (if-false _ _ _ other) ∙ h in cc
]

false_is_not_true : {b : Bool} → false ≡ b → b ≡ true → ⊥
false_is_not_true never yes_ = cc

held_runs :
    (held runs : Bool) {e : Eligible}
    → (if not held
        then (false, text "wake source grant narrowed by agent revision")
        else (runs, []))
      ≡ e
    → e.0 ≡ true
    → (held ≡ true) × (runs ≡ true)
held_runs true runs {e} h ready = (refl, ap (λ (x : Eligible). x.0) h ∙ ready)
held_runs false runs {e} h ready = absurd (false_is_not_true (ap (λ (x : Eligible). x.0) h) ready)

-- A reason not to wake was not found.
not_ready :
    (b : Bool) (reason : Text) (rest : Result Eligible) {e : Eligible}
    → (if b then ok (false, reason) else rest) ≡ ok e
    → e.0 ≡ true
    → (b ≡ false) × (rest ≡ ok e)
not_ready true reason rest {e} h ready =
    absurd (false_is_not_true (ap (λ (x : Eligible). x.0) (ok-injective h)) ready)
not_ready false reason rest {e} h ready = (refl, h)

-- The pins of a task that has ended are still the agent's.
still_held-pins :
    (db : Db) (t : TaskRow)
    → still_held db t ≡ ok true
    → task_terminal t.state ≡ true
    → (a : Agent) × (read_agent db t.system_id t.agent_id (pos 0) ≡ ok a)
      × (all (λ pin. any (same_pin pin) a.tools) t.tools ≡ true)
unfolding still_held
still_held-pins db t h ended =
    let read =
      >>=-eq-ok (read_agent db t.system_id t.agent_id (pos 0)) _
        (sym (if-false _ _ _ (ap not ended)) ∙ h) in
    (read.0, read.1, ok-injective read.2)

-- The task may be woken now, going by the rows of the database: its system is running; its agent,
-- goal and control are active; unless the goal is continuous, it has not expired; its pins are
-- authorised; and a task that has ended was completed, for a continuous goal, and its pins are still
-- its agent's.
pub record Ready (env : Env) (db : Db) (t : TaskRow) : Type 0 where
  pub system_row : SystemRow
  pub agent : AgentRow
  pub goal : GoalRow
  pub system_read :
      find (λ (s : SystemRow). same s.system_id t.system_id) db.systems ≡ some system_row
  pub agent_read :
      find (λ (a : AgentRow). same a.system_id t.system_id && same a.agent_id t.agent_id) db.agents
      ≡ some agent
  pub goal_read : goal_of db t.system_id t.goal_id ≡ ok goal
  pub system_runs : system_running system_row.state ≡ true
  pub agent_active : is_active agent.state ≡ true
  pub goal_active : is_active goal.control ≡ true
  pub task_active : is_active t.control ≡ true
  pub in_time : (goal.continuous ≡ true) ⊎ (env.now <ℤ goal.deadline)
  pub granted : authorize_pins env db t.system_id t.tools ≡ ok tt
  pub over :
      (task_terminal t.state ≡ false)
      ⊎ ((goal.continuous ≡ true)
          × (completed_task t.state ≡ true)
          × (a : Agent) × (read_agent db t.system_id t.agent_id (pos 0) ≡ ok a)
          × (all (λ pin. any (same_pin pin) a.tools) t.tools ≡ true))

not_late :
    (b : Bool) (deadline now : ℤ)
    → (not b && le_int deadline now) ≡ false
    → (b ≡ true) ⊎ (now <ℤ deadline)
not_late true deadline now h = inl refl
not_late false deadline now h = inr (le_int→gt deadline now h)

not_over : (a b : Bool) → (a && not b) ≡ false → a ≡ true → b ≡ true
not_over true b h ended = not-not b h
not_over false b h ended = cc

-- A task that wakeEligible finds ready has, in the database that it reads, a system that is running
-- and an agent and a goal that are active, and is active itself; its goal is continuous or has time
-- left; authorizePins accepts its pins now; and when the task has ended, it was completed, its goal is
-- continuous, and every one of its pins is still a pin of its agent.
pub wake_eligible-Ready :
    (env : Env) (db : Db) (t : TaskRow) (e : Eligible)
    → wake_eligible env db t ≡ ok e
    → e.0 ≡ true
    → Ready env db t
unfolding wake_eligible target_gone all_active
wake_eligible-Ready env db t e h ready =
    let system = >>=-eq-ok (row (find _ db.systems)) _ h in
    let agent = >>=-eq-ok (row (find _ db.agents)) _ system.2 in
    let goal = >>=-eq-ok (goal_of db t.system_id t.goal_id) _ agent.2 in
    let there = not_ready _ _ _ goal.2 ready in
    let early = not_ready _ _ _ there.1 ready in
    let allowed = if_granted-true _ _ early.1 ready in
    let held = >>=-eq-ok (still_held db t) _ allowed.1 in
    let runs =
      held_runs held.0 (all_active system.0 agent.0 goal.0 t) (ok-injective held.2) ready in
    let s = &&_split (system_running system.0.state) _ runs.1 in
    let a = &&_split (is_active agent.0.state) _ s.1 in
    let g = &&_split (is_active goal.0.control) (is_active t.control) a.1 in
    let gone =
      ||_split (task_terminal t.state && not (goal.0.continuous && completed_task t.state)) _
        there.0 in
    record {
      system_row = system.0;
      agent = agent.0;
      goal = goal.0;
      system_read = row-found _ system.1;
      agent_read = row-found _ agent.1;
      goal_read = goal.1;
      system_runs = s.0;
      agent_active = a.0;
      goal_active = g.0;
      task_active = g.1;
      in_time = not_late goal.0.continuous goal.0.deadline env.now early.0;
      granted = allowed.0;
      over = elim (Bool-cases (task_terminal t.state)) [
        | inr lives ↦ inl lives
        | inl ended ↦
            let done = not_over (task_terminal t.state) _ gone.0 ended in
            let both = &&_split goal.0.continuous (completed_task t.state) done in
            let pins = still_held-pins db t (held.1 ∙ ap ok runs.0) ended in
            inr (both.0, both.1, pins.0, pins.1, pins.2)
      ];
    }
