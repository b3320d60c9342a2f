-- ===== src/Broker/Budget.antt =====
-- Whose token budgets a task draws on, and the checks on its task (state/team_ops.go).
use microoperator.Base.{
  ℕ, zero, suc, ℤ, ◌+ℤ◌, ◌-ℤ◌, le_int, Bool, true, false, not, ◌&&◌, ◌||◌, List, [], ◌∷◌, ◌++◌,
  Text, text, same, contains, length, if◌then◌else◌, Result, ok, err, ◌>>=◌, Error, Option, none,
  some, find,
}
use microoperator.Store.{
  is_stopped, task_terminal, GoalRow, AgentRow, UsageRow, TaskRow, Db, update_where, row,
}
use microoperator.Access.Env.{Env, local_administrator, error_text, denied_task}
use microoperator.Access.Read.{read_agent, Agent, Execution, goal_of}
use microoperator.Access.Pins.{authorize_pins, authorize_model}
use microoperator.Access.Inspect.{System, read_system}
use microoperator.Access.Learning.{read_evaluation, learning_eligible}

agent_of : List AgentRow → Text → Text → Option AgentRow
agent_of agents system id =
    find (λ (a : AgentRow). same a.system_id system && same a.agent_id id) agents

-- The agents from `id` upwards. UNION drops a row that it has, which ends the walk.
lineage_from : List AgentRow → Text → ℕ → List Text → Text → List Text
unfolding agent_of
lineage_from rows system zero seen id = seen
lineage_from rows system (suc fuel) seen id = elim (contains seen id) [
  | true ↦ seen
  | false ↦ elim (agent_of rows system id) [
    | none ↦ seen
    | some a ↦ lineage_from rows system fuel (seen ++ a.agent_id ∷ []) a.parent_id
  ]
]

-- The tasks from `id` upwards: their ids, and the agents that they are assigned to.
parents_from : List TaskRow → Text → ℕ → List Text → List Text → Text → List Text
parents_from rows system zero seen agents id = agents
parents_from rows system (suc fuel) seen agents id = elim (contains seen id) [
  | true ↦ agents
  | false ↦ elim (find (λ (t : TaskRow). same t.system_id system && same t.task_id id) rows) [
    | none ↦ agents
    | some t ↦
        parents_from rows system fuel (t.task_id ∷ seen) (agents ++ t.agent_id ∷ []) t.parent_task
  ]
]

-- UNION
unfoldable pub union : List Text → List Text → List Text
union xs [] = xs
union xs (y ∷ ys) = union (if contains xs y then xs else xs ++ y ∷ []) ys

-- budgetAgents, with one step of each walk for every row that there is.
unfoldable pub budget_agents : List AgentRow → List TaskRow → Text → Text → Text → List Text
unfolding lineage_from parents_from union
budget_agents agents tasks system agent task =
    union (union [] (lineage_from agents system (suc (length agents)) [] agent))
      (parents_from tasks system (suc (length tasks)) [] [] task)

-- The body of the last loop of `checkTaskAdmission`.
has_budget : Db → Execution → Text → Result Bool
has_budget db e id = do
  a ← row (find (λ (a : AgentRow). same a.system_id e.system_id && same a.agent_id id) db.agents)
  u ← row (
      find
        (λ (u : UsageRow).
          same u.system_id a.system_id && same u.agent_id a.agent_id && same u.goal_id e.goal_id)
        db.agent_usage)
  ok (le_int e.reservation (a.token_budget -ℤ u.used_tokens -ℤ u.reserved_tokens))

budget_reason : Db → Execution → List Text → Result Text
budget_reason db e [] = ok []
budget_reason db e (id ∷ ids) =
    let rest = budget_reason db e ids in
    has_budget db e id >>= λ fits.
    if fits then rest else ok (text "agent or ancestor token budget exhausted")

-- `if denied(err) { return err.Error(), nil }; return "", err`
denial : (Error → Bool) → Result (Unit {0}) → Result Text → Result Text
denial denied (ok _) rest = rest
denial denied (err e) rest = if denied e then ok (error_text e) else err e

is_field : Error → Bool
is_field (Error.field _ _) = true
is_field _ = false

evaluation_allowed : Env → Db → TaskRow → Result (Unit {0})
evaluation_allowed env db t =
    if same t.learning_id []
    then ok tt
    else (read_evaluation db t.system_id t.learning_id >>= λ ev.
        learning_eligible env db t.system_id ev env.wall)

-- The reasons of `checkTaskAdmission` for a task, its agent, its goal and its system.
task_reason : Env → Db → Execution → TaskRow → Agent → GoalRow → System → Result Text
unfolding budget_reason has_budget denial is_field evaluation_allowed
task_reason env db e t a g r =
    if is_stopped t.control
      || (is_stopped a.state || (is_stopped g.control || task_terminal t.state))
    then ok (text "task or agent stopped")
    else if not (same e.model a.definition.model)
    then ok (text "model does not match pinned agent revision")
    else denial (λ _. true) (authorize_model env.cfg r.configuration e.model)
        (denial denied_task (evaluation_allowed env db t) (
          denial is_field (authorize_pins env db e.system_id t.tools) (
            budget_reason db e
              (budget_agents db.agents db.tasks e.system_id e.agent_id e.task_id))))

-- checkTaskAdmission: the reason to reject the call, or the empty text. A call of no task passes.
unfoldable pub check_task_admission : Env → Db → Execution → Result Text
unfolding task_reason
check_task_admission env db e =
    elim (find (λ (t : TaskRow). same t.system_id e.system_id && same t.task_id e.task_id)
      db.tasks) [
        | none ↦ ok []
        | some t ↦ read_agent db t.system_id t.agent_id t.agent_revision >>= λ a.
            goal_of db e.system_id e.goal_id >>= λ g.
            read_system env.digests db local_administrator e.system_id >>= λ r.
            task_reason env db e t a g r
      ]

unfoldable pub usage_of : Text → Text → Text → UsageRow → Bool
usage_of system goal id u = same u.system_id system && same u.agent_id id && same u.goal_id goal

-- The loop of `chargeAgents`.
unfoldable pub charge_each : Execution → ℤ → ℤ → List Text → List UsageRow → List UsageRow
unfolding usage_of
charge_each e reserved used [] rows = rows
charge_each e reserved used (id ∷ ids) rows = charge_each e reserved used ids (
    update_where (usage_of e.system_id e.goal_id id)
      (λ (u : UsageRow). record u {
        reserved_tokens = u.reserved_tokens +ℤ reserved;
        used_tokens = u.used_tokens +ℤ used;
      })
      rows)

unfoldable pub charge_agents : Db → Execution → ℤ → ℤ → Db
charge_agents db e reserved used = record db {
  agent_usage =
      charge_each e reserved used
        (budget_agents db.agents db.tasks e.system_id e.agent_id e.task_id) db.agent_usage;
}
