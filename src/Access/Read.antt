-- ===== src/Access/Read.antt =====
-- readTask, readAgent (state/team_store.go), readExecution (state/execution_store.go).
use microoperator.Base.{
  ℕ, ℤ, pos, eq_int, Bool, true, false, not, ◌&&◌, ◌||◌, List, [], ◌∷◌, ◌++◌, Text, same,
  if◌then◌else◌, Result, ok, ◌>>=◌, any, keep, find,
}
use microoperator.Config.{OperatorConfig}
use microoperator.Store.{
  Control, TaskState, is_active, ToolPin, GoalRow, AgentRow, AgentRevisionRow, TaskRow, CallRow, Db,
  last, row,
}

-- state IN ('queued','running','waiting')
unfoldable pub task_live : TaskState → Bool
task_live TaskState.queued = true
task_live TaskState.running = true
task_live TaskState.waiting = true
task_live _ = false

unfoldable pub read_task : Db → Text → Text → Result TaskRow
read_task db system id = row (find (λ t. same t.system_id system && same t.task_id id) db.tasks)

-- AgentRecord (state/team_store.go)
pub record Agent : Type 0 where
  pub agent_id : Text
  pub parent_id : Text
  pub goal_id : Text
  pub name : Text
  pub revision : ℤ
  pub state : Control
  pub depth : ℕ
  pub token_budget : ℤ
  pub max_turns : ℕ
  pub definition : OperatorConfig
  pub tools : List ToolPin
  pub available : Bool

-- A revision of 0 asks for the current one.
unfoldable pub read_agent : Db → Text → Text → ℤ → Result Agent
unfolding task_live
read_agent db system id revision = do
  a ← row (find (λ (a : AgentRow). same a.system_id system && same a.agent_id id) db.agents)
  r ← row (
      find
        (λ (r : AgentRevisionRow).
          same r.system_id system
          && same r.agent_id id
          && eq_int r.revision (if eq_int revision (pos 0) then a.revision else revision))
        db.agent_revisions)
  let busy =
      any (λ (t : TaskRow). same t.system_id system && same t.agent_id id && task_live t.state)
        db.tasks
  ok (record {
    agent_id = a.agent_id;
    parent_id = a.parent_id;
    goal_id = a.goal_id;
    name = a.name;
    revision = r.revision;
    state = a.state;
    depth = a.depth;
    token_budget = a.token_budget;
    max_turns = a.max_turns;
    definition = r.definition;
    tools = r.tools;
    available = is_active a.state && not busy;
  })

-- ExecutionRecord (state/execution_store.go): a model call, and its goal's part. The state of its
-- task, its number of retries and its time of creation, which are only shown, are left out.
pub record Execution : Type 0 where
  pub call : CallRow
  pub open call use *
  pub prompt : Text
  pub goal_budget : ℤ
  pub goal_used : ℤ
  pub goal_reserved : ℤ
  pub continuous : Bool
  pub event_id : Text
  pub learning_id : Text

unfoldable pub goal_of : Db → Text → Text → Result GoalRow
goal_of db system goal =
    row (find (λ (g : GoalRow). same g.system_id system && same g.goal_id goal) db.goals)

-- The latest call of a system, or the one with this id; call ids are unique.
unfoldable pub calls_of : Db → Text → Text → List CallRow
calls_of db system call =
    keep (λ (c : CallRow). same c.system_id system && (same call [] || same c.call_id call))
      db.model_calls

unfoldable pub read_execution : Db → Text → Text → Result Execution
unfolding goal_of calls_of
read_execution db system call = do
  c ← row (last (calls_of db system call))
  g ← goal_of db c.system_id c.goal_id
  ok (record {
    call = c;
    prompt = g.prompt;
    goal_budget = g.token_budget;
    goal_used = g.used_tokens;
    goal_reserved = g.reserved_tokens;
    continuous = g.continuous;
    event_id = [];
    learning_id = [];
  })

-- auditExecution
unfoldable pub audit_execution : Db → Text → Text → Text → ℤ → Db
audit_execution db system principal action revision = record db {
  audit =
      db.audit
      ++ record { system_id = system; principal = principal; action = action; revision = revision }
        ∷ [];
}
