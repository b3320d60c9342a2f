-- ===== src/Ledger/Books.antt =====
-- The invariant of the reserved tokens of systems, goals and agents (the columns `reserved_tokens`
-- that admit, settle and chargeAgents of state/broker.go and state/team_ops.go keep).
use microoperator.Base.{pos, Bool, false, ◌&&◌, List, [], Text, same, contains, if◌then◌else◌, ◌≡◌}
use microoperator.Store.{call_running, SystemRow, GoalRow, UsageRow, CallRow, AttemptRow, Db}
use microoperator.Base.{All}
use microoperator.Broker.Budget.{budget_agents}
use microoperator.Ledger.Sums.{CallInfo, outstanding, running_tokens}

abbrev pub info_of : Db → CallRow → CallInfo
info_of db c = record {
  system = c.system_id;
  goal = c.goal_id;
  reservation = c.reservation;
  agents = budget_agents db.agents db.tasks c.system_id c.agent_id c.task_id;
}

abbrev pub of_system : Text → CallInfo → Bool
of_system system i = same system i.system

abbrev pub of_goal : Text → Text → CallInfo → Bool
of_goal system goal i = same system i.system && same goal i.goal

abbrev pub of_usage : Text → Text → Text → CallInfo → Bool
of_usage system agent goal i = (same system i.system && same goal i.goal) && contains i.agents agent

module _ (info : Text → CallInfo) (attempts : List AttemptRow) where
  abbrev pub SystemHas : SystemRow → Type 0
  SystemHas s = s.reserved_tokens ≡ outstanding info (of_system s.system_id) attempts

  abbrev pub GoalHas : GoalRow → Type 0
  GoalHas g = g.reserved_tokens ≡ outstanding info (of_goal g.system_id g.goal_id) attempts

  abbrev pub UsageHas : UsageRow → Type 0
  UsageHas u =
      u.reserved_tokens ≡ outstanding info (of_usage u.system_id u.agent_id u.goal_id) attempts

abbrev pub Known : (Text → CallInfo) → Db → CallRow → Type 0
Known info db c = info c.call_id ≡ info_of db c

-- Every system, goal and agent has reserved what the open attempts of its calls hold. `info` has
-- the facts of each call by its id.
pub record Accounts (info : Text → CallInfo) (db : Db) : Type 0 where
  pub calls : All (Known info db) db.model_calls
  pub systems : All (SystemHas info db.model_attempts) db.systems
  pub goals : All (GoalHas info db.model_attempts) db.goals
  pub usage : All (UsageHas info db.model_attempts) db.agent_usage

-- A call holds its reservation in flight while it runs, and nothing else.
abbrev pub Held : List AttemptRow → CallRow → Type 0
Held attempts c =
    running_tokens c.call_id attempts ≡ (if call_running c.state then c.reservation else pos 0)

abbrev pub Named : CallRow → Type 0
Named c = same c.call_id [] ≡ false

pub record Books (info : Text → CallInfo) (db : Db) : Type 0 where
  pub accounts : Accounts info db
  pub named : All Named db.model_calls
  pub held : All (Held db.model_attempts) db.model_calls

-- The books are balanced.
unfoldable pub Balanced : Db → Type 0
Balanced db = (info : Text → CallInfo) × Books info db
