-- ===== src/Examples.antt =====
-- Runs at concrete inputs: a database with one queued call, its session, and a configuration with
-- one model in one quota group.
mod Wire
mod Turns
mod Memories
mod Teams
mod Wakes
mod Providers
mod Runs
mod Settlements
mod Commands
use microoperator.Base.{
  ℕ, zero, suc, ◌+◌, ◌-◌, ◌*◌, ◌≤◌, ◌<◌, ℤ, pos, negsuc, ◌+ℤ◌, ◌-ℤ◌, ◌*ℤ◌, lt_int, le_int, eq_int,
  min_int, max_int, Bool, true, false, not, ◌&&◌, ◌||◌, List, [], ◌∷◌, ◌++◌, map, reverse, Text,
  text, same, contains, contains_byte, length, ltb, leb, ◌==◌, if◌then◌else◌, Result, ok, err,
  fail_if, ◌>>=◌, ◌>>◌, Error, field, Option, none, some, blank, has_prefix, has_suffix, valid_utf8,
  each, all, any, keep, find, take, ◌≡◌, refl, arith,
}
use microoperator.Config.{
  ProviderConfig, ModelConfig, QuotaConfig, SandboxConfig, ToolConfig, OperatorConfig, SystemConfig,
  Configuration, lookup, lookup_or, elements, zero_tool, zero_provider, zero_model, zero_quota,
  zero_sandbox,
}
use microoperator.Store.{
  SystemState, GoalState, Control, TaskState, CallState, AttemptState, DraftState, EvaluationState,
  system_running, system_paused, is_stopped, is_active, task_terminal, call_queued, call_awaiting,
  call_running, call_pending, attempt_running, attempt_open, is_draft, evaluation_active, ToolPin,
  SystemGrants, ModelToolCall, ChatMessage, SystemRow, RevisionRow, GoalRow, AgentRow,
  AgentRevisionRow, UsageRow, TaskRow, CallRow, GroupRow, AttemptRow, QuotaRow, DraftRow,
  RevocationRow, ApprovalRow, UseRow, ProtectedCase, CheckRow, EvaluationRow, AuditRow, Db,
  update_where, last, row, sum_where, count_where, order_by,
}
use microoperator.Base.{All, All-map}
use microoperator.Config.{SystemLimits, ResourceLimits}
use microoperator.Access.Env.{Env, Digests, GrantDefinitions}
use microoperator.Access.Inspect.{pin_of}
use microoperator.Broker.Settle.{ProviderResult}
use microoperator.Broker.Queue.{Session}

abbrev pub constant_digests : Digests
constant_digests = record {
  of_tool = λ t. t.content;
  of_profile = λ p. p.network;
  of_definitions = λ d. text "d";
}

abbrev pub sample_operator : OperatorConfig
sample_operator = record {
  prompt = text "p";
  model = text "m";
  tools = none;
  sandbox_profile = text "s";
}

abbrev pub sample_system : SystemConfig
sample_system = record {
  name = [];
  constraints = [];
  models = none;
  tools = none;
  operator = sample_operator;
  limits = record { max_agents = pos 4; max_active_agents = pos 2; token_budget = pos 100 };
}

abbrev pub sample_quota : QuotaConfig
sample_quota = record {
  requests_per_minute = pos 60;
  tokens_per_minute = pos 50;
  burst_requests = pos 2;
  max_concurrent = pos 1;
  queue_capacity = pos 4;
  max_wait_seconds = pos 30;
}

abbrev pub sample_configuration : Configuration
sample_configuration = record {
  runtime_digest = text "r";
  learning = none;
  bootstrap = none;
  schema_version = pos 1;
  data_dir = [];
  providers = [];
  models =
      (
        text "m",
        record {
          provider = text "x";
          model = text "y";
          quota_groups = text "g" ∷ [];
          max_output_tokens = pos 10;
          input_headroom_percent = pos 0;
        },
      )
      ∷ [];
  quota_groups = (text "g", sample_quota) ∷ [];
  sandbox_profiles = (text "s", zero_sandbox) ∷ [];
  tools = [];
}

abbrev pub sample_env : Env
sample_env = record {
  digests = constant_digests;
  cfg = sample_configuration;
  now = pos 1000;
  wall = pos 1000;
}

abbrev pub sample_call : CallRow
sample_call = record {
  sequence = 1;
  call_id = text "c";
  system_id = text "a";
  goal_id = text "o";
  task_id = text "t";
  activation_id = text "v";
  activation_owner = text "w";
  revision = pos 1;
  model = text "m";
  stream = false;
  state = CallState.queued;
  reason = [];
  response = [];
  reservation = pos 10;
  attempts = 0;
  input_tokens = pos 0;
  output_tokens = pos 0;
  usage_known = false;
  queue_wait_ms = pos 0;
  queued_at = pos 900;
  deadline = pos 5000;
  wait_deadline = pos 4000;
  dispatched_at = pos 0;
  agent_id = text "b";
  request = [];
  actions = [];
}

abbrev pub sample_goal : GoalRow
sample_goal = record {
  goal_id = text "o";
  system_id = text "a";
  prompt = text "p";
  state = GoalState.queued;
  token_budget = pos 40;
  used_tokens = pos 0;
  reserved_tokens = pos 0;
  control = Control.active;
  deadline = pos 0;
  continuous = false;
  task_lifetime_seconds = pos 60;
}

abbrev pub sample_db : Db
sample_db = record {
  systems =
      record {
        system_id = text "a";
        owner = text "local-admin";
        operator_id = text "b";
        state = SystemState.running;
        revision = pos 1;
        used_tokens = pos 20;
        reserved_tokens = pos 0;
        last_admission = 0;
      }
      ∷ [];
  system_revisions =
      record {
        system_id = text "a";
        revision = pos 1;
        definition = sample_system;
        grants = record {
          model = text "m";
          sandbox_profile = text "s";
          system_tools = [];
          operator_tools = [];
          definitions_digest = text "d";
        };
      }
      ∷ [];
  goals = sample_goal ∷ [];
  agents = [];
  agent_revisions = [];
  agent_usage = [];
  tasks = [];
  model_calls = sample_call ∷ [];
  call_groups = record { call_id = text "c"; system_id = text "a"; group_name = text "g" } ∷ [];
  model_attempts = [];
  quota_state = [];
  tool_drafts = [];
  tool_revocations = [];
  learning_approvals = [];
  learning_uses = [];
  learning_checks = [];
  learning_evaluations = [];
  audit = [];
  events = [];
  mailboxes = [];
  artifacts = [];
  memory_heads = [];
  memory_revisions = [];
  schedules = [];
  subscriptions = [];
}

abbrev pub sample_session : Session
sample_session = record {
  system_id = text "a";
  call_id = text "c";
  goal_id = text "o";
  activation_id = text "v";
  activation_owner = text "w";
  revision = pos 1;
}

abbrev pub throttled_result : ProviderResult
throttled_result = record {
  text = [];
  input = pos 3;
  output = pos 0;
  known = true;
  reason = text "busy";
  retry = true;
  cooldown = none;
  retry_delay = pos 500;
  actions = [];
}

abbrev pub read_pin : ToolPin
read_pin = record { name = text "r"; version = pos 1; digest = text "x" }

abbrev pub note_pin : ToolPin
note_pin = record { name = text "n"; version = pos 1; digest = text "y" }

-- The pin of a built-in tool, whose digest is its content here.
abbrev pub text_pin : ToolPin
text_pin = pin_of constant_digests sample_configuration (text "runtime.task.wait")
