-- ===== src/Examples/Settlements.antt =====
-- Tests and witnesses of the sessions and settlements of the broker.
use microoperator.Base.{◌≡◌, refl, true, false, pos, ◌+ℤ◌, ◌≤ℤ◌, ok, arith}
use microoperator.Store.{Db, call_running}
use microoperator.Examples.{sample_env, sample_db, sample_session, throttled_result}
use microoperator.Access.Read.{Execution}
use microoperator.Broker.Final.{Final}
use microoperator.Broker.Settle.{ProviderResult}
use microoperator.Access.Env.{Env}
use microoperator.Ledger.Books.{Balanced}
use microoperator.Ledger.Constraints.{NonNegative}
use microoperator.Ledger.Commits.{HasSystem, settle-commits}
use microoperator.Ledger.History.{admits, here, then, Reach-Balanced}
use microoperator.Examples.Runs.{admit_run, sample-Balanced}
use microoperator.Base.{◌+ℤ◌, ◌-ℤ◌, ◌*ℤ◌}
use microoperator.Base.{
  text, same, has_prefix, has_suffix, runes, valid_utf8, blank, trimmed, has_control, fields,
}
use microoperator.Store.{order_by}
use microoperator.Config.Tools.{builtin_tool, tool, with_local_tools, allowed_models}
use microoperator.Config.Builtins.{builtin_table}
use microoperator.Config.System.{validate_system_name, closed, operator_included, validate_system}
use microoperator.Config.Names.{config_name, env_name, unique_from, unique_names}
use microoperator.Access.Pins.{
  load_local_tools, authorize_local_pin, revoked, authorize_pin, pinned_name, check_required,
  authorize_pins, authorize_model, narrow_from, narrow_tool_pins, delegated_pins,
}
use microoperator.Access.Learning.{
  protected_cases, read_learning_draft, read_evaluation, learning_eligible, use_of, names_pin,
  pending_pin, pending_pins, open_approval, consume, consume_all, admit_learning_uses,
}
use microoperator.Access.Env.{error_text, denied_task}
use microoperator.Access.Read.{
  task_live, read_task, read_agent, goal_of, calls_of, read_execution, audit_execution,
}
use microoperator.Access.Inspect.{read_system, model_definition, zero_pin, grants_for, inspect}
use microoperator.Broker.Admit.{
  waiting_calls, candidates, refusal, dispatch, admit_uses, after_quota, after_reason, admit_one,
  admit_from, admit,
}
use microoperator.Broker.Budget.{
  union, budget_agents, check_task_admission, usage_of, charge_each, charge_agents,
}
use microoperator.Broker.Queue.{outside, authorize_call, queue, terminal_call, cancel_model_call}
use microoperator.Broker.Quota.{
  in_group, window_tokens, in_flight, refilled, with_quota_row, group_refuses, check_group,
  check_groups, take_credit, queued_calls, quotas,
}
use microoperator.Broker.Settle.{
  settle_attempt, negative_system, negative_goal, released, settle_known, settle_unknown,
  throttle_groups, tries_again, requeue, retry_call, settle_retry, settle_state, finish_call,
  settle_usage, settle_running, settle,
}

-- The caller's call, which the admission has left running.
caller_run :
    (e : Execution) × (authorize_call admit_run.0.db sample_session ≡ ok e)
    × (call_running e.state ≡ true)
    × HasSystem e admit_run.0.db
unfolding admit_run ◌+ℤ◌ ◌-ℤ◌ ◌*ℤ◌ text same has_prefix has_suffix runes valid_utf8 blank trimmed
    has_control fields order_by builtin_tool tool with_local_tools allowed_models builtin_table
    validate_system_name closed operator_included validate_system config_name env_name unique_from
    unique_names load_local_tools authorize_local_pin revoked authorize_pin pinned_name
    check_required authorize_pins authorize_model narrow_from narrow_tool_pins delegated_pins
    protected_cases read_learning_draft read_evaluation learning_eligible use_of names_pin
    pending_pin pending_pins open_approval consume consume_all admit_learning_uses error_text
    denied_task task_live read_task read_agent goal_of calls_of read_execution audit_execution
    read_system model_definition zero_pin grants_for inspect waiting_calls candidates refusal
    dispatch admit_uses after_quota after_reason admit_one admit_from admit union budget_agents
    check_task_admission usage_of charge_each charge_agents outside authorize_call queue
    terminal_call cancel_model_call in_group window_tokens in_flight refilled with_quota_row
    group_refuses check_group check_groups take_credit queued_calls quotas settle_attempt
    negative_system negative_goal released settle_known settle_unknown throttle_groups tries_again
    requeue retry_call settle_retry settle_state finish_call settle_usage settle_running settle
caller_run = (_, refl, refl, (_, refl))

admitted-NonNegative : NonNegative admit_run.0.db
unfolding admit_run ◌+ℤ◌ ◌-ℤ◌ ◌*ℤ◌ text same has_prefix has_suffix runes valid_utf8 blank trimmed
    has_control fields order_by builtin_tool tool with_local_tools allowed_models builtin_table
    validate_system_name closed operator_included validate_system config_name env_name unique_from
    unique_names load_local_tools authorize_local_pin revoked authorize_pin pinned_name
    check_required authorize_pins authorize_model narrow_from narrow_tool_pins delegated_pins
    protected_cases read_learning_draft read_evaluation learning_eligible use_of names_pin
    pending_pin pending_pins open_approval consume consume_all admit_learning_uses error_text
    denied_task task_live read_task read_agent goal_of calls_of read_execution audit_execution
    read_system model_definition zero_pin grants_for inspect waiting_calls candidates refusal
    dispatch admit_uses after_quota after_reason admit_one admit_from admit union budget_agents
    check_task_admission usage_of charge_each charge_agents outside authorize_call queue
    terminal_call cancel_model_call in_group window_tokens in_flight refilled with_quota_row
    group_refuses check_group check_groups take_credit queued_calls quotas settle_attempt
    negative_system negative_goal released settle_known settle_unknown throttle_groups tries_again
    requeue retry_call settle_retry settle_state finish_call settle_usage settle_running settle
admitted-NonNegative = record {
  attempts = (omega arith, tt);
  systems = (omega arith, tt);
  goals = (omega arith, tt);
}

throttled_usage : pos 0 ≤ℤ throttled_result.input +ℤ throttled_result.output
unfolding ◌+ℤ◌
throttled_usage = omega arith

admitted-Balanced : Balanced admit_run.0.db
admitted-Balanced = Reach-Balanced sample_db admit_run.0.db sample-Balanced (
    then sample_db admit_run.0.db here
      (admits sample_db sample_env sample_session admit_run.0 admit_run.1))

settle-commits_example :
    (after : Db) × (settle sample_env admit_run.0.db sample_session throttled_result ≡ ok after)
settle-commits_example =
    settle-commits sample_env admit_run.0.db sample_session throttled_result admitted-Balanced
      caller_run.1 caller_run.2 admitted-NonNegative throttled_usage caller_run.3

-- Another report of the same attempt, one minute later.
abbrev late_result : ProviderResult
late_result = record throttled_result { input = pos 9; output = pos 9; retry = false }

abbrev later_env : Env
later_env = record sample_env { now = sample_env.now +ℤ pos 60000 }
