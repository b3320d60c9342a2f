-- ===== src/Examples/Runs.antt =====
-- Tests and witnesses: the theorems at the inputs of the examples.
use microoperator.Base.{
  ◌≡◌, ◌↔◌, ◌≤◌, refl, true, false, pos, eq_int, ◌&&◌, &&_split, List, [], ◌∷◌, map, length, All,
  Distinct, ok, Text, ◌⊎◌, arith,
}
use microoperator.Config.{ToolConfig}
use microoperator.Store.{Db, ToolPin}
use microoperator.Examples.{
  sample_env, sample_db, sample_session, sample_call, sample_configuration, sample_system,
  constant_digests, throttled_result, read_pin, note_pin, text_pin,
}
use microoperator.Config.Distinct.{unique_names-Distinct}
use microoperator.Config.Validity.{IsValid, validate_system-IsValid}
use microoperator.Access.Pins.{same_pin}
use microoperator.Access.Grants.{
  Current, narrow_tool_pins-grants, delegated_pins-both, authorize_pins-Current,
}
use microoperator.Broker.Admit.{Admission}
use microoperator.Broker.Guarantees.{OneAttempt, NoAttempt, admit-attempts}
use microoperator.Ledger.Sums.{outstanding, running_tokens}
use microoperator.Ledger.Books.{info_of, Balanced}
use microoperator.Ledger.History.{admits, settles, here, then, Reach-Balanced}
use microoperator.Base.{◌+ℤ◌, ◌-ℤ◌, ◌*ℤ◌}
use microoperator.Base.{
  text, same, has_prefix, has_suffix, runes, valid_utf8, blank, trimmed, has_control, fields,
}
use microoperator.Store.{order_by}
use microoperator.Config.Tools.{builtin_tool, tool, with_local_tools, allowed_models}
use microoperator.Config.Builtins.{builtin_table}
use microoperator.Config.System.{validate_system_name, closed, operator_included, validate_system}
use microoperator.Config.Names.{config_name, env_name, unique_from, unique_names}
use microoperator.Access.Pins.{
  load_local_tools, authorize_local_pin, revoked, authorize_pin, pinned_name, check_required,
  authorize_pins, authorize_model, narrow_from, narrow_tool_pins, delegated_pins,
}
use microoperator.Access.Learning.{
  protected_cases, read_learning_draft, read_evaluation, learning_eligible, use_of, names_pin,
  pending_pin, pending_pins, open_approval, consume, consume_all, admit_learning_uses,
}
use microoperator.Access.Env.{error_text, denied_task}
use microoperator.Access.Read.{
  task_live, read_task, read_agent, goal_of, calls_of, read_execution, audit_execution,
}
use microoperator.Access.Inspect.{read_system, model_definition, zero_pin, grants_for, inspect}
use microoperator.Broker.Admit.{
  waiting_calls, candidates, refusal, dispatch, admit_uses, after_quota, after_reason, admit_one,
  admit_from, admit,
}
use microoperator.Broker.Budget.{
  union, budget_agents, check_task_admission, usage_of, charge_each, charge_agents,
}
use microoperator.Broker.Queue.{outside, authorize_call, queue, terminal_call, cancel_model_call}
use microoperator.Broker.Quota.{
  in_group, window_tokens, in_flight, refilled, with_quota_row, group_refuses, check_group,
  check_groups, take_credit, queued_calls, quotas,
}
use microoperator.Broker.Settle.{
  settle_attempt, negative_system, negative_goal, released, settle_known, settle_unknown,
  throttle_groups, tries_again, requeue, retry_call, settle_retry, settle_state, finish_call,
  settle_usage, settle_running, settle,
}

-- The queued call is admitted.
unfoldable pub admit_run :
    (a : Admission) × (admit sample_env sample_db sample_session ≡ ok a) × (a.admitted ≡ true)
unfolding ◌+ℤ◌ ◌-ℤ◌ ◌*ℤ◌ text same has_prefix has_suffix runes valid_utf8 blank trimmed has_control
    fields order_by builtin_tool tool with_local_tools allowed_models builtin_table
    validate_system_name closed operator_included validate_system config_name env_name unique_from
    unique_names load_local_tools authorize_local_pin revoked authorize_pin pinned_name
    check_required authorize_pins authorize_model narrow_from narrow_tool_pins delegated_pins
    protected_cases read_learning_draft read_evaluation learning_eligible use_of names_pin
    pending_pin pending_pins open_approval consume consume_all admit_learning_uses error_text
    denied_task task_live read_task read_agent goal_of calls_of read_execution audit_execution
    read_system model_definition zero_pin grants_for inspect waiting_calls candidates refusal
    dispatch admit_uses after_quota after_reason admit_one admit_from admit union budget_agents
    check_task_admission usage_of charge_each charge_agents outside authorize_call queue
    terminal_call cancel_model_call in_group window_tokens in_flight refilled with_quota_row
    group_refuses check_group check_groups take_credit queued_calls quotas settle_attempt
    negative_system negative_goal released settle_known settle_unknown throttle_groups tries_again
    requeue retry_call settle_retry settle_state finish_call settle_usage settle_running settle
admit_run = (_, refl, refl)

-- Its attempt is throttled after three tokens, and the call is queued again.
unfoldable pub settle_run :
    (after : Db) × (settle sample_env admit_run.0.db sample_session throttled_result ≡ ok after)
unfolding admit_run ◌+ℤ◌ ◌-ℤ◌ ◌*ℤ◌ text same has_prefix has_suffix runes valid_utf8 blank trimmed
    has_control fields order_by builtin_tool tool with_local_tools allowed_models builtin_table
    validate_system_name closed operator_included validate_system config_name env_name unique_from
    unique_names load_local_tools authorize_local_pin revoked authorize_pin pinned_name
    check_required authorize_pins authorize_model narrow_from narrow_tool_pins delegated_pins
    protected_cases read_learning_draft read_evaluation learning_eligible use_of names_pin
    pending_pin pending_pins open_approval consume consume_all admit_learning_uses error_text
    denied_task task_live read_task read_agent goal_of calls_of read_execution audit_execution
    read_system model_definition zero_pin grants_for inspect waiting_calls candidates refusal
    dispatch admit_uses after_quota after_reason admit_one admit_from admit union budget_agents
    check_task_admission usage_of charge_each charge_agents outside authorize_call queue
    terminal_call cancel_model_call in_group window_tokens in_flight refilled with_quota_row
    group_refuses check_group check_groups take_credit queued_calls quotas settle_attempt
    negative_system negative_goal released settle_known settle_unknown throttle_groups tries_again
    requeue retry_call settle_retry settle_state finish_call settle_usage settle_running settle
settle_run = (_, refl)

admit-attempts_example :
    ((admit_run.0.admitted ≡ true) × OneAttempt sample_session sample_db admit_run.0.db)
    ⊎ ((admit_run.0.admitted ≡ false) × NoAttempt sample_db admit_run.0.db)
admit-attempts_example = admit-attempts sample_env sample_session sample_db admit_run.1

pub sample-Balanced : Balanced sample_db
unfolding Balanced outstanding running_tokens same text
sample-Balanced = (
  λ id. info_of sample_db sample_call,
  record {
    accounts = record { calls = (refl, tt); systems = (refl, tt); goals = (refl, tt); usage = tt };
    named = (refl, tt);
    held = (refl, tt);
  },
)

Reach-Balanced_example : Balanced settle_run.0
Reach-Balanced_example = Reach-Balanced sample_db settle_run.0 sample-Balanced (
    then admit_run.0.db settle_run.0
      (then sample_db admit_run.0.db here
        (admits sample_db sample_env sample_session admit_run.0 admit_run.1))
      (settles admit_run.0.db settle_run.0 sample_env sample_session throttled_result settle_run.1))

unique_names-Distinct_example : (unique_names (text "a" ∷ text "b" ∷ []) (text "tools") ≡ ok tt) ↔ (
    (length (text "a" ∷ text "b" ∷ []) ≤ 256)
    × All (λ name. config_name name ≡ true) (text "a" ∷ text "b" ∷ [])
    × Distinct (text "a" ∷ text "b" ∷ []))
unique_names-Distinct_example = unique_names-Distinct (text "a" ∷ text "b" ∷ []) (text "tools")

validate_run : validate_system sample_configuration sample_system ≡ ok tt
unfolding ◌+ℤ◌ ◌-ℤ◌ ◌*ℤ◌ text same has_prefix has_suffix runes valid_utf8 blank trimmed has_control
    fields order_by builtin_tool tool with_local_tools allowed_models builtin_table
    validate_system_name closed operator_included validate_system config_name env_name unique_from
    unique_names load_local_tools authorize_local_pin revoked authorize_pin pinned_name
    check_required authorize_pins authorize_model narrow_from narrow_tool_pins delegated_pins
    protected_cases read_learning_draft read_evaluation learning_eligible use_of names_pin
    pending_pin pending_pins open_approval consume consume_all admit_learning_uses error_text
    denied_task task_live read_task read_agent goal_of calls_of read_execution audit_execution
    read_system model_definition zero_pin grants_for inspect waiting_calls candidates refusal
    dispatch admit_uses after_quota after_reason admit_one admit_from admit union budget_agents
    check_task_admission usage_of charge_each charge_agents outside authorize_call queue
    terminal_call cancel_model_call in_group window_tokens in_flight refilled with_quota_row
    group_refuses check_group check_groups take_credit queued_calls quotas settle_attempt
    negative_system negative_goal released settle_known settle_unknown throttle_groups tries_again
    requeue retry_call settle_retry settle_state finish_call settle_usage settle_running settle
validate_run = refl

validate_system-IsValid_example : IsValid sample_configuration sample_system
validate_system-IsValid_example =
    (validate_system-IsValid sample_configuration sample_system).0 validate_run

FirstVersion : ToolPin → Type 0
FirstVersion pin = eq_int pin.version (pos 1) ≡ true

first_versions : All FirstVersion (read_pin ∷ note_pin ∷ [])
unfolding FirstVersion
first_versions = (refl, (refl, tt))

same_version : (a b : ToolPin) → same_pin a b ≡ true → FirstVersion a → FirstVersion b
unfolding FirstVersion
same_version a b h first =
    let pair =
      (&&_split (same a.name b.name && eq_int a.version b.version) (same a.digest b.digest) h).0 in
    let versions = (&&_split (same a.name b.name) (eq_int a.version b.version) pair).1 in
    ground arith

narrow_run :
    (pins : List ToolPin) × (narrow_tool_pins (read_pin ∷ note_pin ∷ []) (text "n" ∷ []) ≡ ok pins)
unfolding narrow_tool_pins narrow_from unique_names unique_from config_name same text
narrow_run = (_, refl)

narrow_tool_pins-grants_example :
    All FirstVersion narrow_run.0 × (map ToolPin.name narrow_run.0 ≡ text "n" ∷ [])
narrow_tool_pins-grants_example =
    narrow_tool_pins-grants FirstVersion (read_pin ∷ note_pin ∷ []) (text "n" ∷ []) first_versions
      narrow_run.1

delegated_pins-both_example :
    All
      (λ pin. FirstVersion pin × FirstVersion pin)
      (delegated_pins (read_pin ∷ note_pin ∷ []) (read_pin ∷ note_pin ∷ []))
delegated_pins-both_example =
    delegated_pins-both FirstVersion FirstVersion (read_pin ∷ note_pin ∷ [])
      (read_pin ∷ note_pin ∷ []) same_version first_versions first_versions

authorize_run : authorize_pins sample_env sample_db (text "a") (text_pin ∷ []) ≡ ok tt
unfolding ◌+ℤ◌ ◌-ℤ◌ ◌*ℤ◌ text same has_prefix has_suffix runes valid_utf8 blank trimmed has_control
    fields order_by builtin_tool tool with_local_tools allowed_models builtin_table
    validate_system_name closed operator_included validate_system config_name env_name unique_from
    unique_names load_local_tools authorize_local_pin revoked authorize_pin pinned_name
    check_required authorize_pins authorize_model narrow_from narrow_tool_pins delegated_pins
    protected_cases read_learning_draft read_evaluation learning_eligible use_of names_pin
    pending_pin pending_pins open_approval consume consume_all admit_learning_uses error_text
    denied_task task_live read_task read_agent goal_of calls_of read_execution audit_execution
    read_system model_definition zero_pin grants_for inspect waiting_calls candidates refusal
    dispatch admit_uses after_quota after_reason admit_one admit_from admit union budget_agents
    check_task_admission usage_of charge_each charge_agents outside authorize_call queue
    terminal_call cancel_model_call in_group window_tokens in_flight refilled with_quota_row
    group_refuses check_group check_groups take_credit queued_calls quotas settle_attempt
    negative_system negative_goal released settle_known settle_unknown throttle_groups tries_again
    requeue retry_call settle_retry settle_state finish_call settle_usage settle_running settle
authorize_run = refl

authorize_pins-Current_example :
    (locals : List (Text × ToolConfig)) × (load_local_tools constant_digests sample_db
        (text "a")
        (text_pin ∷ [])
      ≡ ok locals)
    × All
        (Current sample_env
          (with_local_tools sample_configuration locals)
          sample_db
          (text "a")
          (text_pin ∷ []))
        (text_pin ∷ [])
authorize_pins-Current_example =
    authorize_pins-Current sample_env sample_db (text "a") (text_pin ∷ []) authorize_run
