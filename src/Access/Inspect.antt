-- ===== src/Access/Inspect.antt =====
-- readSystem, GrantsFor and Inspect (state/store.go). The initial goal and the latest execution,
-- which readSystem also reads for its clients to show, are not a part of the record.
use microoperator.Base.{
  ℤ, pos, ◌-ℤ◌, eq_int, ◌&&◌, List, [], map, Text, text, same, if◌then◌else◌, Result, ok, err,
  ◌>>=◌, Error, none, some, find,
}
use microoperator.Config.{
  ToolConfig, SystemConfig, Configuration, lookup_or, elements, zero_provider, zero_model,
  zero_quota, zero_sandbox,
}
use microoperator.Store.{ToolPin, SystemGrants, SystemRow, RevisionRow, Db}
use microoperator.Config.Tools.{tool_or_zero, with_local_tools}
use microoperator.Config.System.{validate_system}
use microoperator.Access.Env.{Env, Digests, ModelDefinition, error_text}
use microoperator.Access.Pins.{load_local_tools}

-- SystemRecord (state/store.go)
pub record System : Type 0 where
  pub system_row : SystemRow
  pub configuration : SystemConfig
  pub grants : SystemGrants
  pub local_tools : List (Text × ToolConfig)
  pub remaining_tokens : ℤ
  pub blocked_reason : Text

unfoldable pub read_system : Digests → Db → Text → Text → Result System
read_system digests db principal id =
    elim (find (λ (s : SystemRow). same s.system_id id && same s.owner principal) db.systems) [
      | none ↦ err Error.system_not_found
      | some s ↦
          elim (find
            (λ (r : RevisionRow). same r.system_id s.system_id && eq_int r.revision s.revision)
            db.system_revisions) [
              | none ↦ err Error.system_not_found
              | some r ↦ load_local_tools digests db s.system_id r.grants.system_tools >>= λ locals.
                  ok (record {
                    system_row = s;
                    configuration = r.definition;
                    grants = r.grants;
                    local_tools = locals;
                    remaining_tokens = pos 0;
                    blocked_reason = [];
                  })
            ]
    ]

-- Configuration.modelDefinition
unfoldable pub model_definition : Configuration → Text → ModelDefinition
model_definition cfg name =
    let m = lookup_or zero_model name cfg.models in
    record {
      model = m;
      provider = lookup_or zero_provider m.provider cfg.providers;
      quotas = map (λ group. (group, lookup_or zero_quota group cfg.quota_groups)) m.quota_groups;
    }

-- The pin that GrantsFor binds a granted tool to.
abbrev pub pin_of : Digests → Configuration → Text → ToolPin
pin_of digests cfg name =
    let t = tool_or_zero cfg name in
    record { name = name; version = t.version; digest = digests.of_tool t }

unfoldable pub zero_pin : ToolPin
zero_pin = record { name = []; version = pos 0; digest = [] }

unfoldable pub grants_for : Digests → Configuration → SystemConfig → SystemGrants
unfolding model_definition
grants_for digests cfg definition =
    let names = elements definition.tools in
    let pins = map (λ name. (name, pin_of digests cfg name)) names in
    record {
      model = definition.operator.model;
      sandbox_profile = definition.operator.sandbox_profile;
      system_tools = map (pin_of digests cfg) names;
      operator_tools =
          map (λ name. lookup_or zero_pin name pins) (elements definition.operator.tools);
      definitions_digest = digests.of_definitions (record {
        initial = model_definition cfg definition.operator.model;
        profile = lookup_or zero_sandbox definition.operator.sandbox_profile cfg.sandbox_profiles;
        tools = map (λ name. (name, tool_or_zero cfg name)) names;
        models = map (λ name. (name, model_definition cfg name)) (elements definition.models);
      });
    }

abbrev pub changed_definitions : Text
changed_definitions =
    text "administrative definitions changed; explicitly revise the system before execution"

unfoldable pub inspect : Env → System → System
inspect env r =
    let cfg = with_local_tools env.cfg r.local_tools in
    let left =
      r.configuration.limits.token_budget -ℤ r.system_row.used_tokens
      -ℤ r.system_row.reserved_tokens in
    elim (validate_system cfg r.configuration) [
      | err e ↦ record r { remaining_tokens = left; blocked_reason = error_text e }
      | ok _ ↦
          if same (grants_for env.digests cfg r.configuration).definitions_digest
            r.grants.definitions_digest
          then record r { remaining_tokens = left }
          else record r { remaining_tokens = left; blocked_reason = changed_definitions }
    ]
