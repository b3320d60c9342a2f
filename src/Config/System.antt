-- ===== src/Config/System.antt =====
-- `Configuration.ValidateSystem` and `validateSystemName` (state/config.go, state/bootstrap.go).
use microoperator.Base.{
  pos, lt_int, Bool, true, false, not, ◌||◌, List, [], Text, text, same, contains, contains_byte,
  length, ltb, if◌then◌else◌, Result, ok, fail_if, ◌>>◌, field, Option, none, some, blank, trimmed,
  valid_utf8, has_control, all,
}
use microoperator.Config.{Configuration, SystemConfig, lookup, elements}
use microoperator.Config.Names.{unique_names}
use microoperator.Config.Tools.{tool, tool_or_zero}

unfoldable pub validate_system_name : Text → Result (Unit {0})
validate_system_name name =
    fail_if
      (not (trimmed name)
        || (same name [] || (ltb 128 (length name) || (not (valid_utf8 name) || has_control name))))
      (field (text "name")
        (text "requires 1-128 bytes without control characters or surrounding whitespace"))

abbrev pub known {ℓ} : {V : Type ℓ} → Text → List (Text × V) → Bool
known k m = elim (lookup k m) [ none ↦ false | some _ ↦ true ]

abbrev pub known_tool : Configuration → Text → Bool
known_tool cfg name = elim (tool cfg name) [ none ↦ false | some _ ↦ true ]

-- The dependencies of every name are among the names.
unfoldable pub closed : Configuration → List Text → Bool
closed cfg names =
    all
      (λ name. all (λ dependency. contains names dependency) (tool_or_zero cfg name).requires_tools)
      names

unfoldable pub operator_included : Option (List Text) → Text → Bool
operator_included none model = true
operator_included (some models) model = contains models model

unfoldable pub validate_system : Configuration → SystemConfig → Result (Unit {0})
unfolding operator_included
validate_system cfg system = do
  (if same system.name [] then ok tt else validate_system_name system.name)
  fail_if
      (ltb 4096 (length system.constraints)
        || (not (valid_utf8 system.constraints) || contains_byte system.constraints 0))
      (field (text "constraints") (text "must be at most 4096 UTF-8 bytes without NUL"))
  fail_if (blank system.operator.prompt || ltb 32768 (length system.operator.prompt))
      (field (text "operator.prompt") (text "must contain 1-32768 bytes"))
  fail_if (not (known system.operator.model cfg.models))
      (field (text "operator.model") (text "unknown model alias"))
  unique_names (elements system.models) (text "models")
  fail_if (not (operator_included system.models system.operator.model))
      (field (text "models") (text "must include the operator model"))
  fail_if (not (all (λ name. known name cfg.models) (elements system.models)))
      (field (text "models") (text "unknown model alias"))
  fail_if (not (known system.operator.sandbox_profile cfg.sandbox_profiles))
      (field (text "operator.sandbox_profile") (text "unknown profile"))
  fail_if
      (lt_int system.limits.max_agents (pos 1)
        || (lt_int (pos 1024) system.limits.max_agents
            || (lt_int system.limits.max_active_agents (pos 1)
                || lt_int system.limits.max_agents system.limits.max_active_agents)))
      (field (text "limits") (text "require 1 <= max_active_agents <= max_agents <= 1024"))
  fail_if (lt_int system.limits.token_budget (pos 1))
      (field (text "limits.token_budget") (text "must be positive"))
  unique_names (elements system.tools) (text "tools")
  fail_if (not (all (known_tool cfg) (elements system.tools)))
      (field (text "tools") (text "unknown or unimplemented tool"))
  unique_names (elements system.operator.tools) (text "operator.tools")
  fail_if (not (all (contains (elements system.tools)) (elements system.operator.tools)))
      (field (text "operator.tools") (text "must be a subset of system tools"))
  fail_if
      (not (closed cfg (elements system.tools))
        || not (closed cfg (elements system.operator.tools)))
      (field (text "tools") (text "skill dependencies must already be granted at each scope"))
