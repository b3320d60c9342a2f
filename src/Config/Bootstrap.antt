-- ===== src/Config/Bootstrap.antt =====
-- `BootstrapSystem` and `creationDefinition` (state/bootstrap.go), and the whole of `Validate`.
-- `bootstrap_prompt` is the constant bootstrapPrompt, and `sort` is sort.Strings.
use microoperator.Base.{
  ℤ, pos, lt_int, eq_int, not, ◌&&◌, ◌||◌, List, [], ◌∷◌, ◌++◌, map, Text, text, same, length, ltb,
  if◌then◌else◌, Result, ok, err, fail_if, ◌>>=◌, ◌>>◌, field, Option, none, some, blank,
  valid_utf8,
}
use microoperator.Config.{Configuration, SystemConfig, SystemLimits, elements}
use microoperator.Config.Admin.{Net, validate_definitions}
use microoperator.Config.System.{validate_system, validate_system_name}

abbrev default_tools : List Text
default_tools =
    text "runtime.capabilities"
    ∷ text "runtime.model.list"
    ∷ text "runtime.agent.list"
    ∷ text "runtime.agent.propose"
    ∷ text "runtime.agent.revise"
    ∷ text "runtime.agent.retire"
    ∷ text "runtime.task.delegate"
    ∷ text "runtime.task.progress"
    ∷ text "runtime.task.wait"
    ∷ text "runtime.tool.propose"
    ∷ text "runtime.learning.evaluate"
    ∷ text "runtime.memory.put"
    ∷ text "runtime.memory.search"
    ∷ text "runtime.artifact.put"
    ∷ text "runtime.artifact.get"
    ∷ []

abbrev or_else {ℓ} : {A : Type ℓ} → Option A → A → Option A
or_else none a = some a
or_else (some b) a = some b

-- The zero value of `SystemConfig`.
abbrev pub zero_system : SystemConfig
zero_system = record {
  name = [];
  constraints = [];
  models = none;
  tools = none;
  operator = record { prompt = []; model = []; tools = none; sandbox_profile = [] };
  limits = record { max_agents = pos 0; max_active_agents = pos 0; token_budget = pos 0 };
}

limits_or_default : SystemLimits → SystemLimits
limits_or_default l =
    if eq_int l.max_agents (pos 0)
      && (eq_int l.max_active_agents (pos 0) && eq_int l.token_budget (pos 0))
    then record { max_agents = pos 8; max_active_agents = pos 2; token_budget = pos 100000 }
    else l

abbrev nonempty_or : Text → Text → Text
nonempty_or given default = if same given [] then default else given

module _ (bootstrap_prompt : Text) (sort : List Text → List Text) where
  -- Appending no names to a nil slice leaves it nil.
  all_models : Configuration → Option (List Text)
  all_models cfg = elim cfg.models [
    | [] ↦ none
    | _ ∷ _ ↦ some (sort (map (λ entry. entry.0) cfg.models))
  ]

  unfoldable pub fill_defaults : Configuration → SystemConfig → SystemConfig
  unfolding all_models limits_or_default
  fill_defaults cfg system =
      let tools = or_else system.tools default_tools in
      record system {
        tools = tools;
        operator = record system.operator {
          tools = or_else system.operator.tools (elements tools);
          prompt = nonempty_or system.operator.prompt bootstrap_prompt;
          model = nonempty_or system.operator.model (text "default");
          sandbox_profile = nonempty_or system.operator.sandbox_profile (text "worker");
        };
        models = elim system.models [ none ↦ all_models cfg | some models ↦ some models ];
        limits = limits_or_default system.limits;
      }

  unfoldable pub bootstrap_system : Configuration → Result SystemConfig
  bootstrap_system cfg =
      let system =
        fill_defaults cfg (elim cfg.bootstrap [ none ↦ zero_system | some given ↦ given ]) in
      validate_system cfg system >>= λ _. ok system

  -- The last test of `Validate`; fmt.Errorf wraps the error, which errors.As still finds.
  unfoldable pub validate : Net → (Text → Option Text) → Configuration → Result (Unit {0})
  validate net lookup_env cfg = do
    validate_definitions net lookup_env cfg
    elim cfg.bootstrap [ none ↦ ok tt | some _ ↦ bootstrap_system cfg >>= λ _. ok tt ]

pub record CreateSystemCommand : Type 0 where
  pub name : Text
  pub goal : Option Text
  pub constraints : Text
  pub token_budget : ℤ

joined_constraints : Text → Text → Text
joined_constraints base extra =
    if same extra [] then base else if same base [] then extra else base ++ (10 ∷ extra)

module _ (bootstrap_prompt : Text) (sort : List Text → List Text) where
  created : CreateSystemCommand → Text → SystemConfig → Configuration → Result SystemConfig
  unfolding joined_constraints
  created command goal base cfg =
      let budget = base.limits.token_budget in
      let definition = record base {
        name = command.name;
        constraints = joined_constraints base.constraints command.constraints;
        limits = record base.limits {
          token_budget =
              if eq_int command.token_budget (pos 0) then budget else command.token_budget;
        };
      } in
      do
        fail_if (blank goal || (ltb 32768 (length goal) || not (valid_utf8 goal)))
            (field (text "goal") (text "must contain 1-32768 UTF-8 bytes"))
        fail_if (lt_int command.token_budget (pos 0) || lt_int budget command.token_budget) (
            field (text "token_budget") (
              text
                "must be zero for the default or a positive value within the configured allowance"))
        validate_system cfg definition
        ok definition

  unfoldable pub creation_definition : Configuration → CreateSystemCommand → Result SystemConfig
  unfolding created
  creation_definition cfg command = do
    validate_system_name command.name
    elim command.goal [
      | none ↦ err (field (text "goal") (text "is required for goal-driven creation"))
      | some goal ↦
          bootstrap_system bootstrap_prompt sort cfg >>= λ base. created command goal base cfg
    ]
