-- ===== src/Config/Validity.antt =====
-- What `ValidateSystem` (state/config.go) guarantees of a system's configuration.
use microoperator.Base.{
  Distinct, not-not, ◌≡◌, ◌↔◌, ◌⊎◌, pos, lt_int, lt_int→ge, ◌≤ℤ◌, ◌≤◌, true, false, not, ◌||◌,
  or_false, List, [], Text, text, same, contains, contains_byte, length, ltb, ok, fail_if-ok,
  fail_if-then, >>=-eq-ok, blank, valid_utf8, none, some, all, All, ||_split, if◌then◌else◌,
}
use microoperator.Config.{Configuration, SystemConfig, elements}
use microoperator.Config.Names.{config_name, unique_names}
use microoperator.Config.Distinct.{unique_names-Distinct}
use microoperator.Config.System.{
  validate_system_name, known, known_tool, closed, operator_included, validate_system,
}
use microoperator.Config.Checks.{
  IsName, ltb→le, le→ltb, true→not, past, fail_if-false, IsName-checked, operator_included-some,
  ge→lt_int, limits_hold,
}

-- At most 256 configured names, no two equal.
abbrev pub References : List Text → Type 0
References names =
    (length names ≤ 256) × All (λ name. config_name name ≡ true) names × Distinct names

-- What `ValidateSystem` documents of a system.
pub record IsValid (cfg : Configuration) (system : SystemConfig) : Type 0 where
  pub name : (system.name ≡ []) ⊎ IsName system.name
  pub prompt : (blank system.operator.prompt ≡ false) × (length system.operator.prompt ≤ 32768)
  pub constraints :
      (length system.constraints ≤ 4096)
      × (valid_utf8 system.constraints ≡ true)
      × (contains_byte system.constraints 0 ≡ false)
  pub model : known system.operator.model cfg.models ≡ true
  pub profile : known system.operator.sandbox_profile cfg.sandbox_profiles ≡ true
  pub models : References (elements system.models)
  pub models_operator :
      (system.models ≡ none)
      ⊎ ((names : List Text) × (system.models ≡ some names)
          × (contains names system.operator.model ≡ true))
  pub models_known : all (λ name. known name cfg.models) (elements system.models) ≡ true
  pub active_agents : pos 1 ≤ℤ system.limits.max_active_agents
  pub agents : system.limits.max_active_agents ≤ℤ system.limits.max_agents
  pub agents_limit : system.limits.max_agents ≤ℤ pos 1024
  pub budget : pos 1 ≤ℤ system.limits.token_budget
  pub tools : References (elements system.tools)
  pub tools_known : all (known_tool cfg) (elements system.tools) ≡ true
  pub operator_tools : References (elements system.operator.tools)
  pub subset : all (contains (elements system.tools)) (elements system.operator.tools) ≡ true
  pub tools_closed : closed cfg (elements system.tools) ≡ true
  pub operator_closed : closed cfg (elements system.operator.tools) ≡ true

accepted-IsValid :
    (cfg : Configuration) (system : SystemConfig)
    → validate_system cfg system ≡ ok tt
    → IsValid cfg system
unfolding validate_system
accepted-IsValid cfg system h =
    let tools = elements system.tools in
    let models = elements system.models in
    let own = elements system.operator.tools in
    let limits = system.limits in
    let s1 =
      >>=-eq-ok (if same system.name [] then ok tt else validate_system_name system.name) _ h in
    let long = ltb 4096 (length system.constraints) in
    let s2 =
      fail_if-then
        (long || (not (valid_utf8 system.constraints) || contains_byte system.constraints 0)) _ _
        s1.2 in
    let s3 =
      fail_if-then (blank system.operator.prompt || ltb 32768 (length system.operator.prompt)) _ _
        s2.1 in
    let s4 = fail_if-then (not (known system.operator.model cfg.models)) _ _ s3.1 in
    let s5 = >>=-eq-ok (unique_names models (text "models")) _ s4.1 in
    let s6 = fail_if-then (not (operator_included system.models system.operator.model)) _ _ s5.2 in
    let s7 = fail_if-then (not (all (λ name. known name cfg.models) models)) _ _ s6.1 in
    let s8 =
      fail_if-then (not (known system.operator.sandbox_profile cfg.sandbox_profiles)) _ _ s7.1 in
    let few = lt_int limits.max_agents (pos 1) in
    let many = lt_int (pos 1024) limits.max_agents in
    let idle = lt_int limits.max_active_agents (pos 1) in
    let over = lt_int limits.max_agents limits.max_active_agents in
    let s9 = fail_if-then (few || (many || (idle || over))) _ _ s8.1 in
    let s10 = fail_if-then (lt_int limits.token_budget (pos 1)) _ _ s9.1 in
    let s11 = >>=-eq-ok (unique_names tools (text "tools")) _ s10.1 in
    let s12 = fail_if-then (not (all (known_tool cfg) tools)) _ _ s11.2 in
    let s13 = >>=-eq-ok (unique_names own (text "operator.tools")) _ s12.1 in
    let s14 = fail_if-then (not (all (contains tools) own)) _ _ s13.2 in
    let closures = fail_if-ok (not (closed cfg tools) || not (closed cfg own)) _ s14.1 in
    let both = ||_split (not (closed cfg tools)) (not (closed cfg own)) closures in
    let within = ||_split few (many || (idle || over)) s9.0 in
    let within' = ||_split many (idle || over) within.1 in
    let within'' = ||_split idle over within'.1 in
    let bytes = ||_split long _ s2.0 in
    let encoded =
      ||_split (not (valid_utf8 system.constraints)) (contains_byte system.constraints 0) bytes.1 in
    let prompt =
      ||_split (blank system.operator.prompt) (ltb 32768 (length system.operator.prompt)) s3.0 in
    record {
      prompt = (prompt.0, ltb→le 32768 (length system.operator.prompt) prompt.1);
      name = (IsName-checked system.name).0 s1.1;
      constraints =
          (ltb→le 4096 (length system.constraints) bytes.0, not-not _ encoded.0, encoded.1);
      models_operator =
          (operator_included-some system.models system.operator.model).0 (not-not _ s6.0);
      model = not-not _ s4.0;
      profile = not-not _ s8.0;
      models = (unique_names-Distinct models (text "models")).0 s5.1;
      models_known = not-not _ s7.0;
      active_agents = lt_int→ge limits.max_active_agents (pos 1) within''.0;
      agents = lt_int→ge limits.max_agents limits.max_active_agents within''.1;
      agents_limit = lt_int→ge (pos 1024) limits.max_agents within'.0;
      budget = lt_int→ge limits.token_budget (pos 1) s10.0;
      tools = (unique_names-Distinct tools (text "tools")).0 s11.1;
      tools_known = not-not _ s12.0;
      operator_tools = (unique_names-Distinct own (text "operator.tools")).0 s13.1;
      subset = not-not _ s14.0;
      tools_closed = not-not _ both.0;
      operator_closed = not-not _ both.1;
    }

IsValid-accepted :
    (cfg : Configuration) (system : SystemConfig)
    → IsValid cfg system
    → validate_system cfg system ≡ ok tt
unfolding validate_system
IsValid-accepted cfg system v =
    let limits = system.limits in
    past _ _ ((IsName-checked system.name).1 v.name) (
      past _ _
        (fail_if-false _ _ (
          or_false _ _ (le→ltb 4096 (length system.constraints) v.constraints.0)
            (or_false _ _ (true→not v.constraints.1) v.constraints.2)))
        (past _ _
          (fail_if-false _ _
            (or_false _ _ v.prompt.0 (le→ltb 32768 (length system.operator.prompt) v.prompt.1)))
          (past _ _ (fail_if-false _ _ (true→not v.model)) (
            past _ _ ((unique_names-Distinct (elements system.models) (text "models")).1 v.models) (
              past _ _
                (fail_if-false _ _ (
                  true→not (
                    (operator_included-some system.models system.operator.model).1
                      v.models_operator)))
                (past _ _ (fail_if-false _ _ (true→not v.models_known)) (
                  past _ _ (fail_if-false _ _ (true→not v.profile)) (
                    past _ _
                      (fail_if-false _ _ (
                        limits_hold limits.max_agents limits.max_active_agents v.active_agents
                          v.agents v.agents_limit))
                      (past _ _ (fail_if-false _ _ (ge→lt_int limits.token_budget (pos 1) v.budget))
                        (past _ _
                          ((unique_names-Distinct (elements system.tools) (text "tools")).1 v.tools)
                          (past _ _ (fail_if-false _ _ (true→not v.tools_known)) (
                            past _ _
                              ((unique_names-Distinct (elements system.operator.tools)
                                  (text "operator.tools")).1
                                v.operator_tools)
                              (past _ _ (fail_if-false _ _ (true→not v.subset)) (
                                fail_if-false _ _ (
                                  or_false _ _ (true→not v.tools_closed)
                                    (true→not v.operator_closed))))))))))))))))

-- `ValidateSystem` accepts a system exactly when its name is empty or a name of 1 to 128 bytes, its
-- constraints are at most 4096 bytes of UTF-8 without NUL and its operator's prompt is not blank and
-- has at most 32768 bytes; the operator's model and profile are configured, and its models, when they
-- are given, are distinct configured ones with the operator's among them; it has at least one active
-- agent, no more active agents than agents, at most 1024 agents and a positive token budget; and its
-- tools and its operator's are distinct, implemented, the operator's among the system's, and both
-- contain the dependencies of their members.
pub validate_system-IsValid :
    (cfg : Configuration) (system : SystemConfig)
    → (validate_system cfg system ≡ ok tt) ↔ IsValid cfg system
validate_system-IsValid cfg system = (accepted-IsValid cfg system, IsValid-accepted cfg system)
