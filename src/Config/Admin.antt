-- ===== src/Config/Admin.antt =====
-- `Configuration.Validate` (state/config.go): the administrative configuration. `net/url` and `net`
-- are the parameter `Net`; the environment is a function.
use microoperator.Base.{
  ℕ, zero, suc, ℤ, pos, lt_int, eq_int, Bool, true, false, not, ◌&&◌, ◌||◌, List, [], ◌∷◌, ◌++◌,
  reverse, Text, text, same, contains, contains_byte, length, ltb, ◌==◌, if◌then◌else◌, Result, ok,
  err, fail_if, ◌>>=◌, ◌>>◌, Error, field, Option, none, some, blank, has_prefix, has_suffix, each,
}
use microoperator.Config.{
  Configuration, ProviderConfig, ModelConfig, QuotaConfig, SandboxConfig, ToolConfig,
  LearningConfig, lookup,
}
use microoperator.Config.Names.{config_name, env_name, unique_names}
use microoperator.Config.Tools.{tool, tool_or_zero}
use microoperator.Config.Sandbox.{validate_sandbox}

-- What url.Parse returns, as far as it is looked at.
pub record Endpoint : Type 0 where
  pub scheme : Text
  pub hostname : Text
  pub path : Text
  pub bare : Bool  -- no user, query, fragment or opaque part

-- `parse_url` is url.Parse; `parse_ip` is net.ParseIP with IsLoopback of the address;
-- `parse_root` tells a canonical absolute path and `is_digest` a hex string of 32 bytes.
pub record Net : Type 0 where
  pub parse_url : Text → Option Endpoint
  pub parse_ip : Text → Option Bool
  pub canonical_root : Text → Bool
  pub is_digest : Text → Bool

abbrev present : Option Text → Bool
present none = false
present (some value) = not (blank value) && not (contains_byte value 13 || contains_byte value 10)

-- strings.TrimRight(path, "/")
trim_slashes : Text → Text
trim_slashes path = reverse (strip (reverse path))
  where
    strip : Text → Text
    strip [] = []
    strip (c ∷ rest) = let tail = strip rest in if c == b'/' then tail else c ∷ rest

module _ (net : Net) where
  unfoldable pub loopback : Endpoint → Bool
  loopback endpoint = elim (net.parse_ip endpoint.hostname) [
    | none ↦ same endpoint.hostname (text "localhost")
    | some local ↦ local
  ]

  abbrev base_url_error : Text → Text → Error
  base_url_error at problem = field (at ++ text ".base_url") problem

  check_endpoint : Text → ProviderConfig → Option Endpoint → Result (Unit {0})
  unfolding loopback trim_slashes
  check_endpoint at provider none =
      err
        (base_url_error at (text "must be an absolute URL without credentials, query, or fragment"))
  check_endpoint at provider (some endpoint) = do
    fail_if (same endpoint.hostname [] || not endpoint.bare)
        (base_url_error at (text "must be an absolute URL without credentials, query, or fragment"))
    fail_if
        (not (same endpoint.scheme (text "https"))
          && not (same endpoint.scheme (text "http") && loopback endpoint))
        (base_url_error at (text "requires HTTPS, except for loopback HTTP"))
    fail_if
        (same provider.adapter (text "ollama")
          && (not (loopback endpoint) || not (same (trim_slashes endpoint.path) (text "/v1"))))
        (base_url_error at (text "Ollama requires a loopback endpoint ending in /v1"))
    fail_if
        (same provider.adapter (text "azure-openai")
          && (not (same endpoint.scheme (text "https"))
              || not (has_suffix (trim_slashes endpoint.path) (text "/openai/v1"))))
        (base_url_error at (text "Azure requires an HTTPS endpoint ending in /openai/v1"))

  check_credential : Text → ProviderConfig → (Text → Option Text) → Result (Unit {0})
  check_credential at provider lookup_env = do
    fail_if (not (env_name provider.api_key_env))
        (field (at ++ text ".api_key_env") (text "must name an environment variable"))
    fail_if (not (present (lookup_env provider.api_key_env)))
        (field (at ++ text ".api_key_env") (text "required credential is unavailable or invalid"))

  -- One round of the loop over the providers.
  unfoldable pub validate_provider :
      (Text → Option Text) → Text × ProviderConfig → Result (Unit {0})
  unfolding check_endpoint check_credential
  validate_provider lookup_env (name, provider) =
      let at = text "providers." ++ name in
      do
        fail_if (not (config_name name)) (field (text "providers") (text "invalid name"))
        fail_if
            (lt_int provider.timeout_seconds (pos 0) || lt_int (pos 3600) provider.timeout_seconds)
            (field (at ++ text ".timeout_seconds") (text "must be 0 (default) or 1-3600"))
        fail_if
            (not (
              same provider.adapter (text "openai-chat-completions")
              || (same provider.adapter (text "ollama")
                  || same provider.adapter (text "azure-openai"))))
            (field (at ++ text ".adapter") (text "unsupported adapter configuration"))
        check_endpoint at provider (net.parse_url provider.base_url)
        (if same provider.adapter (text "openai-chat-completions")
            then check_credential at provider lookup_env
            else fail_if (not (same provider.api_key_env []))
                (field (at ++ text ".api_key_env") (text "must be omitted for this adapter")))

abbrev bounded : Text → (Text × (ℤ × ℤ)) → Result (Unit {0})
bounded at (name, (value, limit)) =
    fail_if (lt_int value (pos 1) || lt_int limit value)
      (field (at ++ (text "." ++ name)) (text "outside supported bounds"))

unfoldable pub validate_quota : Text × QuotaConfig → Result (Unit {0})
validate_quota (name, quota) =
    let at = text "quota_groups." ++ name in
    do
      fail_if (not (config_name name)) (field (text "quota_groups") (text "invalid name"))
      bounded at (text "requests_per_minute", (quota.requests_per_minute, pos 1000000))
      bounded at (text "tokens_per_minute", (quota.tokens_per_minute, pos 1000000000))
      bounded at (text "burst_requests", (quota.burst_requests, quota.requests_per_minute))
      bounded at (text "max_concurrent", (quota.max_concurrent, pos 1024))
      bounded at (text "queue_capacity", (quota.queue_capacity, pos 100000))
      bounded at (text "max_wait_seconds", (quota.max_wait_seconds, pos 3600))

check_group : Text → Configuration → ModelConfig → Text → Result (Unit {0})
check_group at cfg model group = elim (lookup group cfg.quota_groups) [
  | none ↦ err unknown
  | some quota ↦ fail_if (lt_int quota.tokens_per_minute model.max_output_tokens) unknown
]
  where
    unknown : Error
    unknown =
        field (at ++ text ".quota_groups")
          (text "unknown group or output cap exceeds its token limit")

abbrev known {ℓ} : {V : Type ℓ} → Text → List (Text × V) → Bool
known k m = elim (lookup k m) [ none ↦ false | some _ ↦ true ]

unfoldable pub validate_model : Configuration → Text × ModelConfig → Result (Unit {0})
unfolding check_group
validate_model cfg (name, model) =
    let at = text "models." ++ name in
    do
      fail_if (not (config_name name)) (field (text "models") (text "invalid name"))
      fail_if
          (lt_int model.input_headroom_percent (pos 0)
            || lt_int (pos 1000) model.input_headroom_percent)
          (field (at ++ text ".input_headroom_percent")
            (text "must be between 0 and 1000; zero selects the 20 percent default"))
      fail_if (not (known model.provider cfg.providers))
          (field (at ++ text ".provider") (text "unknown provider"))
      fail_if (blank model.model || ltb 256 (length model.model))
          (field (at ++ text ".model") (text "must contain 1-256 bytes"))
      fail_if
          (lt_int model.max_output_tokens (pos 1)
            || lt_int (pos 1000000000) model.max_output_tokens)
          (field (at ++ text ".max_output_tokens") (text "outside supported bounds"))
      fail_if (length model.quota_groups == 0)
          (field (at ++ text ".quota_groups") (text "requires at least one quota group"))
      unique_names model.quota_groups (at ++ text ".quota_groups")
      each (check_group at cfg model) model.quota_groups

unfoldable pub validate_profile : Text × SandboxConfig → Result (Unit {0})
validate_profile (name, profile) = do
  fail_if (not (config_name name)) (field (text "sandbox_profiles") (text "invalid name"))
  validate_sandbox (text "sandbox_profiles." ++ name) profile

check_dependency : Text → Configuration → Text → Result (Unit {0})
check_dependency at cfg dependency = elim (tool cfg dependency) [
  | none ↦ err (field (at ++ text ".requires_tools") (text "unknown dependency"))
  | some _ ↦ ok tt
]

unfoldable pub validate_tool : Configuration → Text × ToolConfig → Result (Unit {0})
unfolding check_dependency
validate_tool cfg (name, t) =
    let at = text "tools." ++ name in
    do
      fail_if (not (config_name name) || not (has_prefix name (text "shared.")))
          (field (text "tools") (text "administrative tool names must start with shared."))
      fail_if (not (same t.kind (text "skill"))) (
          field (at ++ text ".kind") (
            text
              "administrative executables are not enabled; use reviewed runtime tools or inert local drafts"))
      fail_if (lt_int t.version (pos 1) || lt_int (pos 2147483647) t.version)
          (field (at ++ text ".version") (text "outside supported bounds"))
      fail_if
          (blank t.description
            || (ltb 4096 (length t.description)
                || (blank t.content || ltb 32768 (length t.content))))
          (field at
            (text "requires a description (up to 4096 bytes) and content (up to 32768 bytes)"))
      unique_names t.requires_tools (at ++ text ".requires_tools")
      each (check_dependency at cfg) t.requires_tools

abbrev cycle : Error
cycle = field (text "tools") (text "dependency cycle or excessive nesting")

-- The loop of `visit` over the dependencies, threading the visited set.
visit_all : (List Text → Text → Result (List Text)) → List Text → List Text → Result (List Text)
visit_all visit visited [] = ok visited
visit_all visit visited (name ∷ names) = visit visited name >>= λ more. visit_all visit more names

-- `visit name depth` with 33 - depth levels left: at none the depth has passed 32. `visiting` is the
-- path from the root, which the source's `visiting` map holds; the result is the visited set.
unfoldable pub visit : Configuration → ℕ → List Text → List Text → Text → Result (List Text)
unfolding visit_all
visit cfg zero visiting visited name = err cycle
visit cfg (suc left) visiting visited name =
    let below =
      visit_all (visit cfg left (name ∷ visiting)) visited (tool_or_zero cfg name).requires_tools in
    if contains visiting name
    then err cycle
    else if contains visited name
    then ok visited
    else below >>= λ more. ok (name ∷ more)

visit_tools : Configuration → List Text → List (Text × ToolConfig) → Result (Unit {0})
visit_tools cfg visited [] = ok tt
visit_tools cfg visited ((name, _) ∷ rest) =
    visit cfg 33 [] visited name >>= λ more. visit_tools cfg more rest

validate_learning : Net → Option LearningConfig → Result (Unit {0})
validate_learning net none = ok tt
validate_learning net (some learning) =
    fail_if
      (not (net.canonical_root learning.toolchain_root && net.is_digest learning.toolchain_digest))
      (field (text "learning")
        (text "requires an absolute canonical toolchain_root and its SHA-256 tree digest"))

-- All of `Validate` but its last test, which `Config.Bootstrap.validate` adds.
unfoldable pub validate_definitions : Net → (Text → Option Text) → Configuration → Result (Unit {0})
unfolding visit_tools validate_learning
validate_definitions net lookup_env cfg = do
  fail_if (not (eq_int cfg.schema_version (pos 1)))
      (field (text "schema_version") (text "must be 1"))
  fail_if (same cfg.data_dir [] || contains_byte cfg.data_dir 0)
      (field (text "data_dir") (text "must be a nonempty path"))
  validate_learning net cfg.learning
  each (validate_provider net lookup_env) cfg.providers
  each validate_quota cfg.quota_groups
  each (validate_model cfg) cfg.models
  each validate_profile cfg.sandbox_profiles
  each (validate_tool cfg) cfg.tools
  visit_tools cfg [] cfg.tools
