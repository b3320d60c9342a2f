-- ===== src/Access/Env.antt =====
-- What an operation is given besides the database: the configuration, the clock, and the digests.
-- `JsonDigest` (state/config.go) is encoding/json and crypto/sha256, which `Digests` stands for.
use microoperator.Base.{ℤ, Bool, true, false, List, ◌++◌, Text, text, Error}
use microoperator.Config.{
  ProviderConfig, ModelConfig, QuotaConfig, SandboxConfig, ToolConfig, Configuration,
}

-- state/store.go
pub record ModelDefinition : Type 0 where
  pub model : ModelConfig
  pub provider : ProviderConfig
  pub quotas : List (Text × QuotaConfig)

-- The value whose digest binds a system to its administrative definitions.
pub record GrantDefinitions : Type 0 where
  pub initial : ModelDefinition
  pub profile : SandboxConfig
  pub tools : List (Text × ToolConfig)
  pub models : List (Text × ModelDefinition)

pub record Digests : Type 0 where
  pub of_tool : ToolConfig → Text
  pub of_profile : SandboxConfig → Text
  pub of_definitions : GrantDefinitions → Text

-- `now` is the time that the daemon passes in, `wall` what time.Now() gives inside the operation,
-- both in Unix milliseconds.
pub record Env : Type 0 where
  pub digests : Digests
  pub cfg : Configuration
  pub now : ℤ
  pub wall : ℤ

abbrev pub local_administrator : Text
local_administrator = text "local-admin"

-- err.Error()
unfoldable pub error_text : Error → Text
error_text (Error.field at problem) = at ++ (text ": " ++ problem)
error_text Error.system_not_found = text "system not found"
error_text Error.command_conflict = text "idempotency key was already used for a different command"
error_text Error.revision_conflict = text "system revision has changed"
error_text Error.execution_conflict =
    text
      "execution state conflicts with this command; stop active work before revising or starting again"
error_text Error.no_rows = text "sql: no rows in result set"
error_text (Error.fault problem) = problem

-- DeniedTask (state/team_ops.go)
unfoldable pub denied_task : Error → Bool
denied_task (Error.field _ _) = true
denied_task Error.execution_conflict = true
denied_task _ = false
