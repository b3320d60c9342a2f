-- ===== src/Config.antt =====
-- The records of state/config.go, and the registry of named entries that they form. A Go map is a
-- list of named entries with distinct names; where the source ranges over a map, the model goes
-- through it in the order of the list. An absent list (nil) is `none` where the source tells it
-- from an empty one.
pub mod Builtins
pub mod Names
pub mod Distinct
pub mod Tools
pub mod Sandbox
pub mod Admin
pub mod System
pub mod Checks
pub mod Validity
pub mod Bootstrap
use microoperator.Base.{ℤ, Text, same, List, [], ◌∷◌, Option, none, some, Bool, if◌then◌else◌}

pub record ProviderConfig : Type 0 where
  pub adapter : Text
  pub base_url : Text
  pub api_key_env : Text
  pub timeout_seconds : ℤ

pub record ModelConfig : Type 0 where
  pub provider : Text
  pub model : Text
  pub quota_groups : List Text
  pub max_output_tokens : ℤ
  pub input_headroom_percent : ℤ

pub record QuotaConfig : Type 0 where
  pub requests_per_minute : ℤ
  pub tokens_per_minute : ℤ
  pub burst_requests : ℤ
  pub max_concurrent : ℤ
  pub queue_capacity : ℤ
  pub max_wait_seconds : ℤ

-- state/resources.go
pub record ResourceLimits : Type 0 where
  pub memory_bytes : ℤ
  pub workspace_bytes : ℤ
  pub processes : ℤ
  pub cpu_percent : ℤ

pub record SandboxConfig : Type 0 where
  pub read : List Text
  pub read_write : List Text
  pub network : Text
  pub resources : Option ResourceLimits
  pub resource_root : Text
  pub toolchain : Text

pub record ToolConfig : Type 0 where
  pub kind : Text
  pub version : ℤ
  pub description : Text
  pub content : Text
  pub requires_tools : List Text
  pub binary_digest : Text
  pub profile_digest : Text
  pub runtime_digest : Text

pub record OperatorConfig : Type 0 where
  pub prompt : Text
  pub model : Text
  pub tools : Option (List Text)
  pub sandbox_profile : Text

pub record SystemLimits : Type 0 where
  pub max_agents : ℤ
  pub max_active_agents : ℤ
  pub token_budget : ℤ

pub record SystemConfig : Type 0 where
  pub name : Text
  pub constraints : Text
  pub models : Option (List Text)
  pub tools : Option (List Text)
  pub operator : OperatorConfig
  pub limits : SystemLimits

-- state/generated.go
pub record LearningConfig : Type 0 where
  pub toolchain_root : Text
  pub toolchain_digest : Text

pub record Configuration : Type 0 where
  pub runtime_digest : Text
  pub learning : Option LearningConfig
  pub bootstrap : Option SystemConfig
  pub schema_version : ℤ
  pub data_dir : Text
  pub providers : List (Text × ProviderConfig)
  pub models : List (Text × ModelConfig)
  pub quota_groups : List (Text × QuotaConfig)
  pub sandbox_profiles : List (Text × SandboxConfig)
  pub tools : List (Text × ToolConfig)

-- m[k], with a second result
abbrev pub lookup {ℓ} : {V : Type ℓ} → Text → List (Text × V) → Option V
lookup k [] = none
lookup k ((j, v) ∷ m) = let rest = lookup k m in if same j k then some v else rest

-- m[k], where a missing key gives the zero value
abbrev pub lookup_or {ℓ} : {V : Type ℓ} → V → Text → List (Text × V) → V
lookup_or z k m = elim (lookup k m) [ none ↦ z | some v ↦ v ]

-- The elements of a slice that may be nil.
abbrev pub elements {ℓ} : {A : Type ℓ} → Option (List A) → List A
elements none = []
elements (some xs) = xs

abbrev pub zero_tool : ToolConfig
zero_tool = record {
  kind = [];
  version = ℤ.pos 0;
  description = [];
  content = [];
  requires_tools = [];
  binary_digest = [];
  profile_digest = [];
  runtime_digest = [];
}

abbrev pub zero_provider : ProviderConfig
zero_provider = record { adapter = []; base_url = []; api_key_env = []; timeout_seconds = ℤ.pos 0 }

abbrev pub zero_model : ModelConfig
zero_model = record {
  provider = [];
  model = [];
  quota_groups = [];
  max_output_tokens = ℤ.pos 0;
  input_headroom_percent = ℤ.pos 0;
}

abbrev pub zero_quota : QuotaConfig
zero_quota = record {
  requests_per_minute = ℤ.pos 0;
  tokens_per_minute = ℤ.pos 0;
  burst_requests = ℤ.pos 0;
  max_concurrent = ℤ.pos 0;
  queue_capacity = ℤ.pos 0;
  max_wait_seconds = ℤ.pos 0;
}

abbrev pub zero_sandbox : SandboxConfig
zero_sandbox = record {
  read = [];
  read_write = [];
  network = [];
  resources = none;
  resource_root = [];
  toolchain = [];
}
