-- ===== src/Config/Tools.antt =====
-- Tool lookup: `BuiltinTool`, `Configuration.Tool`, `WithLocalTools` and `AllowedModels`.
use microoperator.Base.{ℤ, List, [], ◌∷◌, ◌++◌, Text, text, same, if◌then◌else◌, Option, none, some}
use microoperator.Config.{ToolConfig, Configuration, SystemConfig, lookup, zero_tool}
use microoperator.Config.Builtins.{builtin_table}

abbrev reviewed : Text → Text → ToolConfig
reviewed name description = record zero_tool {
  kind = text "executable";
  version = ℤ.pos 1;
  description = description;
  content = text "reviewed:" ++ name;
  requires_tools = [];
}

unfoldable pub builtin_tool : Text → Option ToolConfig
builtin_tool name = elim (lookup name builtin_table) [
  | none ↦ none
  | some description ↦ some (reviewed name description)
]

-- `Configuration.Tool`: the digest of the daemon's binary is a part of the text analyser.
unfoldable pub tool : Configuration → Text → Option ToolConfig
tool cfg name = elim (builtin_tool name) [
  | none ↦ lookup name cfg.tools
  | some t ↦ some (
      if same name (text "runtime.text.analyze")
      then record t { content = t.content ++ (text ":sha256:" ++ cfg.runtime_digest) }
      else t)
]

-- `t, _ := cfg.Tool(name)`
abbrev pub tool_or_zero : Configuration → Text → ToolConfig
tool_or_zero cfg name = elim (tool cfg name) [ none ↦ zero_tool | some t ↦ t ]

-- A local definition hides an administrative one of its name.
unfoldable pub with_local_tools : Configuration → List (Text × ToolConfig) → Configuration
with_local_tools cfg tools = record cfg { tools = tools ++ cfg.tools }

unfoldable pub allowed_models : SystemConfig → List Text
allowed_models system = elim system.models [
  | none ↦ system.operator.model ∷ []
  | some names ↦ names
]
