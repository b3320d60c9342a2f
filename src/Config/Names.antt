-- ===== src/Config/Names.antt =====
-- The name patterns of state/config.go and `UniqueNames`.
use microoperator.Base.{
  ℕ, Bool, false, ◌&&◌, ◌||◌, List, [], ◌∷◌, Text, text, contains, length, between, ltb, leb, ◌==◌,
  all, Result, ok, fail_if, ◌>>=◌, ◌>>◌, field, not,
}

name_char : ℕ → Bool
name_char c =
    between b'a' b'z' c || (between b'0' b'9' c || (c == b'_' || (c == b'.' || c == b'-')))

-- ^[a-z][a-z0-9_.-]{0,63}$
unfoldable pub config_name : Text → Bool
unfolding name_char
config_name [] = false
config_name (c ∷ rest) = between b'a' b'z' c && leb (length rest) 63 && all name_char rest

env_start : ℕ → Bool
env_start c = between b'A' b'Z' c || (between b'a' b'z' c || c == b'_')

-- ^[A-Za-z_][A-Za-z0-9_]{0,127}$
unfoldable pub env_name : Text → Bool
unfolding env_start
env_name [] = false
env_name (c ∷ rest) =
    env_start c && leb (length rest) 127 && all (λ d. env_start d || between b'0' b'9' d) rest

-- The loop of `UniqueNames`, with the names that it has seen.
unfoldable pub unique_from : List Text → List Text → Text → Result (Unit {0})
unique_from seen [] at = ok tt
unique_from seen (name ∷ names) at =
    let rest = unique_from (name ∷ seen) names at in
    fail_if (not (config_name name) || contains seen name)
      (field at (text "invalid or duplicate reference"))
    >>= λ _. rest

unfoldable pub unique_names : List Text → Text → Result (Unit {0})
unfolding unique_from
unique_names names at = do
  fail_if (ltb 256 (length names)) (field at (text "too many references"))
  unique_from [] names at
