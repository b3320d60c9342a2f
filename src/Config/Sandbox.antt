-- ===== src/Config/Sandbox.antt =====
-- `ValidateSandbox` and `GeneratedProfile` (state/config.go, state/generated.go).
use microoperator.Base.{
  ℤ, pos, lt_int, Bool, true, false, not, ◌&&◌, ◌||◌, List, [], ◌∷◌, ◌++◌, reverse, Text, text,
  same, contains, contains_byte, length, ltb, ◌==◌, if◌then◌else◌, Result, ok, fail_if, ◌>>=◌, ◌>>◌,
  field, Option, none, some,
}
use microoperator.Config.{SandboxConfig, ResourceLimits}

-- strings.Split(value, "/"), with the component that is being read.
split_from : Text → Text → List Text
split_from current [] = reverse current ∷ []
split_from current (c ∷ rest) =
    if c == b'/' then reverse current ∷ split_from [] rest else split_from (c ∷ current) rest

-- The first result of strings.Cut(value, "/").
unfoldable pub base_of : Text → Text
base_of [] = []
base_of (c ∷ rest) = let tail = base_of rest in if c == b'/' then [] else c ∷ tail

-- path.Clean by components: `kept` is the cleaned prefix, last component first.
clean_from : Bool → List Text → List Text → List Text
clean_from rooted kept [] = reverse kept
clean_from rooted kept (part ∷ parts) =
    clean_from rooted
      (if same part [] || same part (text ".")
        then kept
        else if same part (text "..")
        then drop_last rooted kept
        else part ∷ kept)
      parts
  where
    drop_last : Bool → List Text → List Text
    drop_last true [] = []
    drop_last false [] = text ".." ∷ []
    drop_last true (last ∷ front) = front
    drop_last false (last ∷ front) =
        if same last (text "..") then text ".." ∷ last ∷ front else front

join : List Text → Text
join [] = []
join (part ∷ []) = part
join (part ∷ next ∷ parts) = part ++ (b'/' ∷ join (next ∷ parts))

is_rooted : Text → Bool
is_rooted [] = false
is_rooted (c ∷ _) = c == b'/'

unfoldable pub clean : Text → Text
unfolding split_from clean_from join is_rooted
clean value =
    let rooted = is_rooted value in
    let body = join (clean_from rooted [] (split_from [] value)) in
    if rooted then b'/' ∷ body else if same body [] then text "." else body

-- One round of the loop over a profile's paths.
unfoldable pub path_accepted : Bool → List Text → Text → Bool
path_accepted writable seen value =
    let base = base_of value in
    (same base (text "scratch")
      || (same base (text "output") || (not writable && same base (text "inputs"))))
    && same value (clean value)
    && not (ltb 4096 (length value))
    && not (contains_byte value b'\\' || contains_byte value 0)
    && not (contains seen value)

check_paths : Text → Bool → List Text → List Text → Result (Unit {0})
check_paths at writable seen [] = ok tt
check_paths at writable seen (value ∷ values) =
    let rest = check_paths at writable (value ∷ seen) values in
    fail_if (not (path_accepted writable seen value))
      (field at (text "paths must be unique, clean, and inside permitted workspace directories"))
    >>= λ _. rest

abbrev out_of_range : ℤ → ℤ → ℤ → Bool
out_of_range lo hi v = lt_int v lo || lt_int hi v

resources_rejected : ResourceLimits → Bool
resources_rejected r =
    out_of_range (pos 67108864) (pos 17179869184) r.memory_bytes
    || (out_of_range (pos 1048576) (pos 1073741824) r.workspace_bytes
        || (lt_int r.memory_bytes r.workspace_bytes
            || (out_of_range (pos 32) (pos 4096) r.processes
                || out_of_range (pos 1) (pos 1000) r.cpu_percent)))

check_resources : Text → Option ResourceLimits → Result (Unit {0})
unfolding resources_rejected
check_resources at none = ok tt
check_resources at (some r) = fail_if (resources_rejected r) (
    field (at ++ text ".resources") (
      text
        "requires memory 64 MiB-16 GiB, workspace 1 MiB-1 GiB (<= memory), 32-4096 processes/threads, and 1-1000 CPU percent"))

check_list : Text → Bool → List Text → Result (Unit {0})
unfolding check_paths
check_list at writable paths = do
  fail_if (ltb 256 (length paths)) (field at (text "too many paths"))
  check_paths at writable [] paths

unfoldable pub validate_sandbox : Text → SandboxConfig → Result (Unit {0})
unfolding check_resources check_list
validate_sandbox at profile = do
  check_resources at profile.resources
  fail_if (not (same profile.network (text "blocked")))
      (field (at ++ text ".network") (text "only blocked networking is supported"))
  check_list (at ++ text ".read") false profile.read
  check_list (at ++ text ".read_write") true profile.read_write

is_pair : Text → Text → List Text → Bool
is_pair a b (x ∷ y ∷ []) = same x a && same y b
is_pair a b _ = false

is_single : Text → List Text → Bool
is_single a (x ∷ []) = same x a
is_single a _ = false

has_resources : Option ResourceLimits → Bool
has_resources none = false
has_resources (some _) = true

-- The platform is linux/amd64, which `supported` tells.
unfoldable pub generated_profile : Bool → SandboxConfig → Result (Unit {0})
unfolding is_pair is_single has_resources
generated_profile supported profile = do
  fail_if
      (not supported || (not (has_resources profile.resources) || same profile.resource_root []))
      (field (text "sandbox")
        (text "generated execution requires the qualified Linux/amd64 delegated resource profile"))
  validate_sandbox (text "sandbox") profile
  fail_if
      (not (
        is_single (text "inputs") profile.read
        && (is_pair (text "scratch") (text "output") profile.read_write
            || is_pair (text "output") (text "scratch") profile.read_write)))
      (field (text "sandbox")
        (text "generated work requires only read-only inputs and bounded scratch/output"))
