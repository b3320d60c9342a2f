-- ===== src/Provider/Arguments.antt =====
-- `ValidateArguments` (state/registry.go): the arguments of a tool call against the schema of its
-- function. The arguments are an object that `DecodeJSON` accepted, so that no name stands twice in
-- it; the source's order of the fields is random.
use Prim.Native.Nat.{suc}
use Prim.Native.String.{String}
use microoperator.Base.{
  ℕ, ℤ, lt_int, Bool, false, not, ◌&&◌, ◌||◌, List, Text, text, same, contains, length, ltb,
  if◌then◌else◌, Result, ok, err, ◌>>◌, fail_if, Error, field, Option, none, some, each, find,
}
use microoperator.Protocol.Json.{
  Json, Items, Members, str, raw, arr, obj, nil, cons, end, member, names,
}

-- A property of a schema; a `max_length` of 0 is no limit.
pub record Property : Type 0 where
  pub name : Text
  pub type : Text
  pub max_length : ℕ
  pub minimum : Option ℤ
  pub enum : List Text

pub record ArgumentSpec : Type 0 where
  pub required : List Text
  pub properties : List Property

invalid : String → Error
invalid problem = field (text "arguments") (text problem)

is_null : Json → Bool
is_null (raw s) = same s (text "null")
is_null _ = false

-- The strings of an array; null is decoded as the empty string.
string_count : Items → Option ℕ
unfolding is_null
string_count nil = some 0
string_count (cons (str s) xs) = elim (string_count xs) [ none ↦ none | some n ↦ some (suc n) ]
string_count (cons (raw s) xs) =
    let more = string_count xs in
    if same s (text "null") then elim more [ none ↦ none | some n ↦ some (suc n) ] else none
string_count (cons _ xs) = none

-- `integer` is the int64 of a JSON number's text, if it is one.
module _ (integer : Text → Option ℤ) where
  check_string : Property → Json → Result (Unit {0})
  unfolding invalid
  check_string p (str value) = do
    fail_if (ltb 0 p.max_length && ltb p.max_length (length value))
        (invalid "string exceeds byte limit")
    fail_if (ltb 0 (length p.enum) && not (contains p.enum value)) (invalid "unsupported value")
  check_string p _ = err (invalid "expected a string")

  below_minimum : Property → ℤ → Bool
  below_minimum p value = elim p.minimum [ none ↦ false | some m ↦ lt_int value m ]

  check_integer : Property → Json → Result (Unit {0})
  unfolding invalid below_minimum
  check_integer p (raw s) = elim (integer s) [
    | none ↦ err (invalid "invalid integer")
    | some value ↦ fail_if (below_minimum p value) (invalid "invalid integer")
  ]
  check_integer p _ = err (invalid "invalid integer")

  check_boolean : Json → Result (Unit {0})
  unfolding invalid
  check_boolean (raw s) =
      fail_if (not (same s (text "true") || same s (text "false"))) (invalid "expected a boolean")
  check_boolean _ = err (invalid "expected a boolean")

  check_array : Json → Result (Unit {0})
  unfolding invalid string_count
  check_array (arr xs) = elim (string_count xs) [
    | none ↦ err (invalid "expected a bounded string array")
    | some n ↦ fail_if (ltb 256 n) (invalid "expected a bounded string array")
  ]
  check_array _ = err (invalid "expected a bounded string array")

  -- The body of the loop over the fields.
  unfoldable pub check_field : ArgumentSpec → Text → Json → Result (Unit {0})
  unfolding check_string check_integer check_boolean check_array invalid is_null
  check_field spec name value = elim (find (λ p. same p.name name) spec.properties) [
    | none ↦ err (invalid "unknown field")
    | some p ↦
        if is_null value
        then err (invalid "null is not supported")
        else if same p.type (text "string")
        then check_string p value
        else if same p.type (text "integer")
        then check_integer p value
        else if same p.type (text "boolean")
        then check_boolean value
        else if same p.type (text "array")
        then check_array value
        else err (Error.fault (text "unsupported reviewed argument schema"))
  ]

  check_fields : ArgumentSpec → Members → Result (Unit {0})
  unfolding check_field
  check_fields spec end = ok tt
  check_fields spec (member name value ms) =
      let rest = check_fields spec ms in check_field spec name value >> rest

  unfoldable pub validate_arguments : ArgumentSpec → Json → Result (Unit {0})
  unfolding check_fields invalid
  validate_arguments spec (obj ms) = do
    each (λ name. fail_if (not (contains (names ms) name)) (invalid "missing required field"))
        spec.required
    check_fields spec ms
  validate_arguments spec _ = err (invalid "requires an object")
