-- ===== src/Config/Checks.antt =====
-- The single checks of `ValidateSystem` (state/config.go), and what they accept.
use microoperator.Base.{
  not-not, ◌≡◌, refl, sym, ap, ◌∙◌, ◌↔◌, ◌⊎◌, inl, inr, ℤ, pos, lt_int, ◌≤ℤ◌, ◌≤◌, ℕ, arith, Bool,
  true, false, not, ◌||◌, or_false, Bool-cases, List, [], Text, same, same_iff, contains, length,
  ltb, Result, Error, ok, err, fail_if, ◌>>◌, fail_if-ok, trimmed, has_control, valid_utf8, Option,
  none, some, some-injective, ||_split, if◌then◌else◌, if-true, if-false,
}
use mathlib.Core.Path.{subst}
use microoperator.Config.System.{validate_system_name, operator_included}

-- A name of 1 to 128 bytes of UTF-8, trimmed and without control characters.
pub record IsName (name : Text) : Type 0 where
  pub trim : trimmed name ≡ true
  pub some_text : same name [] ≡ false
  pub short : length name ≤ 128
  pub utf8 : valid_utf8 name ≡ true
  pub plain : has_control name ≡ false

pub ltb→le : (a b : ℕ) → ltb a b ≡ false → b ≤ a
ltb→le a b h = ground arith

pub le→ltb : (a b : ℕ) → b ≤ a → ltb a b ≡ false
le→ltb a b h = ground arith

pub true→not : {b : Bool} → b ≡ true → not b ≡ false
true→not h = ap not h

-- A chain goes on past a check that holds.
pub past {ℓ} :
    {A : Type ℓ} (first : Result (Unit {0})) (rest : Result A) {x : A}
    → first ≡ ok tt
    → rest ≡ ok x
    → (first >> rest) ≡ ok x
past (ok tt) rest h k = k
past (err problem) rest h k = cc

pub fail_if-false : (b : Bool) (e : Error) → b ≡ false → fail_if b e ≡ ok tt
fail_if-false true e h = cc
fail_if-false false e h = refl

pub validate_system_name-IsName : (name : Text) → (validate_system_name name ≡ ok tt) ↔ IsName name
unfolding validate_system_name
validate_system_name-IsName name = (
  λ h.
      let bad = fail_if-ok _ _ h in
      let a = ||_split (not (trimmed name)) _ bad in
      let b = ||_split (same name []) _ a.1 in
      let c = ||_split (ltb 128 (length name)) _ b.1 in
      let d = ||_split (not (valid_utf8 name)) (has_control name) c.1 in
      record {
        trim = not-not _ a.0;
        some_text = b.0;
        short = ltb→le 128 (length name) c.0;
        utf8 = not-not _ d.0;
        plain = d.1;
      },
  λ n. fail_if-false _ _ (
      or_false _ _ (true→not n.trim) (
        or_false _ _ n.some_text (
          or_false _ _ (le→ltb 128 (length name) n.short)
            (or_false _ _ (true→not n.utf8) n.plain)))),
)

pub IsName-checked :
    (name : Text)
    → ((if same name [] then ok tt else validate_system_name name) ≡ ok tt)
      ↔ ((name ≡ []) ⊎ IsName name)
IsName-checked name = (
  λ h. elim (Bool-cases (same name [])) [
    | inl empty ↦ inl ((same_iff name []).0 empty)
    | inr given ↦ inr ((validate_system_name-IsName name).0 (sym (if-false _ _ _ given) ∙ h))
  ],
  λ h. elim h [
    | inl empty ↦ if-true _ _ _ ((same_iff name []).1 empty)
    | inr n ↦ if-false _ _ _ n.some_text ∙ (validate_system_name-IsName name).1 n
  ],
)

pub operator_included-some :
    (models : Option (List Text)) (model : Text)
    → (operator_included models model ≡ true) ↔ (
        (models ≡ none)
        ⊎ ((names : List Text) × (models ≡ some names) × (contains names model ≡ true)))
unfolding operator_included
operator_included-some none model = (λ h. inl refl, λ h. refl)
operator_included-some (some names) model = (
  λ h. inr (names, refl, h),
  λ h. elim h [
    | inl never ↦ cc
    | inr (names', same_names, h) ↦
        subst (λ x. contains x model ≡ true) (sym (some-injective same_names)) h
  ],
)

pub ge→lt_int : (a b : ℤ) → b ≤ℤ a → lt_int a b ≡ false
ge→lt_int a b h = ground arith

pub ≤ℤ-trans : (a b c : ℤ) → a ≤ℤ b → b ≤ℤ c → a ≤ℤ c
≤ℤ-trans a b c h k = omega arith

pub limits_hold :
    (agents active : ℤ)
    → pos 1 ≤ℤ active
    → active ≤ℤ agents
    → agents ≤ℤ pos 1024
    → (lt_int agents (pos 1)
        || (lt_int (pos 1024) agents || (lt_int active (pos 1) || lt_int agents active)))
      ≡ false
limits_hold agents active h k l =
    or_false _ _ (ge→lt_int agents (pos 1) (≤ℤ-trans (pos 1) active agents h k)) (
      or_false _ _ (ge→lt_int (pos 1024) agents l)
        (or_false _ _ (ge→lt_int active (pos 1) h) (ge→lt_int agents active k)))
