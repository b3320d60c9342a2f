-- ===== src/Provider/Redact.antt =====
-- strings.Contains and strings.ReplaceAll as provider/chat.go uses them to keep a credential out of
-- what a provider answered.
use microoperator.Base.{
  ℕ, zero, suc, ◌-◌, Bool, true, false, not, ◌||◌, [], ◌∷◌, ◌++◌, Text, text, same, length, ◌==◌,
  if◌then◌else◌, all, has_prefix, ◌≡◌, refl, arith, Bool-cases, inl, inr, &&_split, ||_split,
  or_false, ◌∙◌,
}

-- strings.Contains(s, key)
unfoldable pub occurs : Text → Text → Bool
occurs key [] = same key []
occurs key (c ∷ s) = has_prefix (c ∷ s) key || occurs key s

abbrev pub mark : Text
mark = text "[redacted]"

-- `skip` bytes belong to the occurrence that was replaced last.
unfoldable pub replaced : Text → ℕ → Text → Text
replaced key skip [] = []
replaced key zero (c ∷ s) =
    let same_byte = replaced key zero s in
    let after = replaced key (length key - 1) s in
    if has_prefix (c ∷ s) key then mark ++ after else c ∷ same_byte
replaced key (suc skip) (c ∷ s) = replaced key skip s

-- strings.ReplaceAll(s, key, "[redacted]"), for a key that is not empty.
unfoldable pub redacted : Text → Text → Text
unfolding replaced
redacted key s = replaced key zero s

abbrev bracket_free : Text → Bool
bracket_free s = all (λ b. not (b == 91 || b == 93)) s

-- A credential without brackets, no part of the word of the mark.
abbrev pub Redactable : Text → Type 0
Redactable key = (bracket_free key ≡ true) × (occurs key (text "redacted") ≡ false)

-- What the result begins with, up to a bracket, the text began with.
has_prefix-replaced :
    (key : Text) (s q : Text)
    → bracket_free q ≡ true
    → has_prefix (replaced key zero s) q ≡ true
    → has_prefix s q ≡ true
unfolding replaced has_prefix text
has_prefix-replaced key s [] free h = refl
has_prefix-replaced key [] (p ∷ q) free h = h
has_prefix-replaced key (c ∷ s) (p ∷ q) free h = elim (Bool-cases (has_prefix (c ∷ s) key)) [
  | inl hit ↦ let begins = rw (hit, replaced) at h in absurd (ground arith)
  | inr miss ↦
      let begins = rw (miss, replaced) at h in
      let parts = &&_split (c == p) _ begins in
      let more = has_prefix-replaced key s q (&&_split _ (bracket_free q) free).1 parts.1 in
      rw (parts.0) more
]

has_prefix-word :
    (q u t : Text)
    → bracket_free q ≡ true
    → has_prefix (u ++ 93 ∷ t) q ≡ true
    → has_prefix u q ≡ true
unfolding has_prefix
has_prefix-word [] u t free h = refl
has_prefix-word (p ∷ q) [] t free h = absurd (ground arith)
has_prefix-word (p ∷ q) (c ∷ u) t free h =
    let parts = &&_split (c == p) _ h in
    let more = has_prefix-word q u t (&&_split _ (bracket_free q) free).1 parts.1 in
    rw (parts.0) more

bracket_first :
    (key t : Text) (b : ℕ)
    → bracket_free key ≡ true
    → same key [] ≡ false
    → (b == 91 || b == 93) ≡ true
    → has_prefix (b ∷ t) key ≡ false
unfolding has_prefix same
bracket_first [] t b free some_byte bracket = cc
bracket_first (p ∷ q) t b free some_byte bracket = ground arith

occurs-word :
    (key u t : Text)
    → bracket_free key ≡ true
    → same key [] ≡ false
    → occurs key u ≡ false
    → occurs key t ≡ false
    → occurs key (u ++ 93 ∷ t) ≡ false
unfolding occurs
occurs-word key [] t free some_byte hu ht = rw (bracket_first key t 93 free some_byte refl) ht
occurs-word key (c ∷ u) t free some_byte hu ht =
    let parts = ||_split (has_prefix (c ∷ u) key) _ hu in
    let rest = occurs-word key u t free some_byte parts.1 ht in
    elim (Bool-cases (has_prefix (c ∷ (u ++ 93 ∷ t)) key)) [
      | inl hit ↦ let found = has_prefix-word key (c ∷ u) t free hit in cc
      | inr miss ↦ rw miss rest
    ]

pub occurs-nonempty : (key s : Text) → occurs key s ≡ false → same key [] ≡ false
unfolding occurs
occurs-nonempty key [] h = h
occurs-nonempty key (c ∷ s) h = occurs-nonempty key s (||_split (has_prefix (c ∷ s) key) _ h).1

occurs-cons :
    (key : Text) (c : ℕ) (s : Text) → occurs key (c ∷ s) ≡ (has_prefix (c ∷ s) key || occurs key s)
unfolding occurs
occurs-cons key c s = refl

occurs-mark :
    (key t : Text) → Redactable key → occurs key t ≡ false → occurs key (mark ++ t) ≡ false
unfolding text
occurs-mark key t r ht =
    let some_byte = occurs-nonempty key (text "redacted") r.1 in
    occurs-cons key 91 _
    ∙ or_false _ _ (bracket_first key _ 91 r.0 some_byte refl)
        (occurs-word key (text "redacted") t r.0 some_byte r.1 ht)

no_start :
    (key : Text) (c : ℕ) (s : Text)
    → bracket_free key ≡ true
    → has_prefix (c ∷ s) key ≡ false
    → replaced key zero (c ∷ s) ≡ c ∷ replaced key zero s
    → has_prefix (c ∷ replaced key zero s) key ≡ false
no_start key c s free miss kept = elim (Bool-cases (has_prefix (c ∷ replaced key zero s) key)) [
  | inr h ↦ h
  | inl h ↦ let found = has_prefix-replaced key (c ∷ s) key free (rw kept h) in cc
]

occurs-replaced :
    (key : Text) (skip : ℕ) (s : Text) → Redactable key → occurs key (replaced key skip s) ≡ false
unfolding replaced occurs
occurs-replaced key skip [] r = occurs-nonempty key (text "redacted") r.1
occurs-replaced key (suc skip) (c ∷ s) r = occurs-replaced key skip s r
occurs-replaced key zero (c ∷ s) r = elim (Bool-cases (has_prefix (c ∷ s) key)) [
  | inl hit ↦ rw (hit, replaced) (occurs-mark key _ r (occurs-replaced key (length key - 1) s r))
  | inr miss ↦
      let rest = occurs-replaced key zero s r in
      let kept : replaced key zero (c ∷ s) ≡ c ∷ replaced key zero s = rw (miss, replaced) refl in
      rw kept (or_false _ _ (no_start key c s r.0 miss kept) rest)
]

-- A credential without brackets that is no part of the word "redacted" does not occur in a text
-- after it was redacted.
pub occurs-redacted : (key s : Text) → Redactable key → occurs key (redacted key s) ≡ false
unfolding redacted
occurs-redacted key s r = occurs-replaced key zero s r
