-- ===== src/Base/Strings.antt =====
-- Go strings as lists of bytes, with what the source uses of `strings` and `unicode/utf8`.
use Prim.Native.Char.{code}
use Prim.Native.Nat.{ℕ, zero, suc, ◌+◌, ◌-◌, ◌*◌}
use Prim.Native.String.{String}
use mathlib.Core.Path.{◌≡◌, refl}
use mathlib.Core.Logic.{◌↔◌, inl, inr}
use mathlib.Core.Bool.{Bool, true, false, not, ◌&&◌, ◌||◌}
use mathlib.Core.Option.{Option, none, some}
use mathlib.Core.List.{List, [], ◌∷◌, reverse}
use native.Mathlib.Omega.{arith}
use microoperator.Base.Tests.{ltb, leb, ◌==◌, if◌then◌else◌, Bool-cases}
use microoperator.Base.Lists.{length, any, all, All}

abbrev pub Text : Type 0
Text = List ℕ

codes : String → List ℕ
codes String.[] = []
codes (String.◌∷◌ c s) = code c ∷ codes s

-- A literal of the source, in ASCII.
unfoldable pub text : String → Text
unfolding codes
text s = codes s

unfoldable pub same : Text → Text → Bool
same [] [] = true
same [] (b ∷ t) = false
same (a ∷ s) [] = false
same (a ∷ s) (b ∷ t) = (a == b) && same s t

pub same_iff : (s t : Text) → (same s t ≡ true) ↔ (s ≡ t)
unfolding same
same_iff [] [] = ((λ _. refl), λ _. refl)
same_iff [] (b ∷ t) = ((λ h. cc), λ h. cc)
same_iff (a ∷ s) [] = ((λ h. cc), λ h. cc)
same_iff (a ∷ s) (b ∷ t) = ((λ h. ground (arith, same_iff s t)), λ h. ground (arith, same_iff s t))

pub same_refl : (s : Text) → same s s ≡ true
same_refl s = (same_iff s s).1 refl

pub same-sym : (s t : Text) → same s t ≡ same t s
same-sym s t = elim (Bool-cases (same s t)) [
  | inl h ↦ let equal : t ≡ s = cc ((same_iff s t).0 h) in let back = (same_iff t s).1 equal in cc
  | inr h ↦ elim (Bool-cases (same t s)) [
    | inl back ↦
        let equal : s ≡ t = cc ((same_iff t s).0 back) in let forth = (same_iff s t).1 equal in cc
    | inr back ↦ cc
  ]
]

-- slices.Contains
abbrev pub contains : List Text → Text → Bool
contains xs t = any (λ x. same x t) xs

-- strings.HasPrefix
unfoldable pub has_prefix : Text → Text → Bool
has_prefix s [] = true
has_prefix [] (p ∷ ps) = false
has_prefix (c ∷ s) (p ∷ ps) = (c == p) && has_prefix s ps

-- strings.HasSuffix
unfoldable pub has_suffix : Text → Text → Bool
unfolding has_prefix
has_suffix s t = has_prefix (reverse s) (reverse t)

-- strings.ContainsRune and ContainsAny, for ASCII characters.
abbrev pub contains_byte : Text → ℕ → Bool
contains_byte s c = any (λ b. b == c) s

abbrev pub between : ℕ → ℕ → ℕ → Bool
between lo hi b = leb lo b && leb b hi

cont : ℕ → Bool
cont b = between 0x80 0xBF b

-- One step of utf8.DecodeRuneInString: the rune, or `none` for an invalid byte, and its width.
decode_rune : Text → Option ℕ × ℕ
unfolding cont
decode_rune [] = (none, 0)
decode_rune (a ∷ []) = if ltb a 0x80 then (some a, 1) else (none, 1)
decode_rune (a ∷ b ∷ []) =
    if ltb a 0x80
    then (some a, 1)
    else if between 0xC2 0xDF a && cont b
    then (some ((a - 0xC0) * 64 + (b - 0x80)), 2)
    else (none, 1)
decode_rune (a ∷ b ∷ c ∷ rest) =
    if ltb a 0x80
    then (some a, 1)
    else if between 0xC2 0xDF a && cont b
    then (some ((a - 0xC0) * 64 + (b - 0x80)), 2)
    else if (between 0xE0 0xEF a && cont c)
        && (between (if a == 0xE0 then 0xA0 else 0x80) (if a == 0xED then 0x9F else 0xBF) b)
    then (some ((a - 0xE0) * 4096 + (b - 0x80) * 64 + (c - 0x80)), 3)
    else four a b c rest
  where
    four : ℕ → ℕ → ℕ → List ℕ → Option ℕ × ℕ
    four a b c [] = (none, 1)
    four a b c (d ∷ _) =
        if (between 0xF0 0xF4 a && cont c && cont d)
          && (between (if a == 0xF0 then 0x90 else 0x80) (if a == 0xF4 then 0x8F else 0xBF) b)
        then (some ((a - 0xF0) * 262144 + (b - 0x80) * 4096 + (c - 0x80) * 64 + (d - 0x80)), 4)
        else (none, 1)

advance : ℕ → Text → Text
advance zero s = s
advance (suc n) [] = []
advance (suc n) (_ ∷ s) = advance n s

-- The runes of a string. Every round consumes a byte, so the length is enough fuel.
runes_from : ℕ → Text → List (Option ℕ)
unfolding decode_rune advance
runes_from zero s = []
runes_from (suc f) [] = []
runes_from (suc f) (b ∷ s) =
    let (r, w) = decode_rune (b ∷ s) in r ∷ runes_from f (advance w (b ∷ s))

unfoldable pub runes : Text → List (Option ℕ)
unfolding runes_from
runes s = runes_from (length s) s

is_some : Option ℕ → Bool
is_some none = false
is_some (some _) = true

-- utf8.ValidString
unfoldable pub valid_utf8 : Text → Bool
unfolding runes is_some
valid_utf8 s = all is_some (runes s)

decode_rune-ascii : (b : ℕ) (s : Text) → ltb b 0x80 ≡ true → decode_rune (b ∷ s) ≡ (some b, 1)
unfolding decode_rune
decode_rune-ascii b [] h = rw h refl
decode_rune-ascii b (c ∷ []) h = rw h refl
decode_rune-ascii b (c ∷ d ∷ s) h = rw h refl

-- A text of ASCII is valid.
pub ascii-valid_utf8 : (s : Text) → All (λ b. ltb b 0x80 ≡ true) s → valid_utf8 s ≡ true
unfolding valid_utf8 runes runes_from is_some advance
ascii-valid_utf8 [] h = refl
ascii-valid_utf8 (b ∷ s) h = rw (decode_rune-ascii b s h.0) (ascii-valid_utf8 s h.1)

-- unicode.IsSpace; an invalid byte is U+FFFD, which is no space.
is_space : Option ℕ → Bool
is_space none = false
is_space (some r) =
    between 9 13 r
    || (r == 32
        || (r == 0x85
            || (r == 0xA0
                || (r == 0x1680
                    || (between 0x2000 0x200A r
                        || (r == 0x2028
                            || (r == 0x2029 || (r == 0x202F || (r == 0x205F || r == 0x3000)))))))))

-- unicode.IsControl
is_control : Option ℕ → Bool
is_control none = false
is_control (some r) = ltb r 0x20 || between 0x7F 0x9F r

-- strings.TrimSpace(s) == ""
unfoldable pub blank : Text → Bool
unfolding runes is_space
blank s = all is_space (runes s)

first_is_space : List (Option ℕ) → Bool
unfolding is_space
first_is_space [] = false
first_is_space (r ∷ _) = is_space r

-- strings.TrimSpace(s) == s: neither the first rune nor the last is a space.
unfoldable pub trimmed : Text → Bool
unfolding runes first_is_space
trimmed s = not (first_is_space (runes s)) && not (first_is_space (reverse (runes s)))

-- strings.IndexFunc(s, unicode.IsControl) >= 0
unfoldable pub has_control : Text → Bool
unfolding runes is_control
has_control s = any is_control (runes s)

count_fields : Bool → List (Option ℕ) → ℕ
unfolding is_space
count_fields inside [] = 0
count_fields inside (r ∷ rs) =
    let more = count_fields (not (is_space r)) rs in
    if not inside && not (is_space r) then suc more else more

-- len(strings.Fields(s))
unfoldable pub fields : Text → ℕ
unfolding runes count_fields
fields s = count_fields false (runes s)

-- No text is in the list twice.
abbrev pub Distinct : List Text → Type 0
Distinct [] = Unit
Distinct (x ∷ xs) = (contains xs x ≡ false) × Distinct xs
