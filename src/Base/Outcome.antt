-- ===== src/Base/Outcome.antt =====
-- Go's `error` results. `field` is a `FieldError` (state/config.go), whose text is the
-- field, a colon and the problem; the next five are the package's sentinel errors and
-- sql.ErrNoRows; `fault` is any other error.
use mathlib.Core.Path.{◌≡◌, refl}
use mathlib.Core.Bool.{Bool, true, false}
use mathlib.Core.List.{List, [], ◌∷◌}
use microoperator.Base.Strings.{Text}
use microoperator.Base.Tests.{if◌then◌else◌}

pub data Error : Type 0 where
  field : Text → Text → Error
  system_not_found command_conflict revision_conflict execution_conflict no_rows : Error
  fault : Text → Error

pub data Result {ℓ} (A : Type ℓ) : Type ℓ where
  ok : A → Result A
  err : Error → Result A

-- `if bad { return e }`
abbrev pub fail_if : Bool → Error → Result (Unit {0})
fail_if true problem = err problem
fail_if false _ = ok tt

infixl 5 ◌>>=◌
-- `v, err := m; if err != nil { return err }`
abbrev pub ◌>>=◌ {ℓ κ} : {A : Type ℓ} {B : Type κ} → Result A → (A → Result B) → Result B
err problem >>= rest = err problem
ok value >>= rest = rest value

infixl 5 ◌>>◌
-- The same for an error alone.
abbrev pub ◌>>◌ {κ} : {B : Type κ} → Result (Unit {0}) → Result B → Result B
check >> rest = check >>= λ _. rest

pub fail_if-ok : (b : Bool) (e : Error) → fail_if b e ≡ ok tt → b ≡ false
fail_if-ok true e h = cc
fail_if-ok false e h = refl

-- The parts of a chain that succeeds.
pub >>=-eq-ok {ℓ κ} :
    {A : Type ℓ} {B : Type κ} (first : Result A) (rest : A → Result B) {result : B}
    → (first >>= rest) ≡ ok result
    → (value : A) × (first ≡ ok value) × (rest value ≡ ok result)
>>=-eq-ok (err problem) rest done = cc
>>=-eq-ok (ok value) rest done = (value, refl, done)

pub fail_if-then {ℓ} :
    {B : Type ℓ} (b : Bool) (e : Error) (m : Result B) {x : B}
    → (fail_if b e >> m) ≡ ok x
    → (b ≡ false) × (m ≡ ok x)
fail_if-then true e m h = cc
fail_if-then false e m h = (refl, h)

-- A refusal that did not happen.
pub if-err {ℓ} :
    {B : Type ℓ} (b : Bool) (e : Error) (m : Result B) {x : B}
    → (if b then err e else m) ≡ ok x
    → (b ≡ false) × (m ≡ ok x)
if-err true e m h = cc
if-err false e m h = (refl, h)

pub ok-injective {ℓ} : {A : Type ℓ} {a b : A} → ok a ≡ ok b → a ≡ b
ok-injective h = cc

-- A loop that stops at its first error.
module _ {ℓ} {A : Type ℓ} where
  abbrev pub each : (A → Result (Unit {0})) → List A → Result (Unit {0})
  each f [] = ok tt
  each f (x ∷ xs) = let rest = each f xs in f x >>= λ _. rest
