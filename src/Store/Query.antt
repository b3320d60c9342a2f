-- ===== src/Store/Query.antt =====
-- SQL on a table: UPDATE … WHERE, a single row, sums, counts and ORDER BY, with their laws.
use microoperator.Base.{
  int_laws, ◌++◌, false, ℕ, zero, suc, ◌+◌, ◌≡◌, ◌≤◌, arith, refl, ℤ, pos, ◌+ℤ◌, Bool, true, List,
  [], ◌∷◌, Option, none, some, if◌then◌else◌, All, keep, find, Result, ok, err, Error, Bool-cases,
  any, inl, inr, take,
}
use mathlib.Core.Path.{subst}

module _ {ℓ} {A : Type ℓ} where
  -- UPDATE t SET … WHERE …
  abbrev pub update_where : (A → Bool) → (A → A) → List A → List A
  update_where p f [] = []
  update_where p f (x ∷ xs) = (if p x then f x else x) ∷ update_where p f xs

  abbrev pub last : List A → Option A
  last [] = none
  last (x ∷ []) = some x
  last (x ∷ y ∷ ys) = last (y ∷ ys)

  -- SELECT … LIMIT 1, where no row is sql.ErrNoRows
  abbrev pub row : Option A → Result A
  row none = err Error.no_rows
  row (some x) = ok x

  -- SELECT COALESCE(SUM(f),0) … WHERE p
  abbrev pub sum_where : (A → Bool) → (A → ℤ) → List A → ℤ
  sum_where p f [] = pos 0
  sum_where p f (x ∷ xs) = (if p x then f x else pos 0) +ℤ sum_where p f xs

  -- SELECT count(*) … WHERE p
  abbrev pub count_where : (A → Bool) → List A → ℕ
  count_where p [] = 0
  count_where p (x ∷ xs) = (if p x then 1 else 0) + count_where p xs

  unfoldable pub insert_by : (A → A → Bool) → A → List A → List A
  insert_by before x [] = x ∷ []
  insert_by before x (y ∷ ys) =
      let rest = insert_by before x ys in if before y x then y ∷ rest else x ∷ y ∷ ys

  -- ORDER BY, where `before y x` says that y does not come after x.
  unfoldable pub order_by : (A → A → Bool) → List A → List A
  unfolding insert_by
  order_by before [] = []
  order_by before (x ∷ xs) = insert_by before x (order_by before xs)

module _ {ℓ κ} {A : Type ℓ} (P : A → Type κ) where
  pub All-find :
      (p : A → Bool) (xs : List A) {x : A} → All P xs → find p xs ≡ some x → P x × (p x ≡ true)
  All-find p [] h e = cc
  All-find p (y ∷ ys) {x} h e = elim (Bool-cases (p y)) [
    | inl hit ↦
        let same_row : y ≡ x = cc in (subst P same_row h.0, subst (λ z. p z ≡ true) same_row hit)
    | inr miss ↦ All-find p ys h.1 (rw miss at e)
  ]

  pub All-last : (xs : List A) {x : A} → All P xs → last xs ≡ some x → P x
  All-last [] h e = cc
  All-last (y ∷ []) {x} h e = let same_row : y ≡ x = cc in subst P same_row h.0
  All-last (y ∷ z ∷ zs) h e = All-last (z ∷ zs) h.1 e

  pub All-keep : (p : A → Bool) (xs : List A) → All P xs → All (λ x. P x × (p x ≡ true)) (keep p xs)
  All-keep p [] h = tt
  All-keep p (y ∷ ys) h = elim (Bool-cases (p y)) [
    | inl hit ↦ rw hit ((h.0, hit), All-keep p ys h.1)
    | inr miss ↦ rw miss (All-keep p ys h.1)
  ]

  -- A fact about every row survives an update that keeps it.
  pub All-update_where :
      (p : A → Bool) (f : A → A) (xs : List A)
      → ((x : A) → P x → p x ≡ true → P (f x))
      → All P xs
      → All P (update_where p f xs)
  All-update_where p f [] k h = tt
  All-update_where p f (y ∷ ys) k h = elim (Bool-cases (p y)) [
    | inl hit ↦ rw hit (k y h.0 hit, All-update_where p f ys k h.1)
    | inr miss ↦ rw miss (h.0, All-update_where p f ys k h.1)
  ]

  pub All-insert_by :
      (before : A → A → Bool) (x : A) (ys : List A) → P x → All P ys → All P (insert_by before x ys)
  unfolding insert_by
  All-insert_by before x [] hx h = (hx, tt)
  All-insert_by before x (y ∷ ys) hx h = elim (Bool-cases (before y x)) [
    | inl first ↦ rw first (h.0, All-insert_by before x ys hx h.1)
    | inr second ↦ rw second (hx, h)
  ]

  pub All-order_by : (before : A → A → Bool) (xs : List A) → All P xs → All P (order_by before xs)
  unfolding order_by
  All-order_by before [] h = tt
  All-order_by before (x ∷ xs) h =
      All-insert_by before x (order_by before xs) h.0 (All-order_by before xs h.1)

  pub All-take : (n : ℕ) (xs : List A) → All P xs → All P (take n xs)
  All-take zero xs h = tt
  All-take (suc n) [] h = tt
  All-take (suc n) (x ∷ xs) h = (h.0, All-take n xs h.1)

module _ {ℓ κ λ'} {A : Type ℓ} (P : A → Type κ) (Q : A → Type λ') where
  -- An update that takes one predicate of the rows to another.
  pub All-update_where_to :
      (p : A → Bool) (f : A → A) (xs : List A)
      → ((x : A) → P x → p x ≡ true → Q (f x))
      → ((x : A) → P x → p x ≡ false → Q x)
      → All P xs
      → All Q (update_where p f xs)
  All-update_where_to p f [] k m h = tt
  All-update_where_to p f (y ∷ ys) k m h = elim (Bool-cases (p y)) [
    | inl hit ↦ rw hit (k y h.0 hit, All-update_where_to p f ys k m h.1)
    | inr miss ↦ rw miss (m y h.0 miss, All-update_where_to p f ys k m h.1)
  ]

module _ {ℓ} {A : Type ℓ} (p : A → Bool) (f : A → ℤ) where
  pub sum_where-append :
      (xs ys : List A) → sum_where p f (xs ++ ys) ≡ sum_where p f xs +ℤ sum_where p f ys
  sum_where-append [] ys = grind int_laws
  sum_where-append (x ∷ xs) ys = grind (int_laws, sum_where-append xs ys)

pub count-append {ℓ} :
    {A : Type ℓ} (p : A → Bool) (xs : List A) (x : A)
    → count_where p (xs ++ x ∷ []) ≤ count_where p xs + 1
count-append p [] x = elim (Bool-cases (p x)) [
  | inl hit ↦ rw hit (omega arith)
  | inr miss ↦ rw miss (omega arith)
]
count-append p (y ∷ xs) x = omega (arith, count-append p xs x)

pub any-find {ℓ} :
    {A : Type ℓ} (p : A → Bool) (xs : List A) {x : A} → find p xs ≡ some x → any p xs ≡ true
any-find p [] h = cc
any-find p (y ∷ ys) {x} h = elim (Bool-cases (p y)) [
  | inl hit ↦ rw hit refl
  | inr miss ↦ rw miss (any-find p ys (rw miss at h))
]

pub All-trivial {ℓ} : {A : Type ℓ} (xs : List A) → All (λ x. Unit {0}) xs
All-trivial [] = tt
All-trivial (x ∷ xs) = (tt, All-trivial xs)

pub find-holds {ℓ} :
    {A : Type ℓ} (p : A → Bool) (xs : List A) {x : A} → find p xs ≡ some x → p x ≡ true
find-holds p [] e = cc
find-holds p (y ∷ ys) {x} e = elim (Bool-cases (p y)) [
  | inl hit ↦ let same_row : y ≡ x = cc in subst (λ z. p z ≡ true) same_row hit
  | inr miss ↦ find-holds p ys (rw miss at e)
]

-- An update that keeps the tested columns keeps that there is such a row.
pub find-update_where {ℓ} :
    {A : Type ℓ} (p q : A → Bool) (f : A → A) (xs : List A) {x : A}
    → ((y : A) → q (f y) ≡ q y)
    → find q xs ≡ some x
    → (z : A) × (find q (update_where p f xs) ≡ some z)
find-update_where p q f [] keeps h = cc
find-update_where p q f (y ∷ ys) {x} keeps h = elim (Bool-cases (q y)) [
  | inl found ↦
      let moved = keeps y in
      elim (Bool-cases (p y)) [
        | inl hit ↦ rw hit rw moved rw found (f y, refl)
        | inr miss ↦ rw miss rw found (y, refl)
      ]
  | inr other ↦
      let rest = find-update_where p q f ys keeps (rw other at h) in
      let moved = keeps y in
      elim (Bool-cases (p y)) [
        | inl hit ↦ rw hit rw moved rw other rest
        | inr miss ↦ rw miss rw other rest
      ]
]

-- More rows at the end do not hide the first one.
pub find-append {ℓ} :
    {A : Type ℓ} (p : A → Bool) (xs ys : List A) {x : A}
    → find p xs ≡ some x
    → find p (xs ++ ys) ≡ some x
find-append p [] ys h = cc
find-append p (y ∷ xs) ys h = elim (Bool-cases (p y)) [
  | inl hit ↦ rw hit (rw hit at h)
  | inr miss ↦ rw miss (find-append p xs ys (rw miss at h))
]

pub row-found {ℓ} : {A : Type ℓ} (o : Option A) {x : A} → row o ≡ ok x → o ≡ some x
row-found none h = cc
row-found (some y) h = cc
