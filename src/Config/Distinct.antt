-- ===== src/Config/Distinct.antt =====
-- What `UniqueNames` (state/config.go) accepts.
use microoperator.Base.{
  Distinct, not-not, ◌≡◌, ◌↔◌, refl, ◌≤◌, ℕ, true, false, not, ◌||◌, List, [], ◌∷◌, Text, same,
  same-sym, contains, length, ltb, ok, fail_if-then, All, All-map, ||_split, arith,
}
use microoperator.Config.Names.{config_name, unique_from, unique_names}

abbrev Fresh : List Text → Text → Type 0
Fresh seen name = (config_name name ≡ true) × (contains seen name ≡ false)

-- A name that is not seen afterwards.
contains-All :
    (x : Text) (names : List Text)
    → All (λ y. contains (x ∷ []) y ≡ false) names
    → contains names x ≡ false
contains-All x [] h = refl
contains-All x (y ∷ names) h =
    let differs = (||_split (same x y) false h.0).0 in
    let rest = contains-All x names h.1 in rw (same-sym y x) rw differs rest

unique_from-Fresh :
    (seen names : List Text) (at : Text)
    → unique_from seen names at ≡ ok tt
    → All (Fresh seen) names × Distinct names
unfolding unique_from
unique_from-Fresh seen [] at h = (tt, tt)
unique_from-Fresh seen (name ∷ names) at h =
    let bad = not (config_name name) || contains seen name in
    let step = fail_if-then bad _ (unique_from (name ∷ seen) names at) h in
    let good = ||_split (not (config_name name)) (contains seen name) step.0 in
    let rest = unique_from-Fresh (name ∷ seen) names at step.1 in
    (
      (
        (not-not (config_name name) good.0, good.1),
        All-map _ _ names (λ y f. (f.0, (||_split (same name y) (contains seen y) f.1).1)) rest.0,
      ),
      (
        contains-All name names (
            All-map _ _ names (λ y f. rw ((||_split (same name y) (contains seen y) f.1).0) refl)
              rest.0),
        rest.1,
      ),
    )

-- The converse: distinct names, none of them seen, are accepted.
Fresh-unique_from :
    (seen names : List Text) (at : Text)
    → All (Fresh seen) names
    → Distinct names
    → unique_from seen names at ≡ ok tt
unfolding unique_from
Fresh-unique_from seen [] at h d = refl
Fresh-unique_from seen (name ∷ names) at h d =
    let rest = Fresh-unique_from (name ∷ seen) names at (later names h.1 d.0) d.1 in
    rw (h.0.0) rw (h.0.1) rest
  where
    later :
        (ys : List Text)
        → All (Fresh seen) ys
        → contains ys name ≡ false
        → All (Fresh (name ∷ seen)) ys
    later [] k e = tt
    later (y ∷ ys) k e =
        let parts = ||_split (same y name) (contains ys name) e in
        ((k.0.0, rw (same-sym name y) rw (parts.0) k.0.1), later ys k.1 parts.1)

-- `UniqueNames` accepts a list of references exactly when there are at most 256, each is of the form
-- of a configured name, and no two are equal.
pub unique_names-Distinct :
    (names : List Text) (at : Text)
    → (unique_names names at ≡ ok tt)
      ↔ ((length names ≤ 256) × All (λ name. config_name name ≡ true) names × Distinct names)
unfolding unique_names
unique_names-Distinct names at = (forth, back)
  where
    forth :
        unique_names names at ≡ ok tt
        → (length names ≤ 256) × All (λ name. config_name name ≡ true) names × Distinct names
    forth h =
        let short = fail_if-then (ltb 256 (length names)) _ (unique_from [] names at) h in
        let parts = unique_from-Fresh [] names at short.1 in
        let few = short.0 in (ground arith, All-map _ _ names (λ y f. f.0) parts.0, parts.1)

    back :
        (length names ≤ 256) × All (λ name. config_name name ≡ true) names × Distinct names
        → unique_names names at ≡ ok tt
    back h =
        let short : ltb 256 (length names) ≡ false = few (length names) h.0 in
        let rest = Fresh-unique_from [] names at (All-map _ _ names (λ y f. (f, refl)) h.1) h.2 in
        rw short rest
      where
        few : (n : ℕ) → n ≤ 256 → ltb 256 n ≡ false
        few n le = ground arith
