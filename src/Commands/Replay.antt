-- ===== src/Commands/Replay.antt =====
-- The repetition of a command (`command` of state/store.go).
use microoperator.Base.{
  Bool, true, List, [], ◌∷◌, ◌++◌, Text, same, if◌then◌else◌, Result, ok, err, Error, none, some,
  find, ◌≡◌, refl,
}
use microoperator.Store.{Db}
use microoperator.Base.{
  Bool-cases, inl, inr, Option-cases, >>=-eq-ok, ok-injective, same_refl, same_iff, if-true,
  if-false, ◌∙◌, ap, sym,
}
use mathlib.Core.Path.{subst}
use microoperator.Access.Env.{Digests}
use microoperator.Access.Inspect.{System}
use microoperator.Commands.{
  Receipt, Journal, is_receipt, with_locals, replay, command, load_of, new_receipt, recorded,
}

module _ {ℓ} {A : Type ℓ} (p : A → Bool) where
  find-append : (xs ys : List A) {x : A} → find p xs ≡ some x → find p (xs ++ ys) ≡ some x
  find-append [] ys h = cc
  find-append (z ∷ xs) ys h = elim (Bool-cases (p z)) [
    | inl hit ↦ let found = rw hit at h in rw hit found
    | inr miss ↦ let rest = find-append xs ys (rw miss at h) in rw miss rest
  ]

  find-snoc : (xs : List A) (y : A) → find p xs ≡ none → p y ≡ true → find p (xs ++ y ∷ []) ≡ some y
  find-snoc [] y h hit = rw hit refl
  find-snoc (z ∷ xs) y h hit = elim (Bool-cases (p z)) [
    | inl found ↦ let clash = rw found at h in cc
    | inr miss ↦ let rest = find-snoc xs y (rw miss at h) hit in rw miss rest
  ]

-- The receipt that a successful command leaves.
pub record HasReceipt (principal key hash : Text) (j : Journal) (r : System) : Type 0 where
  pub receipt : Receipt
  pub there : find (is_receipt principal key) j.receipts ≡ some receipt
  pub hashed : same receipt.request_hash hash ≡ true
  pub answer : with_locals receipt.response [] ≡ with_locals r []

module _ (digests : Digests) (principal key hash : Text) where
  fresh-HasReceipt :
      (j after : Journal) (done : Db × System) (r : System)
      → find (is_receipt principal key) j.receipts ≡ none
      → recorded principal key hash j done ≡ after
      → done.1 ≡ r
      → HasReceipt principal key hash after r
  unfolding is_receipt
  fresh-HasReceipt j after done r fresh same_journal same_result = record {
    receipt = new_receipt principal key hash done.1;
    there =
        subst
          (λ (x : Journal).
            find (is_receipt principal key) x.receipts
            ≡ some (new_receipt principal key hash done.1))
          same_journal
          (find-snoc (is_receipt principal key) j.receipts (new_receipt principal key hash done.1)
            fresh (rw (same_refl principal) rw (same_refl key) refl));
    hashed = same_refl hash;
    answer = ap (λ x. with_locals x []) same_result;
  }

  replay-HasReceipt :
      (j after : Journal) (receipt : Receipt) (r : System)
      → find (is_receipt principal key) j.receipts ≡ some receipt
      → same receipt.request_hash hash ≡ true
      → replay digests j receipt.response ≡ ok (after, r)
      → HasReceipt principal key hash after r
  unfolding replay
  replay-HasReceipt j after receipt r hit repeated answered =
      let loaded = >>=-eq-ok (load_of digests j receipt.response) _ answered in
      let pair = ok-injective loaded.2 in
      record {
        receipt = receipt;
        there =
            subst (λ (x : Journal). find (is_receipt principal key) x.receipts ≡ some receipt)
              (ap (λ (x : Journal × System). x.0) pair) hit;
        hashed = repeated;
        answer = ap (λ (x : Journal × System). with_locals x.1 []) pair;
      }

  command-HasReceipt :
      (mutate : Db → Result (Db × System)) (j : Journal) {after : Journal} {r : System}
      → command digests principal key hash mutate j ≡ ok (after, r)
      → HasReceipt principal key hash after r
  unfolding command
  command-HasReceipt mutate j {after} {r} done =
      elim (Option-cases (find (is_receipt principal key) j.receipts)) [
        | inl fresh ↦
            let run = >>=-eq-ok (mutate j.db) _ (rw (command, fresh) at done) in
            let pair = ok-injective run.2 in
            fresh-HasReceipt j after run.0 r fresh (ap (λ (x : Journal × System). x.0) pair)
              (ap (λ (x : Journal × System). x.1) pair)
        | inr (receipt, hit) ↦ elim (Bool-cases (same receipt.request_hash hash)) [
          | inr other ↦ let failed = sym (if-false _ _ _ other) ∙ (rw (command, hit) at done) in cc
          | inl repeated ↦
              replay-HasReceipt j after receipt r hit repeated
                (sym (if-true _ _ _ repeated) ∙ (rw (command, hit) at done))
        ]
      ]

  -- A command that succeeded is never run twice. In any later journal, with whatever receipts have
  -- been added, a command of the same principal and key changes nothing and does not look at its own
  -- mutation: with the same request it answers with the record of the first run, its local tools
  -- read again, and with another request it fails as a conflict.
  pub command-replays :
      (mutate : Db → Result (Db × System)) (j : Journal) {after : Journal} {r : System}
      → command digests principal key hash mutate j ≡ ok (after, r)
      → (later : Journal) (more : List Receipt) → later.receipts ≡ after.receipts ++ more
      → (request : Text) (again : Db → Result (Db × System))
      → command digests principal key request again later
        ≡ (if same hash request then replay digests later r else err Error.command_conflict)
  unfolding command replay
  command-replays mutate j {after} {r} done later more grown request again =
      let h = command-HasReceipt mutate j done in
      let there : find (is_receipt principal key) later.receipts ≡ some h.receipt =
        ap (find (is_receipt principal key)) grown
        ∙ find-append (is_receipt principal key) after.receipts more h.there in
      let requests =
        ap (λ x. if same x request then replay digests later r else err Error.command_conflict)
          ((same_iff (Receipt.request_hash h.receipt) hash).0 h.hashed) in
      let answers =
        ap
          (λ (x : System).
            if same (Receipt.request_hash h.receipt) request
            then replay digests later (with_locals x [])
            else err Error.command_conflict)
          h.answer in
      rw (command, there) (answers ∙ requests)
