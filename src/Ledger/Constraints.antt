-- ===== src/Ledger/Constraints.antt =====
-- The CHECK constraints on tokens, through the settlement of a known usage (state/broker.go).
use microoperator.Base.{
  ℤ, pos, ◌+ℤ◌, lt_int, max_int, Bool, false, ◌&&◌, ◌||◌, List, [], ◌∷◌, Text, ok, any, ◌≡◌, refl,
  arith,
}
use microoperator.Store.{attempt_open, SystemRow, GoalRow, AttemptRow, Db}
use microoperator.Base.{int_laws, Bool-cases, inl, inr, All, All-map, All-both, ◌≤ℤ◌, sym}
use mathlib.Core.Path.{subst}
use microoperator.Store.{All-update_where}
use microoperator.Access.Read.{Execution}
use microoperator.Broker.Budget.{charge_agents}
use microoperator.Broker.Queue.{is_system, is_goal}
use microoperator.Broker.Settle.{
  ProviderResult, running_of, settle_attempt, released, release_system, release_goal, settle_known,
  negative_system, negative_goal,
}
use microoperator.Ledger.Sums.{CallInfo, outstanding, running_tokens}
use microoperator.Ledger.Books.{Known, of_system, of_goal, Accounts}
use microoperator.Ledger.Steps.{released-Accounts}

-- No reservation of an attempt, and no used tokens of a system or goal, is negative.
pub record NonNegative (db : Db) : Type 0 where
  pub attempts : All (λ (a : AttemptRow). pos 0 ≤ℤ a.reservation) db.model_attempts
  pub systems : All (λ (s : SystemRow). pos 0 ≤ℤ s.used_tokens) db.systems
  pub goals : All (λ (g : GoalRow). pos 0 ≤ℤ g.used_tokens) db.goals

any-All {ℓ} :
    {A : Type ℓ} (p : A → Bool) (xs : List A) → All (λ x. p x ≡ false) xs → any p xs ≡ false
any-All p [] h = refl
any-All p (x ∷ xs) h = let rest = any-All p xs h.1 in rw (h.0) rest

outstanding_ge :
    (info : Text → CallInfo) (q : CallInfo → Bool) (attempts : List AttemptRow)
    → All (λ (a : AttemptRow). pos 0 ≤ℤ a.reservation) attempts
    → pos 0 ≤ℤ outstanding info q attempts
unfolding outstanding
outstanding_ge info q [] h = grind int_laws
outstanding_ge info q (a ∷ attempts) h =
    let rest = outstanding_ge info q attempts h.1 in
    let first = h.0 in
    elim (Bool-cases (attempt_open a.state && q (info a.call_id))) [
      | inl held ↦ rw held grind (int_laws, rest, first)
      | inr free ↦ rw free grind (int_laws, rest)
    ]

add_ge : (a b : ℤ) → pos 0 ≤ℤ a → pos 0 ≤ℤ b → pos 0 ≤ℤ a +ℤ b
add_ge a b h k = grind (int_laws, h, k)

max_ge : (a b : ℤ) → pos 0 ≤ℤ a → pos 0 ≤ℤ max_int a b
max_ge a b h = ground arith

not_negative : (a b : ℤ) → pos 0 ≤ℤ a → pos 0 ≤ℤ b → (lt_int a (pos 0) || lt_int b (pos 0)) ≡ false
not_negative a b h k = ground arith

-- A settlement of a known usage that is not negative, of a running call whose books are balanced,
-- violates no CHECK constraint of systems and goals: it commits the released reservations.
pub settle_known-released :
    (info : Text → CallInfo) (db : Db) (e : Execution) (p : ProviderResult)
    → Accounts info db
    → Known info db e.call
    → running_tokens e.call_id db.model_attempts ≡ e.reservation
    → NonNegative db
    → pos 0 ≤ℤ p.input +ℤ p.output
    → settle_known db e p ≡ ok (released db e p)
unfolding settle_known released charge_agents settle_attempt negative_system negative_goal
settle_known-released info db e p acc known held sizes usage =
    let after = released-Accounts info db e p known held acc in
    let actual = p.input +ℤ p.output in
    let attempts =
      All-update_where (λ (a : AttemptRow). pos 0 ≤ℤ a.reservation) (running_of e.call_id)
        (settle_attempt p) db.model_attempts (λ a h _. max_ge a.reservation actual h)
        sizes.attempts in
    let systems =
      All-update_where (λ (s : SystemRow). pos 0 ≤ℤ s.used_tokens) (is_system e)
        (release_system e actual) db.systems (λ s h _. add_ge s.used_tokens actual h usage)
        sizes.systems in
    let goals =
      All-update_where (λ (g : GoalRow). pos 0 ≤ℤ g.used_tokens) (is_goal e) (release_goal e actual)
        db.goals (λ g h _. add_ge g.used_tokens actual h usage) sizes.goals in
    let system_fits = any-All negative_system (Db.systems (released db e p)) (
      All-map _ _ (Db.systems (released db e p))
        (λ s h.
          not_negative s.reserved_tokens s.used_tokens
            (subst (λ x. pos 0 ≤ℤ x) (sym h.0)
              (outstanding_ge info (of_system s.system_id) (Db.model_attempts (released db e p))
                attempts))
            h.1)
        (All-both _ _ (Db.systems (released db e p)) after.systems systems)) in
    let goal_fits = any-All negative_goal (Db.goals (released db e p)) (
      All-map _ _ (Db.goals (released db e p))
        (λ g h.
          not_negative g.reserved_tokens g.used_tokens
            (subst (λ x. pos 0 ≤ℤ x) (sym h.0)
              (outstanding_ge info (of_goal g.system_id g.goal_id)
                (Db.model_attempts (released db e p)) attempts))
            h.1)
        (All-both _ _ (Db.goals (released db e p)) after.goals goals)) in
    rw system_fits rw goal_fits refl
