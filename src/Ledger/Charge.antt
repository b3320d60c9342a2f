-- ===== src/Ledger/Charge.antt =====
-- The loop of `chargeAgents` over the distinct agents of `budgetAgents` (state/team_ops.go).
use microoperator.Base.{
  Distinct, ℤ, pos, ◌+ℤ◌, Bool, true, false, ◌&&◌, ◌||◌, List, [], ◌∷◌, ◌++◌, Text, same, contains,
  if◌then◌else◌, ◌≡◌, refl,
}
use microoperator.Store.{AgentRow, UsageRow, TaskRow, update_where}
use microoperator.Base.{int_laws, Bool-cases, inl, inr, same_iff, All, All-map, ||_split, same-sym}
use microoperator.Store.{All-update_where_to}
use mathlib.Core.Path.{subst}
use microoperator.Access.Read.{Execution}
use microoperator.Broker.Budget.{budget_agents, union, charge_each, usage_of}

contains-snoc :
    (xs : List Text) (y x : Text)
    → contains xs x ≡ false
    → same y x ≡ false
    → contains (xs ++ y ∷ []) x ≡ false
contains-snoc [] y x h differs = rw differs refl
contains-snoc (z ∷ xs) y x h differs =
    let parts = ||_split (same z x) (contains xs x) h in
    let rest = contains-snoc xs y x parts.1 differs in rw (parts.0) rest

snoc-Distinct :
    (xs : List Text) (y : Text) → Distinct xs → contains xs y ≡ false → Distinct (xs ++ y ∷ [])
snoc-Distinct [] y d h = (refl, tt)
snoc-Distinct (x ∷ xs) y d h =
    let parts = ||_split (same x y) (contains xs y) h in
    (contains-snoc xs y x d.0 (rw (same-sym y x) parts.0), snoc-Distinct xs y d.1 parts.1)

union-Distinct : (xs ys : List Text) → Distinct xs → Distinct (union xs ys)
unfolding union
union-Distinct xs [] d = d
union-Distinct xs (y ∷ ys) d = elim (Bool-cases (contains xs y)) [
  | inl old ↦ let rest = union-Distinct xs ys d in rw old rest
  | inr fresh ↦
      let rest = union-Distinct (xs ++ y ∷ []) ys (snoc-Distinct xs y d fresh) in rw fresh rest
]

two_unions-Distinct : (xs ys : List Text) → Distinct (union (union [] xs) ys)
two_unions-Distinct xs ys = union-Distinct (union [] xs) ys (union-Distinct [] xs tt)

-- No agent is charged twice.
pub budget_agents-Distinct :
    (agents : List AgentRow) (tasks : List TaskRow) (system agent task : Text)
    → Distinct (budget_agents agents tasks system agent task)
unfolding budget_agents
budget_agents-Distinct agents tasks system agent task = search two_unions-Distinct

-- What the loop adds to the row with this key.
pub charged : Execution → ℤ → List Text → Text → Text → Text → ℤ
charged e amount [] system agent goal = pos 0
charged e amount (id ∷ ids) system agent goal =
    (if same system e.system_id && same agent id && same goal e.goal_id then amount else pos 0)
    +ℤ charged e amount ids system agent goal

pub charge_each-charged :
    (e : Execution) (amount used : ℤ) (ids : List Text) (rows : List UsageRow)
    (before : Text → Text → Text → ℤ)
    → All (λ (u : UsageRow). u.reserved_tokens ≡ before u.system_id u.agent_id u.goal_id) rows
    → All
        (λ (u : UsageRow).
          u.reserved_tokens
          ≡ before u.system_id u.agent_id u.goal_id
            +ℤ charged e amount ids u.system_id u.agent_id u.goal_id)
        (charge_each e amount used ids rows)
unfolding charge_each charged usage_of
charge_each-charged e amount used [] rows before h =
    All-map _ _ rows (λ u same_row. grind (int_laws, same_row)) h
charge_each-charged e amount used (id ∷ ids) rows before h =
    let after = λ (system agent goal : Text).
      before system agent goal
      +ℤ (if same system e.system_id && same agent id && same goal e.goal_id
          then amount
          else pos 0) in
    let stepped =
      charge_each-charged e amount used ids
        (update_where (usage_of e.system_id e.goal_id id)
          (λ (u : UsageRow). record u {
            reserved_tokens = u.reserved_tokens +ℤ amount;
            used_tokens = u.used_tokens +ℤ used;
          })
          rows)
        after
        (All-update_where_to
          (λ (u : UsageRow). u.reserved_tokens ≡ before u.system_id u.agent_id u.goal_id)
          (λ (u : UsageRow). u.reserved_tokens ≡ after u.system_id u.agent_id u.goal_id)
          (usage_of e.system_id e.goal_id id) _ rows (λ u kept hit. rw hit rw kept refl)
          (λ u kept miss. rw miss grind (int_laws, kept)) h) in
    All-map _ _ _ (λ u row_sum. grind (int_laws, row_sum)) stepped

-- One step of the sum for a key, where `t` and `g` are the tests on the other columns.
add_once :
    (t g first later : Bool) (amount rest : ℤ)
    → rest ≡ (if (t && g) && later then amount else pos 0)
    → (first ≡ true → later ≡ false)
    → (if t && first && g then amount else pos 0) +ℤ rest
      ≡ (if (t && g) && (first || later) then amount else pos 0)
add_once true true true true amount rest sum once = let clash = once refl in cc
add_once true true true false amount rest sum once = grind (int_laws, sum)
add_once true true false later amount rest sum once = grind (int_laws, sum)
add_once true false true later amount rest sum once = grind (int_laws, sum)
add_once true false false later amount rest sum once = grind (int_laws, sum)
add_once false g first later amount rest sum once = grind (int_laws, sum)

-- For distinct agents the loop adds its amount once to the rows of the agents.
pub charged-contains :
    (e : Execution) (amount : ℤ) (ids : List Text) (system agent goal : Text)
    → Distinct ids
    → charged e amount ids system agent goal ≡ (
        if (same system e.system_id && same goal e.goal_id) && contains ids agent
        then amount
        else pos 0)
unfolding charged
charged-contains e amount [] system agent goal d = elim (Bool-cases (same system e.system_id)) [
  | inl h ↦ rw h elim (Bool-cases (same goal e.goal_id)) [ inl g ↦ rw g refl | inr g ↦ rw g refl ]
  | inr h ↦ rw h refl
]
charged-contains e amount (id ∷ ids) system agent goal d = rw (same-sym id agent) (
    add_once (same system e.system_id) (same goal e.goal_id) (same agent id) (contains ids agent)
      amount (charged e amount ids system agent goal)
      (charged-contains e amount ids system agent goal d.1)
      (λ hit.
        let same_agent : id ≡ agent = cc ((same_iff agent id).0 hit) in
        subst (λ x. contains ids x ≡ false) same_agent d.0))
