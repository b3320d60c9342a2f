-- ===== src/Broker/Follows.antt =====
-- A call that a session holds (authorizeCall of state/broker.go) through updates of its columns.
use microoperator.Base.{
  true, false, ℤ, eq_int, Bool, false, not, ◌&&◌, ◌||◌, List, [], ◌∷◌, Text, same, if◌then◌else◌,
  ok, some, find, keep, ◌≡◌, refl, sym, ap, ◌∙◌, Bool-cases, inl, inr, >>=-eq-ok, fail_if-then,
  ok-injective, if-true, some-injective,
}
use mathlib.Core.Path.{subst}
use microoperator.Store.{GoalRow, CallRow, Db, update_where, last, row, row-found}
use microoperator.Access.Read.{Execution, read_execution, calls_of, goal_of}
use microoperator.Broker.Queue.{Session, outside, outside_activation, authorize_call}

-- The columns of a call that say whose it is.
abbrev pub Key : Type 0
Key = Text × Text × Text × Text × Text × ℤ

abbrev pub key : CallRow → Key
key c = (c.system_id, c.call_id, c.goal_id, c.activation_id, c.activation_owner, c.revision)

abbrev is_goal_of : Text → Text → GoalRow → Bool
is_goal_of system goal g = same g.system_id system && same g.goal_id goal

-- UPDATE model_calls … WHERE t: the rows are chosen by their keys.
abbrev pub chosen : (Key → Bool) → CallRow → Bool
chosen t c = t (key c)

abbrev pub of_call : Text → Key → Bool
of_call id k = same k.1 id

-- What became of the chosen calls by `change`: their keys are the same, and the goals still there.
pub record Follows (t : Key → Bool) (db after : Db) : Type 0 where
  pub change : CallRow → CallRow
  pub keeps : (c : CallRow) → key (change c) ≡ key c
  pub calls : after.model_calls ≡ update_where (chosen t) change db.model_calls
  pub goals :
      (system goal : Text) (g : GoalRow)
      → find (is_goal_of system goal) db.goals ≡ some g
      → (h : GoalRow) × (find (is_goal_of system goal) after.goals ≡ some h)

module _ {ℓ} {A : Type ℓ} (q : A → Bool) (f : A → A) where
  keep-update_where :
      (p : A → Bool) (xs : List A)
      → ((x : A) → p (f x) ≡ p x)
      → keep p (update_where q f xs) ≡ update_where q f (keep p xs)
  keep-update_where p [] k = refl
  keep-update_where p (x ∷ xs) k =
      let rest = keep-update_where p xs k in
      let moved = k x in
      elim (Bool-cases (q x)) [
        | inl hit ↦ elim (Bool-cases (p x)) [
          | inl kept ↦ rw hit rw moved rw kept rw hit (ap (λ ys. f x ∷ ys) rest)
          | inr lost ↦ rw hit rw moved rw lost rest
        ]
        | inr miss ↦ elim (Bool-cases (p x)) [
          | inl kept ↦ rw miss rw kept rw miss (ap (λ ys. x ∷ ys) rest)
          | inr lost ↦ rw miss rw lost rest
        ]
      ]

  last-update_where :
      (xs : List A) {x : A}
      → last xs ≡ some x
      → last (update_where q f xs) ≡ some (if q x then f x else x)
  last-update_where [] {x} h = cc
  last-update_where (y ∷ []) {x} h = ap (λ o. last (update_where q f (y ∷ []))) h ∙ only h
    where
      only : some y ≡ some x → some (if q y then f y else y) ≡ some (if q x then f x else x)
      only h = ap (λ z. some (if q z then f z else z)) (some-injective h)
  last-update_where (y ∷ z ∷ ys) {x} h = last-update_where (z ∷ ys) h

-- Two updates of a call are one.
pub fuse :
    (t : Key → Bool) (f g : CallRow → CallRow) (calls : List CallRow)
    → ((c : CallRow) → key (g c) ≡ key c)
    → update_where (chosen t) f (update_where (chosen t) g calls)
      ≡ update_where (chosen t) (λ c. f (g c)) calls
fuse t f g [] k = refl
fuse t f g (c ∷ calls) k =
    let rest = fuse t f g calls k in
    let moved : chosen t (g c) ≡ chosen t c = ap t (k c) in
    elim (Bool-cases (chosen t c)) [
      | inl hit ↦ rw hit rw (moved ∙ hit) (ap (λ x. f (g c) ∷ x) rest)
      | inr miss ↦ rw miss rw miss (ap (λ x. c ∷ x) rest)
    ]

pub Follows-chain : (t : Key → Bool) (a b c : Db) → Follows t a b → Follows t b c → Follows t a c
Follows-chain t a b c h k = record {
  change = λ x. k.change (h.change x);
  keeps = λ x. k.keeps (h.change x) ∙ h.keeps x;
  calls =
      k.calls
      ∙ ap (update_where (chosen t) k.change) h.calls
      ∙ fuse t k.change h.change a.model_calls h.keeps;
  goals = λ system goal g found.
      let there = h.goals system goal g found in k.goals system goal there.0 there.1;
}

update_where-same :
    (t : Key → Bool) (calls : List CallRow) → update_where (chosen t) (λ c. c) calls ≡ calls
update_where-same t [] = refl
update_where-same t (c ∷ calls) = elim (Bool-cases (chosen t c)) [
  | inl hit ↦ rw hit (ap (λ x. c ∷ x) (update_where-same t calls))
  | inr miss ↦ rw miss (ap (λ x. c ∷ x) (update_where-same t calls))
]

-- The calls are as they were.
pub Follows-same :
    (t : Key → Bool) (db after : Db)
    → after.model_calls ≡ db.model_calls
    → ((system goal : Text) (g : GoalRow)
        → find (is_goal_of system goal) db.goals ≡ some g
        → (h : GoalRow) × (find (is_goal_of system goal) after.goals ≡ some h))
    → Follows t db after
Follows-same t db after same_calls goals = record {
  change = λ c. c;
  keeps = λ c. refl;
  calls = same_calls ∙ sym (update_where-same t db.model_calls);
  goals = goals;
}

abbrev made : CallRow → GoalRow → Execution
made c g = record {
  call = c;
  prompt = g.prompt;
  goal_budget = g.token_budget;
  goal_used = g.used_tokens;
  goal_reserved = g.reserved_tokens;
  continuous = g.continuous;
  event_id = [];
  learning_id = [];
}

read_execution-made :
    (db : Db) (system id : Text) (c : CallRow) (g : GoalRow)
    → last (calls_of db system id) ≡ some c
    → find (is_goal_of c.system_id c.goal_id) db.goals ≡ some g
    → read_execution db system id ≡ ok (made c g)
unfolding read_execution goal_of
read_execution-made db system id c g found there = rw found rw there refl

authorize_call-own :
    (db : Db) (session : Session) (e : Execution)
    → read_execution db session.system_id session.call_id ≡ ok e
    → outside e session ≡ false
    → authorize_call db session ≡ ok e
unfolding authorize_call
authorize_call-own db session e read own = rw read rw own refl

foreign : Session → Key → Bool
foreign session k =
    not (same k.3 session.activation_id)
    || (not (same k.4 session.activation_owner)
        || (not (eq_int k.5 session.revision) || not (same k.2 session.goal_id)))

wanted : Session → Key → Bool
wanted session k =
    same k.0 session.system_id && (same session.call_id [] || same k.1 session.call_id)

calls_of-Follows :
    (t : Key → Bool) (db after : Db) (session : Session) (c : CallRow)
    → t (key c) ≡ true
    → (k : Follows t db after) → last (calls_of db session.system_id session.call_id) ≡ some c
    → last (calls_of after session.system_id session.call_id) ≡ some (k.change c)
unfolding calls_of wanted
calls_of-Follows t db after session c hit k found =
    let p = λ (x : CallRow). wanted session (key x) in
    ap (λ calls. last (keep p calls)) k.calls
    ∙ ap last (
        keep-update_where (chosen t) k.change p db.model_calls
          (λ x. ap (wanted session) (k.keeps x)))
    ∙ last-update_where (chosen t) k.change (calls_of db session.system_id session.call_id) found
    ∙ ap some (if-true (chosen t c) (k.change c) c hit)

-- The session still holds the call, as the changes have left it.
pub authorize_call-Follows :
    (t : Key → Bool) (db after : Db) (session : Session) {e : Execution}
    → authorize_call db session ≡ ok e
    → t (key e.call) ≡ true
    → (k : Follows t db after)
    → (e' : Execution) × (authorize_call after session ≡ ok e') × (e'.call ≡ k.change e.call)
unfolding authorize_call read_execution goal_of outside foreign
authorize_call-Follows t db after session {e} done hit k =
    let read = >>=-eq-ok (read_execution db session.system_id session.call_id) _ done in
    let own = fail_if-then (outside read.0 session) outside_activation (ok read.0) read.2 in
    let c = >>=-eq-ok (row (last (calls_of db session.system_id session.call_id))) _ read.1 in
    let g = >>=-eq-ok (goal_of db (CallRow.system_id c.0) (CallRow.goal_id c.0)) _ c.2 in
    let read_call : c.0 ≡ Execution.call read.0 = ap Execution.call (ok-injective g.2) in
    let same_call : c.0 ≡ e.call = read_call ∙ ap Execution.call (ok-injective own.1) in
    let goal = k.goals (CallRow.system_id c.0) (CallRow.goal_id c.0) g.0 (row-found _ g.1) in
    let there =
      subst (λ (x : Key). find (is_goal_of x.0 x.2) after.goals ≡ some goal.0) (sym (k.keeps c.0))
        goal.1 in
    let found =
      subst (λ (x : CallRow). last (calls_of db session.system_id session.call_id) ≡ some x)
        same_call (row-found _ c.1) in
    let call =
      calls_of-Follows t db after session e.call hit k found
      ∙ ap (λ x. some (k.change x)) (sym same_call) in
    let kept : foreign session (key (k.change c.0)) ≡ false =
      ap (foreign session) (k.keeps c.0) ∙ ap (λ x. foreign session (key x)) read_call ∙ own.0 in
    (
      made (k.change c.0) goal.0,
      authorize_call-own after session (made (k.change c.0) goal.0)
          (read_execution-made after session.system_id session.call_id (k.change c.0) goal.0 call
            there)
          kept,
      ap k.change same_call,
    )
