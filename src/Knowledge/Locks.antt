-- ===== src/Knowledge/Locks.antt =====
-- Optimistic locking of memory: `putMemory` (state/knowledge.go) twice at one expected revision.
use microoperator.Base.{
  ℕ, ◌+◌, ℤ, pos, eq_int, Bool, true, false, not, ◌&&◌, List, [], ◌∷◌, Text, text, same, ltb,
  if-true, if-false, ok, some, find, any, All, ◌≡◌, ◌≢◌, refl, sym, ap, ◌∙◌, arith, Bool-cases,
  Option-cases, inl, inr, &&_split, not-not, >>=-eq-ok, fail_if-then, ok-injective, each,
}
use mathlib.Core.Path.{subst}
use microoperator.Config.Names.{unique_names}
use microoperator.Store.{
  any-find, All-trivial, TaskRow, MemoryHeadRow, Db, All-find, All-update_where_to,
}
use microoperator.Knowledge.Memory.{
  MemoryCommand, MemoryEntry, memory_owner, command_refused, check_artifact, is_head, changes_head,
  next_revision, changed_memory, place_memory, entry_of, upsert_head, write_memory, put_memory,
}

-- The head of a memory has this revision.
abbrev HeadAt : Text → Text → ℕ → MemoryHeadRow → Type 0
HeadAt system id n h = is_head system id h ≡ true → h.revision ≡ n

any-weaker {ℓ} :
    {A : Type ℓ} (p q : A → Bool) (xs : List A)
    → ((x : A) → p x ≡ true → q x ≡ true)
    → any p xs ≡ true
    → any q xs ≡ true
any-weaker p q [] w h = cc
any-weaker p q (y ∷ ys) w h = elim (Bool-cases (p y)) [
  | inl hit ↦ rw (w y hit) refl
  | inr miss ↦ elim (Bool-cases (q y)) [
    | inl also ↦ rw also refl
    | inr neither ↦ rw neither (any-weaker p q ys w (rw miss at h))
  ]
]

upsert_head-HeadAt :
    (system : Text) (e : MemoryEntry) (heads : List MemoryHeadRow)
    → any (is_head system e.id) heads ≡ true
    → All (HeadAt system e.id e.revision) (upsert_head system e heads)
unfolding upsert_head
upsert_head-HeadAt system e heads there =
    subst (All (HeadAt system e.id e.revision)) (sym (if-true _ _ _ there)) (
      All-update_where_to (λ h. Unit {0}) (HeadAt system e.id e.revision) (is_head system e.id) _
        heads (λ h _ _ _. refl) (λ h _ miss hit. cc) (All-trivial heads))

-- The head that a change of a memory names.
abbrev Changes : Db → TaskRow → MemoryCommand → Text → ℤ → ℕ → Type 0
Changes db t c owner now revision =
    (h : MemoryHeadRow) × (find (changes_head t c owner now) db.memory_heads ≡ some h)
    × (eq_int (pos h.revision) c.expected_revision ≡ true)
    × (revision ≡ h.revision + 1)

changed_memory-Changes :
    (db : Db) (t : TaskRow) (c : MemoryCommand) (owner : Text) (admin : Bool) (now : ℤ)
    {at : Text × ℕ}
    → changed_memory db t c owner admin now ≡ ok at
    → (at.0 ≡ c.id) × Changes db t c owner now at.1
unfolding changed_memory next_revision
changed_memory-Changes db t c owner admin now {at} done =
    let shared = fail_if-then (not admin && same c.scope (text "system")) _ _ done in
    elim (Option-cases (find (changes_head t c owner now) db.memory_heads)) [
      | inl missing ↦ let failed = rw missing at (shared.1) in cc
      | inr (h, found) ↦
          let chain = rw found at (shared.1) in
          let first = fail_if-then (not (eq_int (pos h.revision) c.expected_revision)) _ _ chain in
          let second = fail_if-then (ltb 32 (h.revision + 1)) _ _ first.1 in
          let pair = ok-injective second.1 in
          (
            sym (ap (λ (x : Text × ℕ). x.0) pair),
            (h, found, not-not _ first.0, sym (ap (λ (x : Text × ℕ). x.1) pair)),
          )
    ]

changes_head-is_head :
    (t : TaskRow) (c : MemoryCommand) (owner : Text) (now : ℤ) (h : MemoryHeadRow)
    → changes_head t c owner now h ≡ true
    → is_head t.system_id c.id h ≡ true
unfolding changes_head
changes_head-is_head t c owner now h hit = (&&_split (is_head t.system_id c.id h) _ hit).0

-- Two successive revisions are not both the expected one.
clash :
    (n m : ℕ) (expected : ℤ)
    → eq_int (pos n) expected ≡ true
    → eq_int (pos m) expected ≡ true
    → m ≡ n + 1
    → ⊥
clash n m expected a b next_one = ground arith

module _ (encoded : MemoryCommand → ℕ) where
  place_memory-Changes :
      (db : Db) (t : TaskRow) (c : MemoryCommand) (owner : Text) (admin : Bool) (now : ℤ)
      (fresh : Text) {at : Text × ℕ}
      → same c.id [] ≡ false
      → place_memory encoded db t c owner admin now fresh ≡ ok at
      → (at.0 ≡ c.id) × Changes db t c owner now at.1
  unfolding place_memory
  place_memory-Changes db t c owner admin now fresh named done =
      let first = fail_if-then (command_refused c) _ _ done in
      let second = fail_if-then (ltb 6144 (encoded c)) _ _ first.1 in
      let third = >>=-eq-ok (unique_names c.artifacts (text "artifacts")) _ second.1 in
      let fourth = >>=-eq-ok (each (check_artifact db t admin) c.artifacts) _ third.2 in
      changed_memory-Changes db t c owner admin now (sym (if-false _ _ _ named) ∙ fourth.2)

  -- What a committed change of a memory wrote.
  put_memory-Changes :
      (db : Db) (t : TaskRow) (c : MemoryCommand) (admin : Bool) (now : ℤ) (fresh : Text)
      {done : Db × MemoryEntry}
      → same c.id [] ≡ false
      → put_memory encoded db t c admin now fresh ≡ ok done
      → (owner : Text) × (n : ℕ) × Changes db t c owner now n
        × All (HeadAt t.system_id c.id n) (done.0).memory_heads
  unfolding put_memory write_memory entry_of
  put_memory-Changes db t c admin now fresh {done} named h =
      let scoped = >>=-eq-ok (memory_owner db t c.scope c.owner admin) _ h in
      let placed = >>=-eq-ok (place_memory encoded db t c scoped.0 admin now fresh) _ scoped.2 in
      let e = entry_of t c scoped.0 admin now placed.0 in
      let written = >>=-eq-ok (write_memory db t.system_id e) _ placed.2 in
      let kept = fail_if-then (any _ db.memory_revisions) _ _ written.1 in
      let facts = place_memory-Changes db t c scoped.0 admin now fresh named placed.1 in
      let head : any (is_head t.system_id c.id) db.memory_heads ≡ true =
        any-weaker (changes_head t c scoped.0 now) (is_head t.system_id c.id) db.memory_heads
          (changes_head-is_head t c scoped.0 now)
          (any-find (changes_head t c scoped.0 now) db.memory_heads facts.1.1) in
      let same_heads : upsert_head t.system_id e db.memory_heads ≡ (done.0).memory_heads =
        ap Db.memory_heads (ok-injective kept.1)
        ∙ ap (λ (x : Db × MemoryEntry). (x.0).memory_heads) (ok-injective written.2) in
      let there =
        subst (λ x. any (is_head t.system_id x) db.memory_heads ≡ true) (sym facts.0) head in
      let now_at = upsert_head-HeadAt t.system_id e db.memory_heads there in
      (
        scoped.0,
        (placed.0).1,
        facts.1,
        subst (All (HeadAt t.system_id c.id (placed.0).1)) same_heads (
            subst
              (λ x.
                All (HeadAt t.system_id x (placed.0).1) (upsert_head t.system_id e db.memory_heads))
              facts.0 now_at),
      )

  -- Of two changes of a memory that expect the same revision, the second, made after the first was
  -- committed, fails, whatever else it says and whoever makes it. No other write stands between them.
  pub put_memory-once :
      (db : Db) (t t' : TaskRow) (c c' : MemoryCommand) (admin admin' : Bool) (now now' : ℤ)
      (fresh fresh' : Text) (done again : Db × MemoryEntry)
      → same c.id [] ≡ false
      → t'.system_id ≡ t.system_id
      → c'.id ≡ c.id
      → c'.expected_revision ≡ c.expected_revision
      → put_memory encoded db t c admin now fresh ≡ ok done
      → put_memory encoded done.0 t' c' admin' now' fresh' ≢ ok again
  put_memory-once db t t' c c' admin admin' now now' fresh fresh' done again named system id
        expected first second =
      let a = put_memory-Changes db t c admin now fresh named first in
      let named' : same c'.id [] ≡ false = ap (λ x. same x []) id ∙ named in
      let b = put_memory-Changes done.0 t' c' admin' now' fresh' named' second in
      let found =
        All-find (HeadAt t.system_id c.id a.1) (changes_head t' c' b.0 now') (done.0).memory_heads
          a.3 b.2.1 in
      let hit = changes_head-is_head t' c' b.0 now' b.2.0 found.1 in
      let hit' : is_head t.system_id c.id b.2.0 ≡ true =
        ap (λ x. is_head x c.id b.2.0) (sym system)
        ∙ ap (λ x. is_head t'.system_id x b.2.0) (sym id)
        ∙ hit in
      clash a.2.0.revision b.2.0.revision c.expected_revision a.2.2
        (ap (λ x. eq_int (pos b.2.0.revision) x) (sym expected) ∙ b.2.2) (found.0 hit' ∙ a.2.3)
