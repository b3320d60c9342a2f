-- ===== src/Knowledge/Order.antt =====
-- The order of memory ids, and the sorted listing of searchMemory (state/knowledge.go).
use microoperator.Base.{
  ℤ, Bool, true, false, ◌&&◌, List, [], ◌∷◌, Text, same, some, keep, All, ◌≡◌, refl, sym, ◌∙◌, ap,
  arith, Bool-cases, Option-cases, inl, inr, All-map, &&_split, if-true, if-false, some-injective,
}
use mathlib.Core.Path.{subst}
use microoperator.Store.{
  TaskRow, MemoryHeadRow, MemoryRevisionRow, Db, order_by, insert_by, All-insert_by, All-order_by,
}
use microoperator.Knowledge.Memory.{MemoryEntry}
use microoperator.Knowledge.Search.{
  text_lt, by_id, entries_of, matched, matched_row, revision_of, joined_entry, MemoryQuery, instr,
  lower_ascii, listing, listed,
}

pub text_lt_irrefl : (s : Text) → text_lt s s ≡ false
unfolding text_lt
text_lt_irrefl [] = refl
text_lt_irrefl (a ∷ s) = ground (arith, text_lt_irrefl s)

pub text_lt_asymm : (s t : Text) → text_lt s t ≡ true → text_lt t s ≡ false
unfolding text_lt
text_lt_asymm s [] h = cc
text_lt_asymm [] (b ∷ t) h = refl
text_lt_asymm (a ∷ s) (b ∷ t) h = ground (arith, text_lt_asymm s t)

text_lt_trans : (s t u : Text) → text_lt s t ≡ true → text_lt t u ≡ true → text_lt s u ≡ true
unfolding text_lt
text_lt_trans s [] u h k = cc
text_lt_trans s (b ∷ t) [] h k = cc
text_lt_trans [] (b ∷ t) (c ∷ u) h k = refl
text_lt_trans (a ∷ s) (b ∷ t) (c ∷ u) h k = ground (arith, text_lt_trans s t u)

-- Different texts are ordered one way or the other.
text_lt_total : (s t : Text) → text_lt s t ≡ false → same s t ≡ false → text_lt t s ≡ true
unfolding text_lt same
text_lt_total [] [] h d = cc
text_lt_total (a ∷ s) [] h d = refl
text_lt_total [] (b ∷ t) h d = cc
text_lt_total (a ∷ s) (b ∷ t) h d = ground (arith, text_lt_total s t)

-- Each id comes before all that stand after it.
abbrev pub Ascending {ℓ} : {A : Type ℓ} → (A → Text) → List A → Type 0
Ascending id [] = Unit
Ascending id (x ∷ xs) = All (λ y. text_lt (id x) (id y) ≡ true) xs × Ascending id xs

-- No two rows have one id.
abbrev pub DistinctIds : List MemoryHeadRow → Type 0
DistinctIds [] = Unit
DistinctIds (h ∷ hs) =
    All (λ (k : MemoryHeadRow). same h.memory_id k.memory_id ≡ false) hs × DistinctIds hs

abbrev Before : MemoryHeadRow → MemoryHeadRow → Type 0
Before h k = text_lt h.memory_id k.memory_id ≡ true

abbrev Apart : MemoryHeadRow → MemoryHeadRow → Type 0
Apart h k = same h.memory_id k.memory_id ≡ false

module _ {ℓ} {A : Type ℓ} (p q : A → Bool) (weaker : (x : A) → p x ≡ true → q x ≡ true) where
  All-keep_weaker {κ} : (P : A → Type κ) (xs : List A) → All P (keep q xs) → All P (keep p xs)
  All-keep_weaker P [] h = tt
  All-keep_weaker P (x ∷ xs) h = elim (Bool-cases (q x)) [
    | inl hit ↦
        let kept = rw hit at h in
        elim (Bool-cases (p x)) [
          | inl also ↦ rw also (kept.0, All-keep_weaker P xs kept.1)
          | inr miss ↦ rw miss (All-keep_weaker P xs kept.1)
        ]
    | inr other ↦
        let kept = rw other at h in
        elim (Bool-cases (p x)) [
          | inl also ↦ let both = weaker x also in cc
          | inr miss ↦ rw miss (All-keep_weaker P xs kept)
        ]
  ]

keep-DistinctIds :
    (p q : MemoryHeadRow → Bool)
    → ((h : MemoryHeadRow) → p h ≡ true → q h ≡ true)
    → (hs : List MemoryHeadRow) → DistinctIds (keep q hs)
    → DistinctIds (keep p hs)
keep-DistinctIds p q weaker [] d = tt
keep-DistinctIds p q weaker (h ∷ hs) d = elim (Bool-cases (q h)) [
  | inl hit ↦
      let kept = rw hit at d in
      elim (Bool-cases (p h)) [
        | inl also ↦
            rw also (
              All-keep_weaker p q weaker (Apart h) hs kept.0,
              keep-DistinctIds p q weaker hs kept.1,
            )
        | inr miss ↦ rw miss (keep-DistinctIds p q weaker hs kept.1)
      ]
  | inr other ↦
      let kept = rw other at d in
      elim (Bool-cases (p h)) [
        | inl also ↦ let both = weaker h also in cc
        | inr miss ↦ rw miss (keep-DistinctIds p q weaker hs kept)
      ]
]

insert-Ascending :
    (h : MemoryHeadRow) (hs : List MemoryHeadRow)
    → All (Apart h) hs
    → Ascending MemoryHeadRow.memory_id hs
    → Ascending MemoryHeadRow.memory_id (insert_by by_id h hs)
unfolding insert_by
insert-Ascending h [] apart up = (tt, tt)
insert-Ascending h (k ∷ hs) apart up = elim (Bool-cases (text_lt h.memory_id k.memory_id)) [
  | inl first ↦ rw first (
    (
      first,
      All-map (Before k) (Before h) hs
          (λ x later. text_lt_trans h.memory_id k.memory_id x.memory_id first later) up.0,
    ),
    up,
  )
  | inr second ↦
      let later = text_lt_total h.memory_id k.memory_id second apart.0 in
      rw second (All-insert_by (Before k) by_id h hs later up.0, insert-Ascending h hs apart.1 up.1)
]

order_by-Ascending :
    (hs : List MemoryHeadRow)
    → DistinctIds hs
    → Ascending MemoryHeadRow.memory_id (order_by by_id hs)
unfolding order_by
order_by-Ascending [] d = tt
order_by-Ascending (h ∷ hs) d =
    insert-Ascending h (order_by by_id hs) (All-order_by (Apart h) by_id hs d.0)
      (order_by-Ascending hs d.1)

-- What is joined keeps its id.
matched_row-id :
    (query : Text) (h : MemoryHeadRow) (r : MemoryRevisionRow) {e : MemoryEntry}
    → matched_row query h r ≡ some e
    → e.id ≡ h.memory_id
unfolding matched_row joined_entry
matched_row-id query h r found =
    elim (Bool-cases (instr (lower_ascii r.content) (lower_ascii query))) [
      | inl hit ↦ sym (ap MemoryEntry.id (some-injective (sym (if-true _ _ _ hit) ∙ found)))
      | inr miss ↦ let nothing = sym (if-false _ _ _ miss) ∙ found in cc
    ]

matched-id :
    (db : Db) (query : Text) (h : MemoryHeadRow) {e : MemoryEntry}
    → matched db query h ≡ some e
    → e.id ≡ h.memory_id
unfolding matched joined_entry
matched-id db query h found = elim (Option-cases (revision_of db h)) [
  | inl missing ↦ let nothing = rw (missing, matched) at found in cc
  | inr (r, there) ↦ matched_row-id query h r (rw (there, matched) at found)
]

entries_of-All :
    (P : Text → Type 0) (db : Db) (query : Text) (hs : List MemoryHeadRow)
    → All (λ (h : MemoryHeadRow). P h.memory_id) hs
    → All (λ (e : MemoryEntry). P e.id) (entries_of db query hs)
unfolding entries_of
entries_of-All P db query [] all_ = tt
entries_of-All P db query (h ∷ hs) all_ = elim (Option-cases (matched db query h)) [
  | inl missing ↦ rw (missing, entries_of) (entries_of-All P db query hs all_.1)
  | inr (e, there) ↦
      rw (there, entries_of)
        (subst P (sym (matched-id db query h there)) all_.0, entries_of-All P db query hs all_.1)
]

entries_of-Ascending :
    (db : Db) (query : Text) (hs : List MemoryHeadRow)
    → Ascending MemoryHeadRow.memory_id hs
    → Ascending MemoryEntry.id (entries_of db query hs)
unfolding entries_of
entries_of-Ascending db query [] up = tt
entries_of-Ascending db query (h ∷ hs) up = elim (Option-cases (matched db query h)) [
  | inl missing ↦ rw (missing, entries_of) (entries_of-Ascending db query hs up.1)
  | inr (e, there) ↦
      let same_id = sym (matched-id db query h there) in
      rw (there, entries_of)
        (
          subst (λ x. All (λ (f : MemoryEntry). text_lt x f.id ≡ true) (entries_of db query hs))
              same_id (entries_of-All (λ x. text_lt h.memory_id x ≡ true) db query hs up.0),
          entries_of-Ascending db query hs up.1,
        )
]

listed-system :
    (system scope owner : Text) (pending : Bool) (now : ℤ) (h : MemoryHeadRow)
    → listed system scope owner pending now h ≡ true
    → same h.system_id system ≡ true
unfolding listed
listed-system system scope owner pending now h hit = (&&_split (same h.system_id system) _ hit).0

-- The primary key of memory_heads, within the system.
abbrev pub UniqueMemories : Db → Text → Type 0
UniqueMemories db system =
    DistinctIds (keep (λ (h : MemoryHeadRow). same h.system_id system) db.memory_heads)

pub listing-Ascending :
    (db : Db) (t : TaskRow) (q : MemoryQuery) (owner : Text) (admin : Bool) (now : ℤ)
    → UniqueMemories db t.system_id
    → Ascending MemoryEntry.id (listing db t q owner admin now)
unfolding listing
listing-Ascending db t q owner admin now unique =
    let pending = admin && q.include_pending in
    entries_of-Ascending db q.query _ (
      order_by-Ascending _ (
        keep-DistinctIds (listed t.system_id q.scope owner pending now)
          (λ (h : MemoryHeadRow). same h.system_id t.system_id)
          (listed-system t.system_id q.scope owner pending now) db.memory_heads unique))
