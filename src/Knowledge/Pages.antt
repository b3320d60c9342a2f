-- ===== src/Knowledge/Pages.antt =====
-- The pages of searchMemory (state/knowledge.go), one after the other.
use microoperator.Base.{
  ℕ, zero, suc, ◌+◌, ◌≤◌, ◌<◌, ℤ, Bool, true, false, not, ◌&&◌, ◌||◌, List, [], ◌∷◌, ◌++◌, Text,
  same, length, ltb, ◌==◌, if◌then◌else◌, if-true, if-false, Result, ok, err, Error, ◌>>=◌, keep,
  take, All, ◌≡◌, refl, sym, ◌∙◌, ap, arith, same_refl, All-map, Bool-cases, inl, inr,
  length-append, ◌⊎◌,
}
use mathlib.Core.Path.{subst}
use mathlib.Core.List.{append_assoc, append-nil}
use microoperator.Store.{TaskRow, Db}
use microoperator.Knowledge.Memory.{MemoryEntry, memory_owner}
use microoperator.Knowledge.Search.{
  MemoryQuery, MemoryPage, text_lt, follows, listing, page_rows, last_id, fill_page, search_memory,
}
use microoperator.Knowledge.Order.{
  text_lt_irrefl, text_lt_asymm, Ascending, UniqueMemories, listing-Ascending,
}

abbrev pub Fits : (MemoryEntry → ℕ) → MemoryEntry → Type 0
Fits encoded e = (64 + encoded e ≤ 8064) × (same e.id [] ≡ false) × (ltb 64 (length e.id) ≡ false)

-- A page of these rows: the first of them, and the rows that are left.
abbrev Page : List MemoryEntry → Result MemoryPage → Type 0
Page rows r =
    (entries : List MemoryEntry) × (left : List MemoryEntry) × (next : Text) × (r
      ≡ ok (record { entries = entries; next = next }))
    × (rows ≡ entries ++ left)
    × (((next ≡ []) × (left ≡ [])) ⊎ ((next ≡ last_id entries) × (1 ≤ length entries)))

-- An entry that fits on an empty page does not stop it.
some_taken :
    (n size bytes : ℕ)
    → (n ≡ 0 → size ≡ 64)
    → 64 + bytes ≤ 8064
    → (n == 10 || ltb 8064 (size + bytes)) ≡ true
    → (n == 0) ≡ false
some_taken zero size bytes first fits full = let start = first refl in ground arith
some_taken (suc n) size bytes first fits full = ground arith

room_left : (n : ℕ) (b : Bool) → n ≤ 10 → (n == 10 || b) ≡ false → n + 1 ≤ 10
room_left n b room space = ground arith

module _ (encoded : MemoryEntry → ℕ) where
  -- `taken` are on the page already; 11 rows are read in all.
  fill_page-Page :
      (taken rows : List MemoryEntry) (size k : ℕ)
      → length taken + k ≡ 11
      → length taken ≤ 10
      → (length taken ≡ 0 → size ≡ 64)
      → All (Fits encoded) rows
      → Page (taken ++ rows) (fill_page encoded taken size (take k rows))
  unfolding fill_page
  fill_page-Page taken rows size zero count room first fits = absurd (omega arith)
  fill_page-Page taken [] size (suc k) count room first fits =
      (taken, [], [], refl, refl, inl (refl, refl))
  fill_page-Page taken (e ∷ rows) size (suc k) count room first fits =
      elim (Bool-cases (length taken == 10 || ltb 8064 (size + encoded e))) [
        | inl full ↦
            let some_ = some_taken (length taken) size (encoded e) first fits.0.0 full in
            (
              taken,
              e ∷ rows,
              last_id taken,
              if-true _ _ _ full ∙ if-false _ _ _ some_,
              refl,
              inr (refl, ground arith),
            )
        | inr space ↦
            let one = length-append {0} taken (e ∷ []) in
            let fewer = room_left (length taken) _ room space in
            let rest =
              fill_page-Page (taken ++ e ∷ []) rows (size + encoded e + 1) k (omega (arith, one))
                (omega (arith, one, fewer)) (λ none_. absurd (omega (arith, one))) fits.1 in
            subst (λ x. Page x (fill_page encoded taken size (take (suc k) (e ∷ rows))))
              (append_assoc taken (e ∷ []) rows)
              (subst (Page ((taken ++ e ∷ []) ++ rows)) (sym (if-false _ _ _ space)) rest)
      ]

module _ {ℓ κ} {A : Type ℓ} (P : A → Type κ) where
  All-front : (xs ys : List A) → All P (xs ++ ys) → All P xs
  All-front [] ys h = tt
  All-front (x ∷ xs) ys h = (h.0, All-front xs ys h.1)

  All-back : (xs ys : List A) → All P (xs ++ ys) → All P ys
  All-back [] ys h = h
  All-back (x ∷ xs) ys h = All-back xs ys h.1

text_lt_some : (s : Text) → same s [] ≡ false → text_lt [] s ≡ true
unfolding text_lt same
text_lt_some [] h = cc
text_lt_some (b ∷ s) h = refl

keep-All {ℓ} : {A : Type ℓ} (p : A → Bool) (xs : List A) → All (λ x. p x ≡ true) xs → keep p xs ≡ xs
keep-All p [] h = refl
keep-All p (x ∷ xs) h = rw (h.0, keep-All p xs h.1) refl

All-last_id :
    (P : Text → Type 0) (es : List MemoryEntry)
    → 1 ≤ length es
    → All (λ (e : MemoryEntry). P e.id) es
    → P (last_id es)
All-last_id P [] some_ h = absurd (omega arith)
All-last_id P (e ∷ []) some_ h = h.0
All-last_id P (e ∷ f ∷ es) some_ h = All-last_id P (f ∷ es) (omega arith) h.1

last_id-append : (ds es : List MemoryEntry) → 1 ≤ length es → last_id (ds ++ es) ≡ last_id es
last_id-append [] es some_ = refl
last_id-append (d ∷ []) [] some_ = absurd (omega arith)
last_id-append (d ∷ []) (e ∷ es) some_ = refl
last_id-append (d ∷ f ∷ ds) es some_ = last_id-append (f ∷ ds) es some_

-- What stands after the last entry of a page follows its cursor, and nothing before does.
keep-follows :
    (es rest : List MemoryEntry)
    → 1 ≤ length es
    → Ascending MemoryEntry.id (es ++ rest)
    → keep (follows (last_id es)) (es ++ rest) ≡ rest
keep-follows [] rest some_ up = absurd (omega arith)
keep-follows (e ∷ []) rest some_ up = rw (text_lt_irrefl e.id) (keep-All (follows e.id) rest up.0)
keep-follows (e ∷ f ∷ es) rest some_ up =
    let later =
      All-last_id (λ x. text_lt e.id x ≡ true) (f ∷ es) (omega arith)
        (All-front (λ (g : MemoryEntry). text_lt e.id g.id ≡ true) (f ∷ es) rest up.0) in
    rw (text_lt_asymm e.id (last_id (f ∷ es)) later) (keep-follows (f ∷ es) rest (omega arith) up.1)

-- The query with this cursor.
abbrev at_cursor : MemoryQuery → Text → MemoryQuery
at_cursor q after = record q { after = after }

-- A reader asks for page after page, each at the cursor that the last one gave, until there is none.
unfoldable pub read_all :
    (MemoryEntry → ℕ) → Db → TaskRow → MemoryQuery → Bool → ℤ → ℕ → Text → Result (List MemoryEntry)
read_all encoded db t q admin now zero after = err Error.no_rows
read_all encoded db t q admin now (suc fuel) after = do
  page ← search_memory encoded db t (at_cursor q after) admin now
  let following = read_all encoded db t q admin now fuel page.next
  if same page.next [] then ok page.entries else (do rest ← following; ok (page.entries ++ rest))

module _ (encoded : MemoryEntry → ℕ) (db : Db) (t : TaskRow) (q : MemoryQuery) (owner : Text)
    (admin : Bool) (now : ℤ) (owned : memory_owner db t q.scope q.owner admin ≡ ok owner)
    (short : ltb 256 (length q.query) ≡ false) (allowed : (not admin && q.include_pending) ≡ false)
    (unique : UniqueMemories db t.system_id)
    (fits : All (Fits encoded) (listing db t q owner admin now)) where
  search_memory-rows :
      (after : Text)
      → ltb 64 (length after) ≡ false
      → search_memory encoded db t (at_cursor q after) admin now
        ≡ fill_page encoded [] 64 (take 11 (keep (follows after) (listing db t q owner admin now)))
  unfolding search_memory page_rows listing
  search_memory-rows after near = rw (owned, short, allowed, near) refl

  follows_page :
      (read es rest : List MemoryEntry)
      → 1 ≤ length es
      → (read ++ es) ++ rest ≡ listing db t q owner admin now
      → keep (follows (last_id es)) (listing db t q owner admin now) ≡ rest
  follows_page read es rest some_ whole =
      let up = listing-Ascending db t q owner admin now unique in
      subst (λ x. keep (follows (last_id es)) x ≡ rest) whole
        (subst (λ x. keep (follows x) ((read ++ es) ++ rest) ≡ rest) (last_id-append read es some_)
          (keep-follows (read ++ es) rest (omega (arith, length-append {0} read es))
            (subst (Ascending MemoryEntry.id) (sym whole) up)))

  -- `read` has been read, and `left` is what follows the cursor.
  read_all-left :
      (fuel : ℕ) (read left : List MemoryEntry) (after : Text)
      → read ++ left ≡ listing db t q owner admin now
      → keep (follows after) (listing db t q owner admin now) ≡ left
      → ltb 64 (length after) ≡ false
      → length left < fuel
      → read_all encoded db t q admin now fuel after ≡ ok left
  unfolding read_all
  read_all-left zero read left after whole follows_ near enough = absurd (omega arith)
  read_all-left (suc fuel) read left after whole follows_ near enough =
      let fits_left =
        All-back (Fits encoded) read left (subst (All (Fits encoded)) (sym whole) fits) in
      let page = fill_page-Page encoded [] left 64 11 refl (omega arith) (λ _. refl) fits_left in
      let rows =
        search_memory-rows after near
        ∙ ap (λ x. fill_page encoded [] 64 (take 11 x)) follows_
        ∙ page.3 in
      elim page.5 [
        | inl last ↦
            let whole_page : page.0 ≡ left =
              sym (append-nil page.0) ∙ ap (λ x. page.0 ++ x) (sym last.1) ∙ sym page.4 in
            rw (rows, last.0, whole_page, read_all) (if-true _ _ _ (same_refl []))
        | inr more ↦
            let fits_page =
              All-front (Fits encoded) page.0 page.1
                (subst (All (Fits encoded)) page.4 fits_left) in
            let cursor =
              All-last_id (λ x. (same x [] ≡ false) × (ltb 64 (length x) ≡ false)) page.0 more.1
                (All-map (Fits encoded) _ page.0 (λ e fit. (fit.1, fit.2)) fits_page) in
            let whole_now : (read ++ page.0) ++ page.1 ≡ listing db t q owner admin now =
              append_assoc read page.0 page.1 ∙ ap (λ x. read ++ x) (sym page.4) ∙ whole in
            let follows_now = follows_page read page.0 page.1 more.1 whole_now in
            let later =
              read_all-left fuel (read ++ page.0) page.1 (last_id page.0) whole_now follows_now
                cursor.1
                (omega (
                  arith,
                  ap (λ (x : List MemoryEntry). length x) page.4,
                  length-append {0} page.0 page.1,
                  more.1,
                )) in
            rw (rows, more.0, read_all)
              (if-false _ _ _ cursor.0
                ∙ rw later (ap (λ (x : List MemoryEntry). ok x) (sym page.4)))
      ]

  -- Page after page, each from the cursor of the one before, gives the whole listing: no entry that
  -- the task may see is left out, given twice or moved, and the pages end after at most one more
  -- request than there are entries. It is asked of a query that is allowed, on ids that are distinct
  -- and short, with no entry larger than a page; the database is not written in between.
  pub read_all-listing :
      (fuel : ℕ)
      → length (listing db t q owner admin now) < fuel
      → read_all encoded db t q admin now fuel [] ≡ ok (listing db t q owner admin now)
  read_all-listing fuel enough =
      read_all-left fuel [] (listing db t q owner admin now) [] refl
        (keep-All (follows []) (listing db t q owner admin now) (
          All-map (Fits encoded) (λ (e : MemoryEntry). text_lt [] e.id ≡ true) _
            (λ e fit. text_lt_some e.id fit.1) fits))
        refl enough
