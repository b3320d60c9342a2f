-- ===== src/Knowledge/Search.antt =====
-- searchMemory (state/knowledge.go). The length of an encoded entry is an argument.
use microoperator.Base.{
  ℕ, ◌+◌, ℤ, lt_int, Bool, true, false, not, ◌&&◌, ◌||◌, List, [], ◌∷◌, ◌++◌, Text, same, length,
  ltb, ◌==◌, if◌then◌else◌, Result, ok, err, fail_if, ◌>>=◌, ◌>>◌, Option, none, some, find, keep,
  take, map, between, has_prefix,
}
use microoperator.Store.{
  TaskRow, MemoryHeadRow, MemoryRevisionRow, Db, memory_active, memory_pending, order_by,
}
use microoperator.Knowledge.Memory.{MemoryEntry, memory_owner, invalid}

pub record MemoryQuery : Type 0 where
  pub scope : Text
  pub owner : Text
  pub query : Text
  pub after : Text
  pub include_pending : Bool

-- The order of texts in SQLite: bytewise.
unfoldable pub text_lt : Text → Text → Bool
text_lt s [] = false
text_lt [] (b ∷ t) = true
text_lt (a ∷ s) (b ∷ t) = ltb a b || (a == b && text_lt s t)

-- SQLite's lower(): ASCII letters only.
unfoldable pub lower_ascii : Text → Text
lower_ascii s = map (λ c. if between b'A' b'Z' c then c + 32 else c) s

-- instr(s, part) > 0
unfoldable pub instr : Text → Text → Bool
instr [] part = same part []
instr (c ∷ s) part = has_prefix (c ∷ s) part || instr s part

-- What a head of the listing fulfils, before its text and the page are looked at.
unfoldable pub listed : Text → Text → Text → Bool → ℤ → MemoryHeadRow → Bool
listed system scope owner pending now h =
    same h.system_id system
    && (same h.scope scope
        && (same h.owner_id owner
            && ((memory_active h.state || (pending && memory_pending h.state))
                && lt_int now h.expires_at)))

unfoldable pub revision_of : Db → MemoryHeadRow → Option MemoryRevisionRow
revision_of db h =
    find
      (λ (r : MemoryRevisionRow).
        same r.system_id h.system_id
        && (same r.memory_id h.memory_id && (r.revision == h.revision)))
      db.memory_revisions

unfoldable pub joined_entry : MemoryHeadRow → MemoryRevisionRow → MemoryEntry
joined_entry h r = record {
  id = h.memory_id;
  revision = h.revision;
  scope = h.scope;
  owner = h.owner_id;
  state = h.state;
  content = r.content;
  evidence = r.evidence;
  confidence = r.confidence;
  artifacts = r.artifacts;
  author = r.author;
  goal_id = r.goal_id;
  task_id = r.task_id;
  created = r.created_at;
  expires = h.expires_at;
}

unfoldable pub matched_row : Text → MemoryHeadRow → MemoryRevisionRow → Option MemoryEntry
unfolding joined_entry lower_ascii instr
matched_row query h r =
    if instr (lower_ascii r.content) (lower_ascii query) then some (joined_entry h r) else none

-- The JOIN, with the match of the text.
unfoldable pub matched : Db → Text → MemoryHeadRow → Option MemoryEntry
unfolding revision_of matched_row
matched db query h = elim (revision_of db h) [ none ↦ none | some r ↦ matched_row query h r ]

unfoldable pub entries_of : Db → Text → List MemoryHeadRow → List MemoryEntry
unfolding matched
entries_of db query [] = []
entries_of db query (h ∷ hs) =
    let rest = entries_of db query hs in
    elim (matched db query h) [ none ↦ rest | some e ↦ e ∷ rest ]

abbrev pub by_id : MemoryHeadRow → MemoryHeadRow → Bool
by_id a b = not (text_lt b.memory_id a.memory_id)

-- ORDER BY h.memory_id, of the whole listing.
unfoldable pub listing : Db → TaskRow → MemoryQuery → Text → Bool → ℤ → List MemoryEntry
unfolding listed entries_of
listing db t q owner admin now = entries_of db q.query (
    order_by by_id
      (keep (listed t.system_id q.scope owner (admin && q.include_pending) now) db.memory_heads))

abbrev pub follows : Text → MemoryEntry → Bool
follows after e = text_lt after e.id

-- The rows of the statement: those after the cursor, LIMIT 11.
unfoldable pub page_rows : Db → TaskRow → MemoryQuery → Text → Bool → ℤ → List MemoryEntry
unfolding listing
page_rows db t q owner admin now = take 11 (keep (follows q.after) (listing db t q owner admin now))

pub record MemoryPage : Type 0 where
  pub entries : List MemoryEntry
  pub next : Text

abbrev pub last_id : List MemoryEntry → Text
last_id [] = []
last_id (e ∷ []) = e.id
last_id (e ∷ f ∷ es) = last_id (f ∷ es)

-- The loop over the rows, with the entries that are taken and the bytes that they need.
unfoldable pub fill_page :
    (MemoryEntry → ℕ) → List MemoryEntry → ℕ → List MemoryEntry → Result MemoryPage
fill_page encoded taken size [] = ok (record { entries = taken; next = [] })
fill_page encoded taken size (e ∷ rows) =
    let more = fill_page encoded (taken ++ e ∷ []) (size + encoded e + 1) rows in
    if length taken == 10 || ltb 8064 (size + encoded e)
    then (if length taken == 0
        then err (invalid "memory" "stored entry exceeds retrieval limit")
        else ok (record { entries = taken; next = last_id taken }))
    else more

-- searchMemory
unfoldable pub search_memory :
    (MemoryEntry → ℕ) → Db → TaskRow → MemoryQuery → Bool → ℤ → Result MemoryPage
unfolding page_rows fill_page
search_memory encoded db t q admin now = do
  owner ← memory_owner db t q.scope q.owner admin
  fail_if
      (ltb 256 (length q.query) || (ltb 64 (length q.after) || (not admin && q.include_pending)))
      (invalid "memory" "query exceeds scope or size limits")
  fill_page encoded [] 64 (page_rows db t q owner admin now)
