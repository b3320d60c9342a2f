-- ===== src/Teams/Causes.antt =====
-- What emitEvent (state/team_store.go) keeps of the chains of causes.
use microoperator.Base.{
  ℕ, ◌+◌, ◌≤◌, ℤ, true, false, not, ◌&&◌, ◌||◌, List, [], ◌∷◌, ◌++◌, Text, text, same, length, ltb,
  leb, ok, some, find, any, All, ◌≡◌, sym, ◌∙◌, arith, Bool-cases, inl, inr, if-true, if-false,
  ||_split, All-append, All-map, >>=-eq-ok, fail_if-then, ok-injective, has_prefix, ◌⊎◌,
}
use mathlib.Core.Path.{subst}
use microoperator.Store.{TaskRow, GoalRow, EventRow, Db, row, row-found, find-append}
use microoperator.Access.Read.{goal_of}
use microoperator.Teams.Events.{
  depth_after, over_budget, insert_event, emit_event, event_row, mail_of, system_load, goal_load,
  recipient_load, sent_lately,
}

-- The event that caused it is one of its system, one step less deep; an event without a cause is at
-- depth 0, and no event is deeper than 16.
abbrev pub Caused : List EventRow → EventRow → Type 0
Caused events v =
    (v.depth ≤ 16)
    × (((same v.causation_id [] ≡ true) × (v.depth ≡ 0))
        ⊎ ((w : EventRow) × (find
                (λ (u : EventRow). same u.system_id v.system_id && same u.event_id v.causation_id)
                events
              ≡ some w)
            × (v.depth ≡ w.depth + 1)))

abbrev pub CausesKnown : Db → Type 0
CausesKnown db = All (Caused db.events) db.events

Caused-append :
    (events more : List EventRow) (v : EventRow) → Caused events v → Caused (events ++ more) v
Caused-append events more v known = (
  known.0,
  elim known.1 [
    | inl root ↦ inl root
    | inr (w, there, deeper) ↦ inr (w, find-append _ events more there, deeper)
  ],
)

depth_after-Caused :
    (db : Db) (system causation : Text) {depth : ℕ}
    → depth_after db system causation ≡ ok depth
    → ((same causation [] ≡ true) × (depth ≡ 0))
      ⊎ ((w : EventRow) × (find
              (λ (u : EventRow). same u.system_id system && same u.event_id causation)
              db.events
            ≡ some w)
          × (depth ≡ w.depth + 1))
unfolding depth_after
depth_after-Caused db system causation {depth} h = elim (Bool-cases (same causation [])) [
  | inl none_ ↦ inl (none_, sym (ok-injective (sym (if-true _ _ _ none_) ∙ h)))
  | inr some_ ↦
      let chain = >>=-eq-ok (row (find _ db.events)) _ (sym (if-false _ _ _ some_) ∙ h) in
      inr (chain.0, row-found _ chain.1, sym (ok-injective chain.2))
]

-- Every budget had room.
pub over_budget-room :
    (db : Db) (t : TaskRow) (g : GoalRow) (source : Text) (depth : ℕ) (now : ℤ)
    → over_budget db t g source depth now ≡ false
    → (leb 4096 (system_load db t g now) ≡ false)
      × (leb 256 (goal_load db t g now) ≡ false)
      × (leb 64 (recipient_load db t) ≡ false)
      × (ltb 16 depth ≡ false)
      × ((has_prefix source (text "agent_") && leb 32 (sent_lately db t.system_id source now))
          ≡ false)
unfolding over_budget
over_budget-room db t g source depth now h =
    let sent =
      has_prefix source (text "agent_") && leb 32 (sent_lately db t.system_id source now) in
    let deep = ltb 16 depth || sent in
    let first =
      ||_split (leb 4096 (system_load db t g now))
        (leb 256 (goal_load db t g now) || (leb 64 (recipient_load db t) || deep)) h in
    let second =
      ||_split (leb 256 (goal_load db t g now)) (leb 64 (recipient_load db t) || deep) first.1 in
    let third = ||_split (leb 64 (recipient_load db t)) deep second.1 in
    let fourth = ||_split (ltb 16 depth) sent third.1 in
    (first.0, second.0, third.0, fourth.0, fourth.1)

-- What emitEvent wrote.
abbrev Emitted : Db → TaskRow → Text → Text → Text → Text → ℤ → Text → Db → Type 0
Emitted db t kind source causation payload now id after =
    (g : GoalRow) × (depth : ℕ) × (goal_of db t.system_id t.goal_id ≡ ok g)
    × (depth_after db t.system_id causation ≡ ok depth)
    × (over_budget db t g source depth now ≡ false)
    × (after ≡ record db {
      events = db.events ++ event_row t g id kind source causation payload depth now ∷ [];
      mailboxes = db.mailboxes ++ mail_of t id ∷ [];
    })

pub emit_event-Emitted :
    (db : Db) (t : TaskRow) (kind source causation payload : Text) (now : ℤ) (id : Text)
    {after : Db}
    → emit_event db t kind source causation payload now id ≡ ok after
    → Emitted db t kind source causation payload now id after
unfolding emit_event insert_event
emit_event-Emitted db t kind source causation payload now id h =
    let small = fail_if-then (ltb 8192 (length payload)) _ _ h in
    let goal = >>=-eq-ok (goal_of db t.system_id t.goal_id) _ small.1 in
    let deep = >>=-eq-ok (depth_after db t.system_id causation) _ goal.2 in
    let within = fail_if-then (over_budget db t goal.0 source deep.0 now) _ _ deep.2 in
    let alive = fail_if-then (not goal.0.continuous && _) _ _ within.1 in
    let fresh = fail_if-then (any _ db.events) _ _ alive.1 in
    (goal.0, deep.0, goal.1, deep.1, within.0, sym (ok-injective fresh.1))

at_most : (depth : ℕ) → ltb 16 depth ≡ false → depth ≤ 16
at_most depth h = ground arith

-- An emission keeps the chains of causes: an event is at depth 0 or one step deeper than an event of
-- its system that caused it, and never deeper than 16.
pub emit_event-CausesKnown :
    (db : Db) (t : TaskRow) (kind source causation payload : Text) (now : ℤ) (id : Text)
    (after : Db)
    → CausesKnown db
    → emit_event db t kind source causation payload now id ≡ ok after
    → CausesKnown after
emit_event-CausesKnown db t kind source causation payload now id after known h =
    let wrote = emit_event-Emitted db t kind source causation payload now id h in
    let v = event_row t wrote.0 id kind source causation payload wrote.1 now in
    let room = over_budget-room db t wrote.0 source wrote.1 now wrote.4 in
    let cause : Caused db.events v =
      (at_most wrote.1 room.3, depth_after-Caused db t.system_id causation wrote.3) in
    subst CausesKnown (sym wrote.5) (
      All-append (Caused (db.events ++ v ∷ [])) db.events (v ∷ [])
        (All-map (Caused db.events) (Caused (db.events ++ v ∷ [])) db.events
          (Caused-append db.events (v ∷ [])) known)
        (Caused-append db.events (v ∷ []) v cause, tt))
