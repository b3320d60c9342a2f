-- ===== src/Teams/Budget.antt =====
-- The budgets of emitEvent (state/team_store.go).
use microoperator.Base.{
  ℕ, ◌+◌, ◌≤◌, ℤ, Bool, true, false, ◌&&◌, [], ◌∷◌, ◌++◌, Text, text, leb, ok, ◌≡◌, sym, arith,
  has_prefix,
}
use mathlib.Core.Path.{subst}
use microoperator.Store.{TaskRow, GoalRow, EventRow, MailboxRow, Db, count-append, count_where}
use microoperator.Access.Read.{goal_of}
use microoperator.Teams.Events.{
  system_load, goal_load, recipient_load, sent_lately, over_budget, emit_event, event_row, mail_of,
  counted, goal_event, waiting_mail, recent_source,
}
use microoperator.Teams.Causes.{emit_event-Emitted, over_budget-room}

-- What the budgets say of the tables: the events that count, of the system and of the goal, and the
-- open deliveries of the recipient, with room for the events that live tasks may need; and the events
-- that an agent sent in the last minute.
abbrev pub InBudget : Db → TaskRow → GoalRow → Text → ℤ → Type 0
InBudget db t g source now =
    (system_load db t g now ≤ 4096)
    × (goal_load db t g now ≤ 256)
    × (recipient_load db t ≤ 64)
    × (has_prefix source (text "agent_") ≡ true → sent_lately db t.system_id source now ≤ 32)

one_more : (n m limit k : ℕ) → leb limit (n + m) ≡ false → k ≤ n + 1 → k + m ≤ limit
one_more n m limit k below grown = ground arith

one_more_sent : (b : Bool) (n k : ℕ) → (b && leb 32 n) ≡ false → k ≤ n + 1 → b ≡ true → k ≤ 32
one_more_sent b n k below grown is_agent = ground arith

-- The database after the inserts.
with_event-InBudget :
    (db : Db) (t : TaskRow) (g : GoalRow) (source : Text) (now : ℤ) (v : EventRow) (m : MailboxRow)
    (depth : ℕ)
    → over_budget db t g source depth now ≡ false
    → InBudget
        (record db { events = db.events ++ v ∷ []; mailboxes = db.mailboxes ++ m ∷ [] })
        t
        g
        source
        now
with_event-InBudget db t g source now v m depth within =
    let room = over_budget-room db t g source depth now within in
    (
      one_more (count_where (counted t g now) db.events) _ 4096 _ room.0
          (count-append (counted t g now) db.events v),
      one_more (count_where (λ (x : EventRow). counted t g now x && goal_event t g x) db.events) _
          256 _ room.1
          (count-append (λ (x : EventRow). counted t g now x && goal_event t g x) db.events v),
      one_more (count_where (waiting_mail t.system_id t.agent_id) db.mailboxes) _ 64 _ room.2
          (count-append (waiting_mail t.system_id t.agent_id) db.mailboxes m),
      one_more_sent (has_prefix source (text "agent_")) (sent_lately db t.system_id source now) _
          room.4 (count-append (recent_source t.system_id source now) db.events v),
    )

-- After an emission every budget that it was checked against holds: at most 4096 events of the system,
-- 256 of the goal and 64 open deliveries, counted with one event for each live task; and at most 32
-- events of an agent in a minute.
pub emit_event-InBudget :
    (db : Db) (t : TaskRow) (kind source causation payload : Text) (now : ℤ) (id : Text)
    (after : Db)
    → emit_event db t kind source causation payload now id ≡ ok after
    → (g : GoalRow) × (goal_of db t.system_id t.goal_id ≡ ok g) × InBudget after t g source now
emit_event-InBudget db t kind source causation payload now id after h =
    let wrote = emit_event-Emitted db t kind source causation payload now id h in
    (
      wrote.0,
      wrote.2,
      subst (λ (x : Db). InBudget x t wrote.0 source now) (sym wrote.5)
          (with_event-InBudget db t wrote.0 source now
            (event_row t wrote.0 id kind source causation payload wrote.1 now) (mail_of t id)
            wrote.1 wrote.4),
    )
