-- ===== src/Ledger/Commits.antt =====
-- That `settle` (state/broker.go) commits.
use microoperator.Base.{pos, ◌+ℤ◌, true, Text, ok, ◌>>=◌, some, find, ◌≡◌, refl}
use microoperator.Store.{CallState, system_running, call_running, SystemRow, Db, row}
use microoperator.Base.{Bool-cases, inl, inr, ◌≤ℤ◌, ◌∙◌, ap, if-true, if-false}
use microoperator.Store.{find-update_where}
use microoperator.Config.{ModelConfig, lookup_or, zero_model}
use microoperator.Access.Env.{Env}
use microoperator.Access.Read.{Execution}
use microoperator.Broker.Queue.{Session, authorize_call, is_system}
use microoperator.Broker.Settle.{
  ProviderResult, Settled, Throttle, released, release_system, settle_unknown, settle_usage,
  settle_retry, requeue, retry_call, settle_running, settle_state, finish_call, cooldown_end,
  throttle_groups, settle,
}
use microoperator.Ledger.Sums.{CallInfo, running_tokens}
use microoperator.Ledger.Books.{Known, Books, Balanced}
use microoperator.Ledger.Keeps.{authorize_call-reads, read_execution-Held}
use microoperator.Ledger.Frames.{throttle_groups-QuotaOnly}
use microoperator.Ledger.Constraints.{NonNegative, settle_known-released}

-- The system of the call has a row.
abbrev pub HasSystem : Execution → Db → Type 0
HasSystem e db = (s : SystemRow) × (find (is_system e) db.systems ≡ some s)

settle_usage-commits :
    (info : Text → CallInfo) (db : Db) (e : Execution) (p : ProviderResult)
    → Books info db
    → Known info db e.call
    → running_tokens e.call_id db.model_attempts ≡ e.reservation
    → NonNegative db
    → pos 0 ≤ℤ p.input +ℤ p.output
    → HasSystem e db
    → (used : Db) × (settle_usage db e p ≡ ok used) × HasSystem e used
unfolding settle_usage released settle_unknown
settle_usage-commits info db e p b known held sizes usage there = elim (Bool-cases p.known) [
  | inl told ↦ (
    released db e p,
    if-true p.known _ _ told ∙ settle_known-released info db e p b.accounts known held sizes usage,
    find-update_where (is_system e) (is_system e) (release_system e (p.input +ℤ p.output))
        db.systems (λ s. refl) there.1,
  )
  | inr lost ↦ (settle_unknown db e, if-false p.known _ _ lost, there)
]

settle_retry-commits :
    (env : Env) (e : Execution) (p : ProviderResult) (state : CallState) (db : Db)
    → HasSystem e db
    → (s : Settled) × (settle_retry env e p state db ≡ ok s)
unfolding settle_retry retry_call
settle_retry-commits env e p state db there = elim (Bool-cases p.retry) [
  | inr final ↦ (_, if-false p.retry _ _ final)
  | inl again ↦
      let groups = ModelConfig.quota_groups (lookup_or zero_model e.model env.cfg.models) in
      let start : Throttle = record { db = db; wait = pos 3600; queue_available = true } in
      let only = throttle_groups-QuotaOnly env.cfg (cooldown_end p env.now) groups start in
      let found = ap (λ (d : Db). find (is_system e) d.systems) only.1 ∙ there.1 in
      let t = throttle_groups env.cfg (cooldown_end p env.now) groups start in
      (
        requeue env.now e state p.reason (system_running (SystemRow.state there.0)) t,
        if-true p.retry _ _ again
            ∙ ap
                (λ o. row o >>= λ x.
                  ok (requeue env.now e state p.reason (system_running (SystemRow.state x)) t))
                found,
      )
]

-- A settlement commits, whatever the provider reports and whether or not the call is tried again,
-- when the call that the session authorises is running and its system exists, the books are
-- balanced, no reservation or used amount in the database is negative, and neither is the usage.
pub settle-commits :
    (env : Env) (db : Db) (session : Session) (p : ProviderResult) {e : Execution}
    → Balanced db
    → authorize_call db session ≡ ok e
    → call_running e.state ≡ true
    → NonNegative db
    → pos 0 ≤ℤ p.input +ℤ p.output
    → HasSystem e db
    → (after : Db) × (settle env db session p ≡ ok after)
unfolding settle settle_running Balanced
settle-commits env db session p {e} b allowed running sizes usage there =
    let facts =
      read_execution-Held b.0 db session.system_id session.call_id b.1
        (authorize_call-reads db session allowed) in
    let used =
      settle_usage-commits b.0 db e p b.1 facts.1 (rw running at (facts.0)) sizes usage there in
    let s = settle_retry-commits env e p (settle_state p) used.0 used.2 in
    (finish_call e p s.0, rw allowed rw running rw (used.1) rw (s.1) refl)
