-- ===== src/Broker/Quota.antt =====
-- The shared quota groups: the loop of `admit` over the groups of a model (state/broker.go), and
-- their view. Credit counts 60000 units to a request.
use microoperator.Base.{
  ℕ, ℤ, pos, ◌+ℤ◌, ◌-ℤ◌, ◌*ℤ◌, lt_int, le_int, min_int, max_int, Bool, not, ◌&&◌, ◌||◌, List, [],
  ◌∷◌, ◌++◌, map, Text, same, Result, ok, ◌>>=◌, none, some, any, find,
}
use microoperator.Config.{QuotaConfig, Configuration, lookup_or, zero_quota}
use microoperator.Store.{
  call_pending, attempt_running, CallRow, GroupRow, AttemptRow, QuotaRow, Db, update_where, row,
  sum_where, count_where,
}
use microoperator.Access.Read.{Execution}

-- model_attempts JOIN call_groups USING(call_id) WHERE group_name=?; a call is in a group once.
unfoldable pub in_group : Db → Text → Text → Bool
in_group db group call =
    any (λ (g : GroupRow). same g.call_id call && same g.group_name group) db.call_groups

-- The tokens that the attempts of a group reserve since a time.
unfoldable pub window_tokens : Db → Text → ℤ → List AttemptRow → ℤ
window_tokens db group since attempts =
    sum_where (λ (a : AttemptRow). in_group db group a.call_id && lt_int since a.dispatched_at)
      AttemptRow.reservation attempts

unfoldable pub in_flight : Db → Text → List AttemptRow → ℕ
in_flight db group attempts =
    count_where (λ (a : AttemptRow). in_group db group a.call_id && attempt_running a.state)
      attempts

abbrev pub one_request : ℤ
one_request = pos 60000

-- The credit of a group after `elapsed` milliseconds, at most its burst.
unfoldable pub refilled : QuotaConfig → ℤ → ℤ → ℤ
refilled quota credit elapsed =
    min_int (quota.burst_requests *ℤ one_request) (credit +ℤ elapsed *ℤ quota.requests_per_minute)

abbrev pub is_group : Text → QuotaRow → Bool
is_group group q = same q.group_name group

-- INSERT OR IGNORE INTO quota_state
unfoldable pub with_quota_row : Text → QuotaConfig → ℤ → List QuotaRow → List QuotaRow
with_quota_row group quota now rows = elim (find (is_group group) rows) [
  | some q ↦ rows
  | none ↦
      rows
      ++ record {
        group_name = group;
        credit = quota.burst_requests *ℤ one_request;
        updated_at = now;
        cooldown_until = pos 0;
      }
        ∷ []
]

-- The database, whether every group allows the call, and when its attempt counts as dispatched.
pub record Round : Type 0 where
  pub db : Db
  pub allowed : Bool
  pub dispatch_at : ℤ

-- The test of one group with its refilled credit.
unfoldable pub group_refuses : Db → Text → QuotaConfig → ℤ → ℤ → ℤ → ℤ → ℤ → Bool
group_refuses db group quota credit cooldown effective now reservation =
    lt_int credit one_request
    || (lt_int now cooldown
        || (lt_int quota.tokens_per_minute
              (window_tokens db group (effective -ℤ pos 60000) db.model_attempts +ℤ reservation)
            || le_int quota.max_concurrent (pos (in_flight db group db.model_attempts))))

-- The body of the loop.
unfoldable pub check_group : Configuration → Execution → ℤ → Text → Round → Result Round
unfolding with_quota_row
check_group cfg e now group round =
    let quota = lookup_or zero_quota group cfg.quota_groups in
    let rows = with_quota_row group quota now round.db.quota_state in
    row (find (is_group group) rows) >>= λ q.
    let effective = max_int now q.updated_at in
    let credit = refilled quota q.credit (effective -ℤ q.updated_at) in
    let next = record (round.db) {
      quota_state =
          update_where (is_group group)
            (λ (r : QuotaRow). record r { credit = credit; updated_at = effective }) rows;
    } in
    ok (record {
      db = next;
      allowed =
          round.allowed
          && not
              (group_refuses next group quota credit q.cooldown_until effective now e.reservation);
      dispatch_at = max_int round.dispatch_at effective;
    })

unfoldable pub check_groups : Configuration → Execution → ℤ → List Text → Round → Result Round
check_groups cfg e now [] round = ok round
check_groups cfg e now (group ∷ groups) round =
    check_group cfg e now group round >>= λ next. check_groups cfg e now groups next

-- UPDATE quota_state SET credit=credit-1 WHERE group_name=?, for each group
unfoldable pub take_credit : List Text → List QuotaRow → List QuotaRow
take_credit [] rows = rows
take_credit (group ∷ groups) rows = take_credit groups (
    update_where (is_group group) (λ (q : QuotaRow). record q { credit = q.credit -ℤ one_request })
      rows)

-- The pending calls of a group.
unfoldable pub queued_calls : Db → Text → ℕ
queued_calls db group =
    count_where (λ (c : CallRow). in_group db group c.call_id && call_pending c.state)
      db.model_calls

-- state/broker.go
pub record QuotaView : Type 0 where
  pub group : Text
  pub request_credit : ℤ
  pub cooldown_until : ℤ
  pub reserved_rate_tokens : ℤ
  pub in_flight_attempts : ℕ
  pub queued : ℕ
  pub limits : QuotaConfig
  pub attempts : ℕ
  pub throttles : ℕ

view_of : Db → Text → QuotaConfig → ℤ → ℤ → ℤ → QuotaView
view_of db group quota credit cooldown at = record {
  group = group;
  request_credit = credit;
  cooldown_until = cooldown;
  reserved_rate_tokens = window_tokens db group (at -ℤ pos 60000) db.model_attempts;
  in_flight_attempts = in_flight db group db.model_attempts;
  queued = queued_calls db group;
  limits = quota;
  attempts = count_where (λ (a : AttemptRow). in_group db group a.call_id) db.model_attempts;
  throttles =
      count_where (λ (a : AttemptRow). in_group db group a.call_id && a.throttled)
        db.model_attempts;
}

quota_view : Db → ℤ → (Text × QuotaConfig) → QuotaView
unfolding view_of
quota_view db now (group, quota) = elim (find (is_group group) db.quota_state) [
  | none ↦
      view_of db group quota (quota.burst_requests *ℤ one_request) (pos 0) (max_int now (pos 0))
  | some q ↦
      let at = max_int now q.updated_at in
      view_of db group quota (refilled quota q.credit (at -ℤ q.updated_at)) q.cooldown_until at
]

unfoldable pub quotas : Configuration → Db → ℤ → List QuotaView
unfolding quota_view
quotas cfg db now = map (quota_view db now) cfg.quota_groups
