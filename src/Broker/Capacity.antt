-- ===== src/Broker/Capacity.antt =====
-- What the loop of `admit` over the quota groups (state/broker.go) guarantees for a call that every
-- group allows.
use microoperator.Base.{
  ℤ, pos, ◌+ℤ◌, ◌-ℤ◌, lt_int, le_int, max_int, Bool, true, false, not, List, [], ◌∷◌, Text, ok,
  find, ◌≡◌, refl, arith,
}
use microoperator.Store.{QuotaRow, Db, update_where}
use microoperator.Base.{
  inl, inr, All, All-map, >>=-eq-ok, ok-injective, Option-cases, &&_split, ||_split, lt_int→ge,
  le_int→gt, ◌≤ℤ◌, ◌<ℤ◌, ◌∙◌, ap,
}
use mathlib.Core.Path.{subst}
use microoperator.Config.{Configuration, QuotaConfig, lookup_or, zero_quota}
use microoperator.Access.Read.{Execution}
use microoperator.Broker.Quota.{
  Round, is_group, with_quota_row, in_group, in_flight, window_tokens, group_refuses, refilled,
  one_request, check_group, check_groups,
}
use microoperator.Ledger.Frames.{QuotaOnly, check_group-QuotaOnly}

abbrev pub quota_of : Configuration → Text → QuotaConfig
quota_of cfg group = lookup_or zero_quota group cfg.quota_groups

-- A group has room for a call: below its concurrency, and within its tokens of the last minute,
-- counted at a time that is not before now.
pub record HasRoom (cfg : Configuration) (db : Db) (e : Execution) (now : ℤ) (group : Text)
    : Type 0 where
  pub at : ℤ
  pub not_past : now ≤ℤ at
  pub concurrency :
      pos (in_flight db group db.model_attempts) <ℤ (quota_of cfg group).max_concurrent
  pub tokens :
      window_tokens db group (at -ℤ pos 60000) db.model_attempts +ℤ e.reservation
      ≤ℤ (quota_of cfg group).tokens_per_minute

not-false : (b : Bool) → not b ≡ true → b ≡ false
not-false false h = refl
not-false true h = cc

max_int_ge : (a b : ℤ) → a ≤ℤ max_int a b
max_int_ge a b = ground arith

allowing-HasRoom :
    (cfg : Configuration) (e : Execution) (db : Db) (group : Text) (credit cooldown at now : ℤ)
    → group_refuses db group (quota_of cfg group) credit cooldown at now e.reservation ≡ false
    → now ≤ℤ at
    → HasRoom cfg db e now group
unfolding group_refuses
allowing-HasRoom cfg e db group credit cooldown at now allowed not_past =
    let quota = quota_of cfg group in
    let tokens = window_tokens db group (at -ℤ pos 60000) db.model_attempts +ℤ e.reservation in
    let flying = pos (in_flight db group db.model_attempts) in
    let over_tokens = lt_int quota.tokens_per_minute tokens in
    let full = le_int quota.max_concurrent flying in
    let uncooled = ||_split (lt_int credit one_request) _ allowed in
    let room = ||_split over_tokens full (||_split (lt_int now cooldown) _ uncooled.1).1 in
    record {
      at = at;
      not_past = not_past;
      concurrency = le_int→gt quota.max_concurrent flying room.1;
      tokens = lt_int→ge quota.tokens_per_minute tokens room.0;
    }

-- The rows of the quota groups have no part in it.
HasRoom-QuotaOnly :
    (cfg : Configuration) (e : Execution) (now : ℤ) (group : Text) (before db : Db)
    → QuotaOnly before db
    → HasRoom cfg db e now group
    → HasRoom cfg before e now group
unfolding in_flight window_tokens in_group
HasRoom-QuotaOnly cfg e now group before db same_else h =
    let moved = subst (λ d. HasRoom cfg d e now group) same_else.1 h in
    record {
      at = moved.at;
      not_past = moved.not_past;
      concurrency = moved.concurrency;
      tokens = moved.tokens;
    }

check_group-HasRoom :
    (cfg : Configuration) (e : Execution) (now : ℤ) (group : Text) (round : Round) {after : Round}
    → check_group cfg e now group round ≡ ok after
    → after.allowed ≡ true
    → (round.allowed ≡ true) × HasRoom cfg round.db e now group
unfolding check_group
check_group-HasRoom cfg e now group round {after} done allowed =
    let rows = with_quota_row group (quota_of cfg group) now round.db.quota_state in
    elim (Option-cases (find (is_group group) rows)) [
      | inl none_there ↦ let failed = rw none_there at done in cc
      | inr (q, hit) ↦
          let at = max_int now q.updated_at in
          let credit = refilled (quota_of cfg group) q.credit (at -ℤ q.updated_at) in
          let next = record (round.db) {
            quota_state =
                update_where (is_group group)
                  (λ (r : QuotaRow). record r { credit = credit; updated_at = at }) rows;
          } in
          let refuses =
            group_refuses next group (quota_of cfg group) credit q.cooldown_until at now
              e.reservation in
          let same_round = ok-injective (rw hit at done) in
          let both = &&_split round.allowed (not refuses) (ap Round.allowed same_round ∙ allowed) in
          (
            both.0,
            HasRoom-QuotaOnly cfg e now group round.db next (_, refl)
                (allowing-HasRoom cfg e next group credit q.cooldown_until at now
                  (not-false refuses both.1) (max_int_ge now q.updated_at)),
          )
    ]

pub check_groups-HasRoom :
    (cfg : Configuration) (e : Execution) (now : ℤ) (groups : List Text) (round : Round)
    {after : Round}
    → check_groups cfg e now groups round ≡ ok after
    → after.allowed ≡ true
    → (round.allowed ≡ true) × All (HasRoom cfg round.db e now) groups
unfolding check_groups
check_groups-HasRoom cfg e now [] round {after} done allowed =
    (ap Round.allowed (ok-injective done) ∙ allowed, tt)
check_groups-HasRoom cfg e now (group ∷ groups) round {after} done allowed =
    let step = >>=-eq-ok (check_group cfg e now group round) _ done in
    let later = check_groups-HasRoom cfg e now groups step.0 step.2 allowed in
    let first = check_group-HasRoom cfg e now group round step.1 later.0 in
    let q = check_group-QuotaOnly cfg e now group round step.1 in
    (
      first.0,
      (
        first.1,
        All-map _ _ groups (λ g h. HasRoom-QuotaOnly cfg e now g round.db (Round.db step.0) q h)
            later.1,
      ),
    )
