-- ===== src/Broker/Credit.antt =====
-- What the loop of `admit` over the quota groups (state/broker.go) leaves in their rows.
use microoperator.Base.{
  arith, ℤ, ◌-ℤ◌, ◌≤ℤ◌, lt_int, lt_int→ge, max_int, min_int, pos, ◌*ℤ◌, ◌+ℤ◌, Bool, true, false,
  not, if◌then◌else◌, if-true, if-false, List, [], ◌∷◌, ◌++◌, Text, same, same_iff, ok, some, find,
  ◌≡◌, refl, sym, ap, ◌∙◌, Bool-cases, inl, inr, All, >>=-eq-ok, ok-injective, Option-cases,
  &&_split, ||_split, some-injective,
}
use mathlib.Core.Path.{subst}
use microoperator.Config.{Configuration, QuotaConfig}
use microoperator.Store.{QuotaRow, Db, update_where, find-holds, find-append}
use microoperator.Access.Read.{Execution}
use microoperator.Broker.Quota.{
  Round, is_group, with_quota_row, group_refuses, refilled, one_request, check_group, check_groups,
}
use microoperator.Broker.Capacity.{quota_of, check_groups-HasRoom}

-- The row of a group has the credit of a request, and no more than the burst, and is not cooling
-- down.
abbrev pub Credited : Configuration → ℤ → List QuotaRow → Text → Type 0
Credited cfg now rows group =
    (q : QuotaRow) × (find (is_group group) rows ≡ some q)
    × (one_request ≤ℤ q.credit)
    × (q.credit ≤ℤ (quota_of cfg group).burst_requests *ℤ one_request)
    × (q.cooldown_until ≤ℤ now)

-- The end of the cooldown of a group; a new row starts with none.
abbrev pub cooldown_of : List QuotaRow → Text → ℤ
cooldown_of [] group = pos 0
cooldown_of (q ∷ rows) group = if is_group group q then q.cooldown_until else cooldown_of rows group

pub cooldown-found :
    (rows : List QuotaRow) (group : Text) {q : QuotaRow}
    → find (is_group group) rows ≡ some q
    → cooldown_of rows group ≡ q.cooldown_until
cooldown-found [] group {q} h = cc
cooldown-found (x ∷ rows) group {q} h = elim (Bool-cases (is_group group x)) [
  | inl hit ↦ rw hit (ap QuotaRow.cooldown_until (some-injective (rw hit at h)))
  | inr miss ↦ rw miss (cooldown-found rows group (rw miss at h))
]

cooldown-update_where :
    (p : QuotaRow → Bool) (f : QuotaRow → QuotaRow) (group : Text) (rows : List QuotaRow)
    → ((x : QuotaRow) → is_group group (f x) ≡ is_group group x)
    → ((x : QuotaRow) → QuotaRow.cooldown_until (f x) ≡ x.cooldown_until)
    → cooldown_of (update_where p f rows) group ≡ cooldown_of rows group
cooldown-update_where p f group [] names ends = refl
cooldown-update_where p f group (x ∷ rows) names ends =
    let moved = names x in
    let rest = cooldown-update_where p f group rows names ends in
    elim (Bool-cases (p x)) [
      | inl changed ↦ elim (Bool-cases (is_group group x)) [
        | inl hit ↦ rw changed rw moved rw hit (ends x)
        | inr miss ↦ rw changed rw moved rw miss rest
      ]
      | inr left ↦ elim (Bool-cases (is_group group x)) [
        | inl hit ↦ rw left rw hit refl
        | inr miss ↦ rw left rw miss rest
      ]
    ]

cooldown-append :
    (group : Text) (rows : List QuotaRow) (new : QuotaRow)
    → new.cooldown_until ≡ pos 0
    → cooldown_of (rows ++ new ∷ []) group ≡ cooldown_of rows group
cooldown-append group [] new never = elim (Bool-cases (is_group group new)) [
  | inl hit ↦ rw hit never
  | inr miss ↦ rw miss refl
]
cooldown-append group (x ∷ rows) new never = elim (Bool-cases (is_group group x)) [
  | inl hit ↦ rw hit refl
  | inr miss ↦ rw miss (cooldown-append group rows new never)
]

cooldown-with_quota_row :
    (group other : Text) (quota : QuotaConfig) (now : ℤ) (rows : List QuotaRow)
    → cooldown_of (with_quota_row group quota now rows) other ≡ cooldown_of rows other
unfolding with_quota_row
cooldown-with_quota_row group other quota now rows =
    elim (Option-cases (find (is_group group) rows)) [
      | inl absent ↦ rw (absent, with_quota_row) (cooldown-append other rows _ refl)
      | inr (r, there) ↦ rw (there, with_quota_row) refl
    ]

-- A turn of the loop leaves every cooldown as it is.
check_group-cooldown :
    (cfg : Configuration) (e : Execution) (now : ℤ) (group other : Text) (round : Round)
    {after : Round}
    → check_group cfg e now group round ≡ ok after
    → cooldown_of (Db.quota_state (Round.db after)) other
      ≡ cooldown_of (Db.quota_state round.db) other
unfolding check_group
check_group-cooldown cfg e now group other round {after} done =
    let rows = with_quota_row group (quota_of cfg group) now round.db.quota_state in
    elim (Option-cases (find (is_group group) rows)) [
      | inl none_there ↦ let failed = rw none_there at done in cc
      | inr (q, hit) ↦
          let same_round = ok-injective (rw hit at done) in
          ap (λ (r : Round). cooldown_of (Db.quota_state (Round.db r)) other) (sym same_round)
          ∙ (cooldown-update_where (is_group group) _ other rows (λ x. refl) (λ x. refl)
              ∙ cooldown-with_quota_row group other (quota_of cfg group) now round.db.quota_state)
    ]

pub check_groups-cooldown :
    (cfg : Configuration) (e : Execution) (now : ℤ) (groups : List Text) (other : Text)
    (round : Round) {after : Round}
    → check_groups cfg e now groups round ≡ ok after
    → cooldown_of (Db.quota_state (Round.db after)) other
      ≡ cooldown_of (Db.quota_state round.db) other
unfolding check_groups
check_groups-cooldown cfg e now [] other round {after} done =
    ap (λ (r : Round). cooldown_of (Db.quota_state (Round.db r)) other) (sym (ok-injective done))
check_groups-cooldown cfg e now (group ∷ groups) other round {after} done =
    let step = >>=-eq-ok (check_group cfg e now group round) _ done in
    check_groups-cooldown cfg e now groups other step.0 step.2
    ∙ check_group-cooldown cfg e now group other round step.1

-- A row is found where it was after an update that keeps the names of groups.
find-after :
    (p q : QuotaRow → Bool) (f : QuotaRow → QuotaRow) (rows : List QuotaRow) {r : QuotaRow}
    → ((x : QuotaRow) → p (f x) ≡ p x)
    → find p rows ≡ some r
    → find p (update_where q f rows) ≡ some (if q r then f r else r)
find-after p q f [] {r} keeps h = cc
find-after p q f (x ∷ rows) {r} keeps h = elim (Bool-cases (q x)) [
  | inl changed ↦
      let moved = keeps x in
      elim (Bool-cases (p x)) [
        | inl hit ↦
            let same_row : x ≡ r = some-injective (rw hit at h) in
            rw changed rw moved rw hit
              (subst (λ y. some (f x) ≡ some (if q y then f y else y)) same_row (rw changed refl))
        | inr miss ↦ rw changed rw moved rw miss (find-after p q f rows keeps (rw miss at h))
      ]
  | inr left ↦ elim (Bool-cases (p x)) [
    | inl hit ↦
        let same_row : x ≡ r = some-injective (rw hit at h) in
        rw left rw hit (subst (λ y. some x ≡ some (if q y then f y else y)) same_row (rw left refl))
    | inr miss ↦ rw left rw miss (find-after p q f rows keeps (rw miss at h))
  ]
]

with_quota_row-keeps :
    (group other : Text) (quota : QuotaConfig) (now : ℤ) (rows : List QuotaRow) {q : QuotaRow}
    → find (is_group other) rows ≡ some q
    → find (is_group other) (with_quota_row group quota now rows) ≡ some q
unfolding with_quota_row
with_quota_row-keeps group other quota now rows {q} h =
    elim (Option-cases (find (is_group group) rows)) [
      | inl absent ↦ rw (absent, with_quota_row) (find-append (is_group other) rows _ h)
      | inr (r, there) ↦ rw (there, with_quota_row) h
    ]

min_int_le : (a b : ℤ) → min_int a b ≤ℤ a
min_int_le a b = ground arith

not-true : (b : Bool) → not b ≡ true → b ≡ false
not-true false h = refl
not-true true h = cc

-- An allowed turn of the loop finds its group with credit, and leaves it so.
check_group-Credited :
    (cfg : Configuration) (e : Execution) (now : ℤ) (group : Text) (round : Round) {after : Round}
    → check_group cfg e now group round ≡ ok after
    → after.allowed ≡ true
    → Credited cfg now (Db.quota_state (Round.db after)) group
unfolding check_group group_refuses refilled
check_group-Credited cfg e now group round {after} done allowed =
    let rows = with_quota_row group (quota_of cfg group) now round.db.quota_state in
    elim (Option-cases (find (is_group group) rows)) [
      | inl none_there ↦ let failed = rw none_there at done in cc
      | inr (q, hit) ↦
          let at = max_int now q.updated_at in
          let credit = refilled (quota_of cfg group) q.credit (at -ℤ q.updated_at) in
          let refill = λ (r : QuotaRow). record r { credit = credit; updated_at = at } in
          let same_round = ok-injective (rw hit at done) in
          let both = &&_split round.allowed _ (ap Round.allowed same_round ∙ allowed) in
          let uncooled = ||_split (lt_int credit one_request) _ (not-true _ both.1) in
          let warm = ||_split (lt_int now q.cooldown_until) _ uncooled.1 in
          let there = find-after (is_group group) (is_group group) refill rows (λ x. refl) hit in
          let mine = if-true _ (refill q) q (find-holds (is_group group) rows hit) in
          subst (λ (r : Round). Credited cfg now (Db.quota_state (Round.db r)) group) same_round
            (
              refill q,
              there ∙ ap some mine,
              lt_int→ge credit one_request uncooled.0,
              min_int_le ((quota_of cfg group).burst_requests *ℤ one_request)
                  (q.credit +ℤ (at -ℤ q.updated_at) *ℤ (quota_of cfg group).requests_per_minute),
              lt_int→ge now q.cooldown_until warm.0,
            )
    ]

-- It leaves the rows of the other groups.
check_group-others :
    (cfg : Configuration) (e : Execution) (now : ℤ) (group other : Text) (round : Round)
    {after : Round}
    → check_group cfg e now group round ≡ ok after
    → same other group ≡ false
    → Credited cfg now (Db.quota_state round.db) other
    → Credited cfg now (Db.quota_state (Round.db after)) other
unfolding check_group
check_group-others cfg e now group other round {after} done apart
      (p, found, credit, capped, cooldown) =
    let rows = with_quota_row group (quota_of cfg group) now round.db.quota_state in
    elim (Option-cases (find (is_group group) rows)) [
      | inl none_there ↦ let failed = rw none_there at done in cc
      | inr (q, hit) ↦
          let at = max_int now q.updated_at in
          let level = refilled (quota_of cfg group) q.credit (at -ℤ q.updated_at) in
          let refill = λ (r : QuotaRow). record r { credit = level; updated_at = at } in
          let same_round = ok-injective (rw hit at done) in
          let kept =
            with_quota_row-keeps group other (quota_of cfg group) now round.db.quota_state found in
          let there = find-after (is_group other) (is_group group) refill rows (λ x. refl) kept in
          let mine =
            if-false _ (refill p) p
              (not_of group other p (find-holds (is_group other) rows kept) apart) in
          subst (λ (r : Round). Credited cfg now (Db.quota_state (Round.db r)) other) same_round
            (p, there ∙ ap some mine, credit, capped, cooldown)
    ]
  where
    not_of :
        (group other : Text) (p : QuotaRow)
        → is_group other p ≡ true
        → same other group ≡ false
        → is_group group p ≡ false
    not_of group other p own apart =
        subst (λ name. same name group ≡ false) (sym ((same_iff p.group_name other).0 own)) apart

-- After a loop that allows the call, every group that it started with or passed has credit.
pub check_groups-Credited :
    (cfg : Configuration) (e : Execution) (now : ℤ) (groups : List Text) (round : Round)
    {after : Round}
    → check_groups cfg e now groups round ≡ ok after
    → after.allowed ≡ true
    → ((other : Text)
        → Credited cfg now (Db.quota_state round.db) other
        → Credited cfg now (Db.quota_state (Round.db after)) other)
      × All (Credited cfg now (Db.quota_state (Round.db after))) groups
unfolding check_groups
check_groups-Credited cfg e now [] round {after} done allowed = (
  λ other h.
      subst (λ (r : Round). Credited cfg now (Db.quota_state (Round.db r)) other)
        (ok-injective done) h,
  tt,
)
check_groups-Credited cfg e now (group ∷ groups) round {after} done allowed =
    let step = >>=-eq-ok (check_group cfg e now group round) _ done in
    let later = check_groups-Credited cfg e now groups step.0 step.2 allowed in
    let open_groups = (check_groups-HasRoom cfg e now groups step.0 step.2 allowed).0 in
    let mine = check_group-Credited cfg e now group round step.1 open_groups in
    (
      λ other h. later.0 other (elim (Bool-cases (same other group)) [
        | inl own ↦
            subst (Credited cfg now (Db.quota_state (Round.db step.0)))
              (sym ((same_iff other group).0 own)) mine
        | inr apart ↦ check_group-others cfg e now group other round step.1 apart h
      ]),
      (later.0 group mine, later.1),
    )
