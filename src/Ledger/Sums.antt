-- ===== src/Ledger/Sums.antt =====
-- Sums of reservations over the attempts, and how the updates of `admit` and `settle`
-- (state/broker.go) change them.
use microoperator.Base.{
  ℤ, pos, ◌+ℤ◌, ◌-ℤ◌, Bool, true, false, ◌&&◌, List, [], ◌∷◌, ◌++◌, Text, same, if◌then◌else◌, ◌≡◌,
  refl,
}
use microoperator.Base.{int_laws, Bool-cases, inl, inr, same_iff, &&_split}
use microoperator.Store.{
  AttemptState, attempt_running, attempt_open, AttemptRow, update_where, sum_where,
}
use microoperator.Store.{sum_where-append}
use microoperator.Broker.Settle.{running_of}

-- The facts of a call that none of the operations changes.
pub record CallInfo : Type 0 where
  pub system : Text
  pub goal : Text
  pub reservation : ℤ
  pub agents : List Text

-- What the attempts of the calls that `q` selects hold reserved: in flight, or of unknown outcome.
unfoldable pub outstanding : (Text → CallInfo) → (CallInfo → Bool) → List AttemptRow → ℤ
outstanding info q attempts =
    sum_where (λ (a : AttemptRow). attempt_open a.state && q (info a.call_id))
      AttemptRow.reservation attempts

-- What the attempts in flight of one call hold reserved.
unfoldable pub running_tokens : Text → List AttemptRow → ℤ
running_tokens call attempts = sum_where (running_of call) AttemptRow.reservation attempts

attempt_running→open : (s : AttemptState) → attempt_running s ≡ true → attempt_open s ≡ true
attempt_running→open AttemptState.running h = refl
attempt_running→open AttemptState.known h = cc
attempt_running→open AttemptState.unknown h = cc

module _ (info : Text → CallInfo) (q : CallInfo → Bool) (call : Text) where
  -- Closing the attempts in flight of a call gives back what they hold.
  pub outstanding-close :
      (f : AttemptRow → AttemptRow) (attempts : List AttemptRow)
      → ((a : AttemptRow) → attempt_open (AttemptRow.state (f a)) ≡ false)
      → outstanding info q (update_where (running_of call) f attempts)
        ≡ outstanding info q attempts
          -ℤ (if q (info call) then running_tokens call attempts else pos 0)
  unfolding outstanding running_tokens
  outstanding-close f [] closed = grind int_laws
  outstanding-close f (a ∷ attempts) closed =
      let rest = outstanding-close f attempts closed in
      elim (Bool-cases (running_of call a)) [
        | inl hit ↦
            let parts = &&_split (same a.call_id call) (attempt_running a.state) hit in
            let of_call = (same_iff a.call_id call).0 parts.0 in
            let held = attempt_running→open a.state parts.1 in
            let matched : q (info a.call_id) ≡ q (info call) = cc in
            rw hit rw (closed a) rw held rw matched elim (Bool-cases (q (info call))) [
              | inl wanted ↦ let r = rw wanted at rest in rw wanted grind (int_laws, r)
              | inr other ↦ let r = rw other at rest in rw other grind (int_laws, r)
            ]
        | inr miss ↦ rw miss elim (Bool-cases (q (info call))) [
          | inl wanted ↦ let r = rw wanted at rest in rw wanted grind (int_laws, r)
          | inr other ↦ let r = rw other at rest in rw other grind (int_laws, r)
        ]
      ]

  -- An attempt in flight whose outcome is unknown keeps what it holds.
  pub outstanding-unknown :
      (attempts : List AttemptRow)
      → outstanding info q (
          update_where
            (running_of call)
            (λ (a : AttemptRow). record a { state = AttemptState.unknown })
            attempts)
        ≡ outstanding info q attempts
  unfolding outstanding
  outstanding-unknown [] = refl
  outstanding-unknown (a ∷ attempts) =
      let rest = outstanding-unknown attempts in
      elim (Bool-cases (running_of call a)) [
        | inl hit ↦
            let held =
              attempt_running→open a.state
                (&&_split (same a.call_id call) (attempt_running a.state) hit).1 in
            rw hit rw held rw rest refl
        | inr miss ↦ rw miss rw rest refl
      ]

&&_false : (b : Bool) → (b && false) ≡ false
&&_false true = refl
&&_false false = refl

module _ (call : Text) (f : AttemptRow → AttemptRow) where
  -- After the attempts in flight of a call are closed, it holds nothing in flight.
  pub running_tokens-close :
      (attempts : List AttemptRow)
      → ((a : AttemptRow) → attempt_running (AttemptRow.state (f a)) ≡ false)
      → running_tokens call (update_where (running_of call) f attempts) ≡ pos 0
  unfolding running_tokens
  running_tokens-close [] closed = refl
  running_tokens-close (a ∷ attempts) closed =
      let rest = running_tokens-close attempts closed in
      elim (Bool-cases (running_of call a)) [
        | inl hit ↦
            rw hit rw (closed a) rw (&&_false (same (AttemptRow.call_id (f a)) call)) rw rest grind
              int_laws
        | inr miss ↦ rw miss rw miss rw rest grind int_laws
      ]

  -- Any other call holds what it held.
  pub running_tokens-other :
      (other : Text) (attempts : List AttemptRow)
      → same other call ≡ false
      → ((a : AttemptRow) → attempt_running (AttemptRow.state (f a)) ≡ false)
      → running_tokens other (update_where (running_of call) f attempts)
        ≡ running_tokens other attempts
  unfolding running_tokens
  running_tokens-other other [] differs closed = refl
  running_tokens-other other (a ∷ attempts) differs closed =
      let rest = running_tokens-other other attempts differs closed in
      elim (Bool-cases (running_of call a)) [
        | inl hit ↦
            let of_call =
              (same_iff a.call_id call).0
                (&&_split (same a.call_id call) (attempt_running a.state) hit).0 in
            let not_of : running_of other a ≡ false = elim (Bool-cases (same a.call_id other)) [
              | inl of_other ↦
                  let same_calls : other ≡ call =
                    cc (of_call, (same_iff a.call_id other).0 of_other) in
                  let clash = (same_iff other call).1 same_calls in cc
              | inr foreign ↦ rw foreign refl
            ] in
            rw hit rw (closed a) rw (&&_false (same (AttemptRow.call_id (f a)) other)) rw not_of rw
              rest refl
        | inr miss ↦ rw miss rw rest refl
      ]

pub running_tokens-append :
    (call : Text) (attempts : List AttemptRow) (a : AttemptRow)
    → attempt_running a.state ≡ true
    → running_tokens call (attempts ++ a ∷ [])
      ≡ running_tokens call attempts +ℤ (if same a.call_id call then a.reservation else pos 0)
unfolding running_tokens
running_tokens-append call attempts a flying =
    let sum = sum_where-append (running_of call) AttemptRow.reservation attempts (a ∷ []) in
    elim (Bool-cases (same a.call_id call)) [
      | inl hit ↦
          let sum' : sum_where (running_of call) AttemptRow.reservation (attempts ++ a ∷ [])
              ≡ sum_where (running_of call) AttemptRow.reservation attempts
                +ℤ ((if same a.call_id call && attempt_running a.state
                      then a.reservation
                      else pos 0)
                    +ℤ pos 0) =
            sum in
          let one = rw hit at (rw flying at sum') in rw hit grind (int_laws, one)
      | inr miss ↦ let one = rw miss at sum in rw miss grind (int_laws, one)
    ]
