-- ===== src/Provider/Bounds.antt =====
-- The bounds of what `Request` (provider/chat.go) reports.
use microoperator.Base.{
  ℕ, ◌≤◌, ℤ, pos, ◌+ℤ◌, ◌≤ℤ◌, le_int, Bool, true, false, [], Text, length, ltb, leb, if-true,
  if-false, Result, ok, err, Option, none, some, ◌≡◌, refl, arith, ◌==◌, Bool-cases, Option-cases,
  some-injective, ||_split, ◌||◌, not, ◌*◌, inl, inr, le_int→le, sym, ◌∙◌, &&_split, eq_int, ◌&&◌,
}
use mathlib.Core.Path.{subst}
use microoperator.Broker.Settle.{ProviderResult}
use microoperator.Provider.Chat.{ChatUsage, usage_max, valid_counts, valid_usage, max_model_text}
use microoperator.Provider.Completions.{read_response-actions}
use microoperator.Provider.Request.{
  RequestCodec, refused_status, Exchange, unbuilt, failed, answered, Ended, alive,
  deadline_exceeded, canceled, outcome, request_failure, throttled, Completion, read_response,
  deliver, complete, redact_text, fits_frame, request,
}

-- What is not known has no text, no usage, no tool calls and no retry; a retry has no usage. The text
-- has at most 32768 bytes, and there is at most one tool call.
pub record IsBounded (max_output : ℤ) (p : ProviderResult) : Type 0 where
  pub input_low : pos 0 ≤ℤ p.input
  pub input_high : p.input ≤ℤ usage_max
  pub output_low : pos 0 ≤ℤ p.output
  pub output_high : p.output ≤ℤ max_output
  pub text_short : length p.text ≤ max_model_text
  pub one_action : length p.actions ≤ 1
  pub unknown_empty :
      p.known ≡ false
      → (p.text ≡ [])
        × (p.actions ≡ [])
        × (p.input ≡ pos 0)
        × (p.output ≡ pos 0)
        × (p.retry ≡ false)
  pub retry_unused : p.retry ≡ true → (p.input ≡ pos 0) × (p.output ≡ pos 0)

-- A usage that is accepted.
abbrev InBounds : ℤ → ℤ × ℤ → Type 0
InBounds max_output used =
    (pos 0 ≤ℤ used.0) × (used.0 ≤ℤ usage_max) × (pos 0 ≤ℤ used.1) × (used.1 ≤ℤ max_output)

valid_counts-InBounds :
    (max_output : ℤ) (i o t : Option ℤ) {used : ℤ × ℤ}
    → valid_counts max_output i o t ≡ some used
    → InBounds max_output used
unfolding valid_counts
valid_counts-InBounds max_output none o t h = cc
valid_counts-InBounds max_output (some i) none t h = cc
valid_counts-InBounds max_output (some i) (some o) none h = cc
valid_counts-InBounds max_output (some i) (some o) (some t) {used} h =
    elim (Bool-cases (accepted i o t)) [
      | inr bad ↦ let none_some = sym (if-false _ _ _ bad) ∙ h in cc
      | inl good ↦
          let pair : (i, o) ≡ used = some-injective (sym (if-true _ _ _ good) ∙ h) in
          let a = &&_split (le_int (pos 0) i) _ good in
          let b = &&_split (le_int i usage_max) _ a.1 in
          let c = &&_split (le_int (pos 0) o) _ b.1 in
          let d = &&_split (le_int o max_output) (eq_int t (i +ℤ o)) c.1 in
          subst (InBounds max_output) pair (
            le_int→le (pos 0) i a.0,
            le_int→le i usage_max b.0,
            le_int→le (pos 0) o c.0,
            le_int→le o max_output d.0,
          )
    ]
  where
    accepted : ℤ → ℤ → ℤ → Bool
    accepted i o t =
        le_int (pos 0) i
        && (le_int i usage_max && (le_int (pos 0) o && (le_int o max_output && eq_int t (i +ℤ o))))

valid_usage-InBounds :
    (max_output : ℤ) (u : Option ChatUsage) {used : ℤ × ℤ}
    → valid_usage u max_output ≡ some used
    → InBounds max_output used
unfolding valid_usage
valid_usage-InBounds max_output none h = cc
valid_usage-InBounds max_output (some u) h =
    valid_counts-InBounds max_output u.input u.output u.total h

module _ (max_output : ℕ) where
  outcome-IsBounded :
      (known : Bool) (reason : Text) → IsBounded (pos max_output) (outcome known reason)
  outcome-IsBounded known reason = record {
    input_low = omega arith;
    input_high = omega arith;
    output_low = omega arith;
    output_high = omega arith;
    text_short = omega arith;
    one_action = omega arith;
    unknown_empty = λ _. (refl, refl, refl, refl, refl);
    retry_unused = λ _. (refl, refl);
  }

  request_failure-IsBounded :
      (ended : Ended) (reason : Text) → IsBounded (pos max_output) (request_failure ended reason)
  unfolding request_failure
  request_failure-IsBounded alive reason = outcome-IsBounded false reason
  request_failure-IsBounded deadline_exceeded reason = outcome-IsBounded false _
  request_failure-IsBounded canceled reason = outcome-IsBounded false _

  -- Only the delay and the cooldown vary.
  retry-IsBounded :
      (p : ProviderResult)
      → p.text ≡ []
      → p.actions ≡ []
      → p.input ≡ pos 0
      → p.output ≡ pos 0
      → p.known ≡ true
      → IsBounded (pos max_output) p
  retry-IsBounded p t a i o k = record {
    input_low = ground arith;
    input_high = ground arith;
    output_low = ground arith;
    output_high = ground arith;
    text_short = ground arith;
    one_action = ground arith;
    unknown_empty = λ u. cc;
    retry_unused = λ _. (i, o);
  }

  throttled-IsBounded :
      (now : ℤ) (attempt jitter : ℕ) (seconds date : Option ℤ)
      → IsBounded (pos max_output) (throttled now attempt jitter seconds date)
  unfolding throttled
  throttled-IsBounded now attempt jitter none none = retry-IsBounded _ refl refl refl refl refl
  throttled-IsBounded now attempt jitter none (some d) = retry-IsBounded _ refl refl refl refl refl
  throttled-IsBounded now attempt jitter (some (ℤ.negsuc s)) none =
      retry-IsBounded _ refl refl refl refl refl
  throttled-IsBounded now attempt jitter (some (ℤ.negsuc s)) (some d) =
      retry-IsBounded _ refl refl refl refl refl
  throttled-IsBounded now attempt jitter (some (ℤ.pos s)) none =
      elim (Bool-cases (leb s (86400 * 365))) [
        | inl h ↦ rw h (retry-IsBounded _ refl refl refl refl refl)
        | inr h ↦ rw h (retry-IsBounded _ refl refl refl refl refl)
      ]
  throttled-IsBounded now attempt jitter (some (ℤ.pos s)) (some d) =
      elim (Bool-cases (leb s (86400 * 365))) [
        | inl h ↦ rw h (retry-IsBounded _ refl refl refl refl refl)
        | inr h ↦ rw h (retry-IsBounded _ refl refl refl refl refl)
      ]

  deliver-IsBounded :
      (codec : RequestCodec) (key : Text) (c : Completion) (used : ℤ × ℤ)
      → InBounds (pos max_output) used
      → length c.actions ≤ 1
      → IsBounded (pos max_output) (deliver codec key c used)
  unfolding deliver
  deliver-IsBounded codec key c used b one =
      let said = redact_text key c.said in
      elim (Bool-cases (ltb max_model_text (length said) || not (fits_frame codec said))) [
        | inl big ↦ rw big (record {
          input_low = b.0;
          input_high = b.1;
          output_low = b.2;
          output_high = b.3;
          text_short = omega arith;
          one_action = omega arith;
          unknown_empty = λ u. cc;
          retry_unused = λ u. cc;
        })
        | inr fits ↦
            let small = (||_split (ltb max_model_text (length said)) _ fits).0 in
            rw fits (record {
              input_low = b.0;
              input_high = b.1;
              output_low = b.2;
              output_high = b.3;
              text_short = ground arith;
              one_action = one;
              unknown_empty = λ u. cc;
              retry_unused = λ u. cc;
            })
      ]

  complete-IsBounded :
      (codec : RequestCodec) (key : Text) (ended : Ended) (r : Result Completion)
      → ((c : Completion) → r ≡ ok c → length c.actions ≤ 1)
      → IsBounded (pos max_output) (complete codec (pos max_output) key ended r)
  unfolding complete
  complete-IsBounded codec key ended (err e) one = request_failure-IsBounded ended _
  complete-IsBounded codec key ended (ok c) one =
      elim (Bool-cases (ltb max_model_text (length c.said))) [
        | inl big ↦ rw big (request_failure-IsBounded ended _)
        | inr small ↦ rw small (elim (Option-cases (valid_usage c.usage (pos max_output))) [
          | inl bad ↦ rw bad (outcome-IsBounded false _)
          | inr (used, good) ↦ rw good (
              deliver-IsBounded codec key c used
                (valid_usage-InBounds (pos max_output) c.usage good) (one c refl))
        ])
      ]

  -- A result that is not known has no text, no tool calls, no usage and no retry, and one that is to be
  -- tried again has no usage. In every case the input is at most a billion tokens, the output at most
  -- the model's cap, neither is negative, the text has at most 32768 bytes, and there is at most one
  -- tool call.
  pub request-IsBounded :
      (codec : RequestCodec) (body : Text) (stream : Bool) (key : Text) (now : ℤ)
      (attempt jitter : ℕ) (ended : Ended) (exchange : Exchange)
      → IsBounded
          (pos max_output)
          (request codec (pos max_output) body stream key now attempt jitter ended exchange)
  unfolding request
  request-IsBounded codec body stream key now attempt jitter ended unbuilt =
      outcome-IsBounded true _
  request-IsBounded codec body stream key now attempt jitter ended failed =
      request_failure-IsBounded ended _
  request-IsBounded codec body stream key now attempt jitter ended (answered r) =
      elim (Bool-cases (r.status == 429)) [
        | inl h ↦ rw h (throttled-IsBounded now attempt jitter r.seconds r.date)
        | inr a ↦ elim (Bool-cases (refused_status r.status)) [
          | inl h ↦ rw (a, h) (outcome-IsBounded true _)
          | inr b ↦ elim (Bool-cases (r.status == 200)) [
            | inr h ↦ rw (a, b, h) (outcome-IsBounded false _)
            | inl h ↦
                rw (a, b, h)
                  (complete-IsBounded codec key ended (read_response codec key body stream r) (
                    read_response-actions codec key (λ xs. length xs ≤ 1) (omega arith)
                      (λ functions a b h. omega arith) body stream r))
          ]
        ]
      ]
