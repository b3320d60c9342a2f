-- ===== src/Provider/Secrets.antt =====
-- The provider's credential does not come back in what `Request` (provider/chat.go) reports.
use microoperator.Base.{
  ℕ, ℤ, Bool, true, false, not, ◌&&◌, ◌||◌, List, [], ◌∷◌, Text, text, same, length, ltb, leb,
  if-false, Result, ok, err, Option, none, some, All, ◌≡◌, refl, ◌∙◌, ap, Bool-cases, Option-cases,
  ||_split, inl, inr, >>=-eq-ok, ok-injective, fail_if-then, ◌==◌, ◌*◌,
}
use mathlib.Core.Path.{subst}
use microoperator.Store.{ModelToolCall}
use microoperator.Broker.Settle.{ProviderResult}
use microoperator.Protocol.Json.{
  Json, Items, Members, str, raw, arr, obj, nil, cons, end, member, decode_json,
}
use microoperator.Provider.Chat.{valid_usage, max_model_text}
use microoperator.Provider.Redact.{Redactable, occurs, occurs-redacted, occurs-nonempty}
use microoperator.Provider.Completions.{read_response-actions}
use microoperator.Provider.Arguments.{validate_arguments}
use microoperator.Provider.Request.{
  RequestCodec, FunctionSchema, max_event_bytes, command_key, last_named, action_refused,
  check_selected, check_action, refused_status, Exchange, unbuilt, failed, answered, Ended, alive,
  deadline_exceeded, canceled, request_failure, throttled, Completion, read_response, deliver,
  complete, redact_text, redact_json, redact_items, redact_members, redact_arguments, fits_frame,
  request,
}

both_false : (a b : Bool) → a ≡ false → (not a && b) ≡ false → b ≡ false
both_false true b h k = cc
both_false false b h k = k

-- In no string of the value does the key occur.
abbrev mutual
  pub Clean : Text → Json → Type 0
  Clean key (str s) = occurs key s ≡ false
  Clean key (raw s) = Unit
  Clean key (arr xs) = CleanItems key xs
  Clean key (obj ms) = CleanMembers key ms

  pub CleanItems : Text → Items → Type 0
  CleanItems key nil = Unit
  CleanItems key (cons v xs) = Clean key v × CleanItems key xs

  pub CleanMembers : Text → Members → Type 0
  CleanMembers key end = Unit
  CleanMembers key (member name v ms) = Clean key v × CleanMembers key ms

mutual
  unfolding redact_json

  redact_json-Clean : (key : Text) → Redactable key → (v : Json) → Clean key (redact_json key v)
  redact_json-Clean key r (str s) = occurs-redacted key s r
  redact_json-Clean key r (raw s) = tt
  redact_json-Clean key r (arr xs) = redact_items-Clean key r xs
  redact_json-Clean key r (obj ms) = redact_members-Clean key r ms

  redact_items-Clean :
      (key : Text) → Redactable key → (xs : Items) → CleanItems key (redact_items key xs)
  redact_items-Clean key r nil = tt
  redact_items-Clean key r (cons v xs) = (redact_json-Clean key r v, redact_items-Clean key r xs)

  redact_members-Clean :
      (key : Text) → Redactable key → (ms : Members) → CleanMembers key (redact_members key ms)
  redact_members-Clean key r end = tt
  redact_members-Clean key r (member name v ms) =
      (redact_json-Clean key r v, redact_members-Clean key r ms)

abbrev pub ActionIsClean : RequestCodec → Text → ModelToolCall → Type 0
ActionIsClean codec key a =
    (occurs key a.id ≡ false) × (v : Json) × (a.arguments ≡ codec.print v) × Clean key v

throttled-empty :
    (now : ℤ) (attempt jitter : ℕ) (seconds date : Option ℤ)
    → let p = throttled now attempt jitter seconds date in (p.text ≡ []) × (p.actions ≡ [])
unfolding throttled
throttled-empty now attempt jitter none none = (refl, refl)
throttled-empty now attempt jitter none (some d) = (refl, refl)
throttled-empty now attempt jitter (some (ℤ.negsuc s)) none = (refl, refl)
throttled-empty now attempt jitter (some (ℤ.negsuc s)) (some d) = (refl, refl)
throttled-empty now attempt jitter (some (ℤ.pos s)) none = elim (Bool-cases (leb s (86400 * 365))) [
  | inl h ↦ rw h (refl, refl)
  | inr h ↦ rw h (refl, refl)
]
throttled-empty now attempt jitter (some (ℤ.pos s)) (some d) =
    elim (Bool-cases (leb s (86400 * 365))) [
      | inl h ↦ rw h (refl, refl)
      | inr h ↦ rw h (refl, refl)
    ]

module _ (codec : RequestCodec) (key : Text) (safe : Redactable key) where
  some_byte : same key [] ≡ false
  some_byte = occurs-nonempty key (text "redacted") safe.1

  check_selected-IsClean :
      (selected : FunctionSchema) (a b : ModelToolCall)
      → check_selected codec key selected a ≡ ok b
      → ActionIsClean codec key b
  unfolding check_selected redact_arguments action_refused
  check_selected-IsClean selected a b h =
      let allowed = fail_if-then (action_refused key a) _ _ h in
      let decoded =
        >>=-eq-ok (decode_json codec.reply.lower codec.reply.lex codec.parse a.arguments) _
          allowed.1 in
      let checked =
        >>=-eq-ok
          (validate_arguments codec.integer selected.parameters (redact_arguments key decoded.0)) _
          decoded.2 in
      let kind_ok = (||_split (not (same a.type (text "function"))) _ allowed.0).1 in
      let id_ok = (||_split (not (command_key a.id)) _ kind_ok).1 in
      let no_key =
        (||_split (not (same key []) && occurs key a.id) (ltb max_event_bytes (length a.arguments))
          id_ok).0 in
      subst (ActionIsClean codec key) (ok-injective checked.2) (
        both_false (same key []) (occurs key a.id) some_byte no_key,
        redact_json key decoded.0,
        ap codec.print (if-false _ _ _ some_byte),
        redact_json-Clean key safe decoded.0,
      )

  check_action-IsClean :
      (functions : List FunctionSchema) (a b : ModelToolCall)
      → check_action codec key functions a ≡ ok b
      → All (ActionIsClean codec key) (b ∷ [])
  unfolding check_action
  check_action-IsClean functions a b h = elim (Option-cases (last_named a.name functions)) [
    | inl missing ↦ let failed_ok = rw (missing, check_action) at h in cc
    | inr (selected, named) ↦
        (check_selected-IsClean selected a b (rw (named, check_action) at h), tt)
  ]

  abbrev IsClean : ProviderResult → Type 0
  IsClean p = (occurs key p.text ≡ false) × All (ActionIsClean codec key) p.actions

  empty_clean : occurs key [] ≡ false
  unfolding occurs
  empty_clean = some_byte

  deliver-IsClean :
      (c : Completion) (used : ℤ × ℤ)
      → All (ActionIsClean codec key) c.actions
      → IsClean (deliver codec key c used)
  unfolding deliver redact_text
  deliver-IsClean c used clean =
      let said = redact_text key c.said in
      elim (Bool-cases (ltb max_model_text (length said) || not (fits_frame codec said))) [
        | inl big ↦ rw big (empty_clean, tt)
        | inr fits ↦
            rw fits
              (ap (occurs key) (if-false _ _ _ some_byte) ∙ occurs-redacted key c.said safe, clean)
      ]

  request_failure-IsClean : (ended : Ended) (reason : Text) → IsClean (request_failure ended reason)
  unfolding request_failure
  request_failure-IsClean alive reason = (empty_clean, tt)
  request_failure-IsClean deadline_exceeded reason = (empty_clean, tt)
  request_failure-IsClean canceled reason = (empty_clean, tt)

  throttled-IsClean :
      (now : ℤ) (attempt jitter : ℕ) (seconds date : Option ℤ)
      → IsClean (throttled now attempt jitter seconds date)
  throttled-IsClean now attempt jitter seconds date =
      let empty = throttled-empty now attempt jitter seconds date in
      (rw (empty.0) empty_clean, rw (empty.1) tt)

  complete-IsClean :
      (max_output : ℤ) (ended : Ended) (r : Result Completion)
      → ((c : Completion) → r ≡ ok c → All (ActionIsClean codec key) c.actions)
      → IsClean (complete codec max_output key ended r)
  unfolding complete
  complete-IsClean max_output ended (err e) clean = request_failure-IsClean ended _
  complete-IsClean max_output ended (ok c) clean =
      elim (Bool-cases (ltb max_model_text (length c.said))) [
        | inl big ↦ rw big (request_failure-IsClean ended _)
        | inr small ↦ rw small (elim (Option-cases (valid_usage c.usage max_output)) [
          | inl bad ↦ rw bad (empty_clean, tt)
          | inr (used, good) ↦ rw good (deliver-IsClean c used (clean c refl))
        ])
      ]

  -- A credential without brackets that is no part of the word "redacted" occurs neither in the text
  -- that is reported, nor in the id of a tool call, and the arguments of a tool call are the text of a
  -- JSON value in none of whose strings it occurs. The names of fields are not covered.
  pub request-IsClean :
      (max_output : ℤ) (body : Text) (stream : Bool) (now : ℤ) (attempt jitter : ℕ) (ended : Ended)
      (exchange : Exchange)
      → let p = request codec max_output body stream key now attempt jitter ended exchange in
        (occurs key p.text ≡ false) × All (ActionIsClean codec key) p.actions
  unfolding request
  request-IsClean max_output body stream now attempt jitter ended unbuilt = (empty_clean, tt)
  request-IsClean max_output body stream now attempt jitter ended failed =
      request_failure-IsClean ended _
  request-IsClean max_output body stream now attempt jitter ended (answered r) =
      elim (Bool-cases (r.status == 429)) [
        | inl h ↦ rw h (throttled-IsClean now attempt jitter r.seconds r.date)
        | inr a ↦ elim (Bool-cases (refused_status r.status)) [
          | inl h ↦ rw (a, h) (empty_clean, tt)
          | inr b ↦ elim (Bool-cases (r.status == 200)) [
            | inr h ↦ rw (a, b, h) (empty_clean, tt)
            | inl h ↦
                rw (a, b, h)
                  (complete-IsClean max_output ended (read_response codec key body stream r) (
                    read_response-actions codec key (All (ActionIsClean codec key)) tt
                      check_action-IsClean body stream r))
          ]
        ]
      ]
