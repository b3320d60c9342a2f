-- ===== src/Provider/Completions.antt =====
-- What a completion that was read holds of its tool calls: none, or one that was checked.
use microoperator.Base.{
  pos, lt_int, Bool, true, false, List, [], ◌∷◌, Text, text, same, length, ltb, if-true, if-false,
  ok, Option, none, some, ◌≡◌, Bool-cases, Option-cases, ◌||◌, not, inl, inr, >>=-eq-ok,
  ok-injective, fail_if-then, if-err, sym, ◌∙◌,
}
use mathlib.Core.Path.{subst}
use microoperator.Store.{ModelToolCall}
use microoperator.Provider.Chat.{
  ChatUsage, ChatReply, Choice, decode_provider, present, read_chat_stream,
}
use microoperator.Provider.Request.{
  RequestCodec, max_provider_bytes, FunctionSchema, check_action, check_actions, tool_completion,
  text_completion, plain_choice, read_choice, read_choices, read_reply, Response, Completion,
  read_response,
}

module _ {κ} (codec : RequestCodec) (key : Text) (Q : List ModelToolCall → Type κ)
    (no_action : Q [])
    (one : (functions : List FunctionSchema) (a b : ModelToolCall)
      → check_action codec key functions a ≡ ok b
      → Q (b ∷ [])) where
  check_actions-actions :
      (functions : List FunctionSchema) (calls : List ModelToolCall) {checked : List ModelToolCall}
      → check_actions codec key functions calls ≡ ok checked
      → Q checked
  unfolding check_actions
  check_actions-actions functions [] h = cc
  check_actions-actions functions (a ∷ b ∷ calls) h = cc
  check_actions-actions functions (a ∷ []) h = elim (Bool-cases (ltb 0 (length functions))) [
    | inr bad ↦ let failed_ok = sym (if-false _ _ _ bad) ∙ h in cc
    | inl good ↦
        let found =
          >>=-eq-ok (check_action codec key functions a) _ (sym (if-true _ _ _ good) ∙ h) in
        subst Q (ok-injective found.2) (one functions a found.0 found.1)
  ]

  tool_completion-actions :
      (body said : Text) (u : Option ChatUsage) (calls : Text) {c : Completion}
      → tool_completion codec key body said u calls ≡ ok c
      → Q c.actions
  unfolding tool_completion
  tool_completion-actions body said u calls h =
      let decoded = >>=-eq-ok (decode_provider codec.reply codec.calls calls) _ h in
      elim (Option-cases (codec.functions body)) [
        | inl none_ ↦ let failed_ok = rw none_ at (decoded.2) in cc
        | inr (functions, some_) ↦
            let chain = rw some_ at (decoded.2) in
            let checked = >>=-eq-ok (check_actions codec key functions decoded.0) _ chain in
            subst (λ c. Q (Completion.actions c)) (ok-injective checked.2)
              (check_actions-actions functions decoded.0 checked.1)
      ]

  text_completion-actions :
      (content : Option Text) (u : Option ChatUsage) {c : Completion}
      → text_completion content u ≡ ok c
      → Q c.actions
  unfolding text_completion
  text_completion-actions none u h = cc
  text_completion-actions (some said) u h =
      subst (λ c. Q (Completion.actions c)) (ok-injective h) no_action

  plain_choice-actions :
      (u : Option ChatUsage) (choice : Choice) (reason : Text) {c : Completion}
      → plain_choice u choice reason ≡ ok c
      → Q c.actions
  unfolding plain_choice
  plain_choice-actions u choice reason h =
      let first = if-err (not (same reason (text "stop") || same reason (text "length"))) _ _ h in
      let second = if-err (present choice.message.tool_calls) _ _ first.1 in
      text_completion-actions (choice.message.content) u second.1

  read_choice-actions :
      (body : Text) (u : Option ChatUsage) (choice : Choice) (reason : Text) {c : Completion}
      → read_choice codec key body u choice reason ≡ ok c
      → Q c.actions
  unfolding read_choice
  read_choice-actions body u choice reason h = elim (Bool-cases (same reason (text "tool_calls"))) [
    | inl calls ↦ tool_completion-actions body _ u _ (sym (if-true _ _ _ calls) ∙ h)
    | inr said ↦ plain_choice-actions u choice reason (sym (if-false _ _ _ said) ∙ h)
  ]

  read_choices-actions :
      (body : Text) (reply : ChatReply) (choices : List Choice) {c : Completion}
      → read_choices codec key body reply choices ≡ ok c
      → Q c.actions
  unfolding read_choices
  read_choices-actions body reply [] h = cc
  read_choices-actions body reply (a ∷ b ∷ choices) h = cc
  read_choices-actions body reply (choice ∷ []) h =
      let chosen =
        if-err
          (present reply.error
            || (lt_int choice.index (pos 0)
                || (lt_int (pos 0) choice.index || present choice.message.function_call)))
          _ _ h in
      elim (Option-cases (choice.finish)) [
        | inl none_ ↦ let failed_ok = rw none_ at (chosen.1) in cc
        | inr (reason, some_) ↦
            read_choice-actions body reply.usage choice reason (rw some_ at (chosen.1))
      ]

  read_reply-actions :
      (body : Text) (answer : Option Text) {c : Completion}
      → read_reply codec key body answer ≡ ok c
      → Q c.actions
  unfolding read_reply
  read_reply-actions body none h = cc
  read_reply-actions body (some data_text) h =
      let small = fail_if-then (ltb max_provider_bytes (length data_text)) _ _ h in
      let decoded = >>=-eq-ok (decode_provider codec.reply _ data_text) _ small.1 in
      read_choices-actions body decoded.0 _ decoded.2

  pub read_response-actions :
      (body : Text) (stream : Bool) (r : Response) (c : Completion)
      → read_response codec key body stream r ≡ ok c
      → Q c.actions
  unfolding read_response
  read_response-actions body true r c h =
      let got = >>=-eq-ok (read_chat_stream codec.reply r.lines r.scan_error r.oversized) _ h in
      subst (λ x. Q (Completion.actions x)) (ok-injective got.2) no_action
  read_response-actions body false r c h = read_reply-actions body r.body h
