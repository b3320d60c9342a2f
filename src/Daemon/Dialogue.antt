-- ===== src/Daemon/Dialogue.antt =====
-- A turn of a task, from the worker's readiness to the end of both processes.
use microoperator.Base.{
  Bool, false, List, [], ◌∷◌, Text, text, same, if◌then◌else◌, if-true, if-false, Bool-cases, inl,
  inr, Result, ok, err, Error, Option, some, All, ◌≡◌, refl, ◌∙◌, ap, sym,
}
use microoperator.Store.{ModelToolCall}
use microoperator.Access.Read.{Execution}
use microoperator.Protocol.Frames.{
  Message, message, Wire, Process, finish, send, check_frame, write, read, stop, write-fits,
}
use microoperator.Worker.Operator.{operator, after_task, after_reply, after_tool}
use microoperator.Daemon.Session.{session, Faithful, Fits, worker_says, daemon_says}
use microoperator.Daemon.Replies.{
  says, after_task-task, after_reply-action, after_reply-result, after_reply-error, after_tool-wait,
  after_tool-result, after_tool-error, after_ready-ready, after_request-call, invoke-call, expected,
}
use microoperator.Daemon.Activation.{
  ActionCodec, model_call_ended, expect, fail_tool, call_completed, task_failure_reason, waits,
  respond, answer_tool, conclude, invoke, answer_model, activation, succeeded, after_ready,
  after_request,
}

-- Both have ended, and both have succeeded or both have failed, as `b` says.
abbrev pub Agree : Bool → Option (Result (Unit {0}) × Result (Unit {0})) → Type 0
Agree b ended =
    (worker : Result (Unit {0})) × (daemon : Result (Unit {0})) × (ended ≡ some (worker, daemon))
    × (succeeded worker ≡ b)
    × (succeeded daemon ≡ b)

-- A turn succeeds when its one tool call was answered, or its model call completed.
unfoldable pub turn_succeeds : Execution → (ModelToolCall → Result Text) → List ModelToolCall → Bool
unfolding succeeded call_completed
turn_succeeds result tool (action ∷ []) = succeeded (tool action)
turn_succeeds result tool _ = call_completed result.state

module _ (codec : ActionCodec) (call : Text) where
  answer_messages : ModelToolCall → Result Text → List Message
  unfolding waits task_failure_reason
  answer_messages action (err e) = says call "tool.error" (task_failure_reason e) ∷ []
  answer_messages action (ok value) =
      if waits codec action
      then says call "tool.wait" value ∷ says call "task.waiting" [] ∷ []
      else says call "tool.result" value ∷ says call "task.continue" [] ∷ []

  ending_messages : Execution → List Message
  unfolding call_completed
  ending_messages result =
      if call_completed result.state
      then says call "model.result" result.response ∷ says call "task.complete" [] ∷ []
      else says call "model.error" result.reason ∷ says call "task.failed" [] ∷ []

  -- The messages after the model call.
  unfoldable pub later_messages :
      Execution → (ModelToolCall → Result Text) → List ModelToolCall → List Message
  unfolding answer_messages ending_messages
  later_messages result tool (action ∷ []) =
      says call "model.action" (codec.encode action)
      ∷ says call "tool.call" (codec.encode action)
      ∷ answer_messages action (tool action)
  later_messages result tool _ = ending_messages result

  -- The messages of a turn.
  unfoldable pub turn_messages : Text → Execution → (ModelToolCall → Result Text) → List Message
  unfolding later_messages
  turn_messages prompt result tool =
      message (text "ready") [] []
      ∷ says call "task" prompt
      ∷ says call "model.call" prompt
      ∷ later_messages result tool result.actions

fail_tool-fits :
    (wire : Wire) (m : Message) (e : Error)
    → check_frame wire m ≡ ok tt
    → fail_tool wire m e ≡ write wire m (finish (err e))
unfolding fail_tool
fail_tool-fits wire m e fits =
    let sent : fail_tool wire m e ≡ send m (finish (err e)) = rw (fits, fail_tool) refl in
    sent ∙ sym (write-fits wire m (finish (err e)) fits)

module _ (wire : Wire) (faithful : Faithful wire) (codec : ActionCodec) (call : Text) where
  -- The daemon's message, the worker's last one in answer, and the end.
  exchange :
      (f : Message → Process) (m answer : Message) (problem : Text)
      → f m ≡ write wire answer (finish (ok tt))
      → Fits wire m
      → Fits wire answer
      → session wire (read f) (write wire m (expect answer problem)) ≡ some (ok tt, ok tt)
  unfolding session expect
  exchange f m answer problem step fits fits' =
      daemon_says wire faithful m f (expect answer problem) fits
      ∙ ap (λ p. session wire p (expect answer problem)) step
      ∙ worker_says wire faithful answer (finish (ok tt)) _ fits'
      ∙ ap (λ q. session wire (finish (ok tt)) q) (expected answer problem)

  -- From the answer of the tool on.
  tool_part :
      (action : ModelToolCall) (answer : Result Text)
      → All (Fits wire) (answer_messages codec call action answer)
      → Agree
          (succeeded answer)
          (session wire (read (after_tool wire call)) (answer_tool wire codec call action answer))
  unfolding answer_tool answer_messages session succeeded stop
  tool_part action (err e) fits =
      let m = says call "tool.error" (task_failure_reason e) in
      (
        _,
        _,
        ap (session wire (read (after_tool wire call))) (fail_tool-fits wire m e fits.0.0)
            ∙ daemon_says wire faithful m (after_tool wire call) (finish (err e)) fits.0
            ∙ ap (λ p. session wire p (finish (err e))) (after_tool-error call wire _),
        refl,
        refl,
      )
  tool_part action (ok value) fits = elim (Bool-cases (waits codec action)) [
    | inl later ↦
        let fit = rw later at fits in
        (
          _,
          _,
          ap (session wire (read (after_tool wire call))) (if-true _ _ _ later)
              ∙ exchange (after_tool wire call) (says call "tool.wait" value)
                  (says call "task.waiting" []) _ (after_tool-wait call wire value) fit.0 fit.1.0,
          refl,
          refl,
        )
    | inr now ↦
        let fit = rw now at fits in
        (
          _,
          _,
          ap (session wire (read (after_tool wire call))) (if-false _ _ _ now)
              ∙ exchange (after_tool wire call) (says call "tool.result" value)
                  (says call "task.continue" []) _ (after_tool-result call wire value) fit.0
                  fit.1.0,
          refl,
          refl,
        )
  ]

  ending_part :
      (result : Execution)
      → All (Fits wire) (ending_messages codec call result)
      → Agree
          (call_completed result.state)
          (session wire (read (after_reply wire call)) (conclude wire call result))
  unfolding conclude ending_messages session succeeded stop
  ending_part result fits = elim (Bool-cases (call_completed result.state)) [
    | inl done ↦
        let fit = rw done at fits in
        (
          _,
          _,
          ap (session wire (read (after_reply wire call))) (if-true _ _ _ done)
              ∙ exchange (after_reply wire call) (says call "model.result" result.response)
                  (says call "task.complete" []) _ (after_reply-result call wire _) fit.0 fit.1.0,
          sym done,
          sym done,
        )
    | inr not_done ↦
        let fit = rw not_done at fits in
        let m = says call "model.error" result.reason in
        let lost = model_call_ended result in
        (
          _,
          _,
          ap (session wire (read (after_reply wire call))) (if-false _ _ _ not_done)
              ∙ daemon_says wire faithful m (after_reply wire call) (read (λ _. lost)) fit.0
              ∙ ap (λ p. session wire p (read (λ _. lost))) (after_reply-error call wire _)
              ∙ worker_says wire faithful (says call "task.failed" [])
                  (stop (text "model call failed")) (λ _. lost) fit.1.0,
          sym not_done,
          sym not_done,
        )
  ]

  respond_part :
      (tool : ModelToolCall → Result Text) (result : Execution) (actions : List ModelToolCall)
      → All (λ action. codec.decode (codec.encode action) ≡ ok action) actions
      → All (Fits wire) (later_messages codec call result tool actions)
      → Agree (turn_succeeds result tool actions) (
          session wire (read (after_reply wire call)) (respond wire codec call tool result actions))
  unfolding respond later_messages turn_succeeds
  respond_part tool result [] back fits = ending_part result fits
  respond_part tool result (a ∷ b ∷ more) back fits = ending_part result fits
  respond_part tool result (action ∷ []) back fits =
      let sent = says call "model.action" (codec.encode action) in
      let passed = says call "tool.call" (codec.encode action) in
      let rest = tool_part action (tool action) fits.1.1 in
      (
        rest.0,
        rest.1,
        daemon_says wire faithful sent (after_reply wire call) (read (invoke wire codec call tool))
              fits.0
            ∙ ap (λ p. session wire p (read (invoke wire codec call tool)))
                (after_reply-action call wire _)
            ∙ worker_says wire faithful passed (read (after_tool wire call))
                (invoke wire codec call tool) fits.1.0
            ∙ ap (session wire (read (after_tool wire call)))
                (invoke-call call wire codec [] tool (ok result) action back.0)
            ∙ rest.2,
        rest.3,
        rest.4,
      )

  -- When the broker returns the call, a worker and the daemon's side of its activation do not
  -- deadlock: both end, and both succeed if the call's one tool call was answered or, without one, the
  -- call completed; otherwise both fail. The call and its prompt are not empty; every message of the
  -- turn fits into a frame and is valid UTF-8, and such messages are read as they were written; and
  -- the tool call is decoded as it was encoded.
  pub activation-Agree :
      (prompt : Text) (result : Execution) (tool : ModelToolCall → Result Text)
      → same call [] ≡ false
      → same prompt [] ≡ false
      → All (λ action. codec.decode (codec.encode action) ≡ ok action) result.actions
      → All (Fits wire) (turn_messages codec call prompt result tool)
      → Agree
          (turn_succeeds result tool result.actions)
          (session wire (operator wire) (activation wire codec call prompt (ok result) tool))
  unfolding operator activation turn_messages answer_model
  activation-Agree prompt result tool named asked back fits =
      let called = ok result in
      let ready = after_ready wire codec call prompt called tool in
      let asks = after_request wire codec call prompt called tool in
      let rest = respond_part tool result result.actions back fits.1.1.1 in
      (
        rest.0,
        rest.1,
        worker_says wire faithful (message (text "ready") [] []) (read (after_task wire)) ready
              fits.0
            ∙ ap (session wire (read (after_task wire)))
                (after_ready-ready call wire codec prompt tool called)
            ∙ daemon_says wire faithful (says call "task" prompt) (after_task wire) (read asks)
                fits.1.0
            ∙ ap (λ p. session wire p (read asks)) (after_task-task call wire prompt named asked)
            ∙ worker_says wire faithful (says call "model.call" prompt)
                (read (after_reply wire call)) asks fits.1.1.0
            ∙ ap (session wire (read (after_reply wire call)))
                (after_request-call call wire codec prompt tool called)
            ∙ rest.2,
        rest.3,
        rest.4,
      )
