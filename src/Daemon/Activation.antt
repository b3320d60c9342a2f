-- ===== src/Daemon/Activation.antt =====
-- The dialogue of `runActivation` (daemon/execution.go) with the worker of an activation. What the
-- broker's call and the tool's invocation answer are arguments. The workspace of the worker and its
-- launch are not modelled. Of two errors that errors.Join keeps, the first is kept.
use microoperator.Base.{
  Bool, true, false, not, ◌||◌, List, [], ◌∷◌, Text, text, same, if◌then◌else◌, Result, ok, err,
  ◌++◌, Error,
}
use microoperator.Store.{CallState, ModelToolCall}
use microoperator.Access.Env.{error_text, denied_task}
use microoperator.Access.Read.{Execution}
use microoperator.Protocol.Frames.{
  Message, message, same_message, Wire, Process, finish, send, check_frame, write, read, stop,
}

unfoldable pub call_completed : CallState → Bool
call_completed CallState.completed = true
call_completed _ = false

-- The column model_calls.state, as text.
unfoldable pub call_state_text : CallState → Text
call_state_text CallState.awaiting_worker = text "awaiting_worker"
call_state_text CallState.queued = text "queued"
call_state_text CallState.running = text "running"
call_state_text CallState.completed = text "completed"
call_state_text CallState.failed = text "failed"
call_state_text CallState.canceled = text "canceled"
call_state_text CallState.rejected = text "rejected"
call_state_text CallState.unknown = text "unknown"

-- TaskFailureReason (state/team_ops.go)
unfoldable pub task_failure_reason : Error → Text
task_failure_reason e =
    if denied_task e then error_text e else text "activation failed; inspect daemon diagnostics"

-- encoding/json for one tool call: its text, and `DecodeJSON` of a text. `hash` is the hexadecimal
-- text of the first half of crypto/sha256.
pub record ActionCodec : Type 0 where
  pub encode : ModelToolCall → Text
  pub decode : Text → Result ModelToolCall
  pub hash : Text → Text

-- WireToolName (state/registry.go)
unfoldable pub wire_tool_name : ActionCodec → Text → Text
wire_tool_name codec name = text "fn_" ++ codec.hash name

unfoldable pub waits : ActionCodec → ModelToolCall → Bool
unfolding wire_tool_name
waits codec action =
    same action.name (wire_tool_name codec (text "runtime.task.delegate"))
    || same action.name (wire_tool_name codec (text "runtime.task.wait"))

unfoldable pub expect : Message → Text → Process
expect expected problem =
    read (λ got. if same_message got expected then finish (ok tt) else stop problem)

-- The worker is told of the failure of its tool; the activation fails whether or not that arrives.
unfoldable pub fail_tool : Wire → Message → Error → Process
fail_tool wire m e = elim (check_frame wire m) [
  | ok _ ↦ send m (finish (err e))
  | err _ ↦ finish (err e)
]

-- The tool answered, or failed.
unfoldable pub answer_tool : Wire → ActionCodec → Text → ModelToolCall → Result Text → Process
unfolding expect waits task_failure_reason fail_tool
answer_tool wire codec call action (err e) =
    fail_tool wire (message (text "tool.error") call (task_failure_reason e)) e
answer_tool wire codec call action (ok value) =
    if waits codec action
    then write wire (message (text "tool.wait") call value) (
        expect (message (text "task.waiting") call [])
          (text "invalid continuation acknowledgement"))
    else write wire (message (text "tool.result") call value) (
        expect (message (text "task.continue") call [])
          (text "invalid continuation acknowledgement"))

-- The worker passes on the tool call that it was sent.
unfoldable pub invoke :
    Wire → ActionCodec → Text → (ModelToolCall → Result Text) → Message → Process
unfolding answer_tool
invoke wire codec call tool request =
    if not (same request.type (text "tool.call")) || not (same request.id call)
    then stop (text "invalid scoped tool invocation")
    else elim (codec.decode request.content) [
      | err _ ↦ stop (text "invalid scoped tool invocation")
      | ok action ↦ answer_tool wire codec call action (tool action)
    ]

unfoldable pub model_call_ended : Execution → Process
unfolding call_state_text stop
model_call_ended result =
    stop
      (text "model call ended " ++ (call_state_text result.state ++ (text ": " ++ result.reason)))

-- A call without one tool call.
unfoldable pub conclude : Wire → Text → Execution → Process
unfolding expect call_completed model_call_ended
conclude wire call result =
    if call_completed result.state
    then write wire (message (text "model.result") call result.response) (
        expect (message (text "task.complete") call [])
          (text "missing scoped task completion acknowledgement"))
    else write wire (message (text "model.error") call result.reason)
        (read (λ _. model_call_ended result))

-- By the tool calls of the result.
unfoldable pub respond :
    Wire
    → ActionCodec
    → Text
    → (ModelToolCall → Result Text)
    → Execution
    → List ModelToolCall
    → Process
unfolding invoke conclude
respond wire codec call tool result (action ∷ []) =
    write wire (message (text "model.action") call (codec.encode action))
      (read (invoke wire codec call tool))
respond wire codec call tool result _ = conclude wire call result

unfoldable pub answer_model :
    Wire → ActionCodec → Text → (ModelToolCall → Result Text) → Result Execution → Process
unfolding respond
answer_model wire codec call tool (err e) = finish (err e)
answer_model wire codec call tool (ok result) = respond wire codec call tool result result.actions

-- An activation of a call with this id and prompt.
module _ (wire : Wire) (codec : ActionCodec) (call prompt : Text) (called : Result Execution)
    (tool : ModelToolCall → Result Text) where
  unfoldable pub after_request : Message → Process
  unfolding answer_model
  after_request request =
      if not (same_message request (message (text "model.call") call prompt))
      then stop (text "worker requested an operation outside its scoped task")
      else answer_model wire codec call tool called

  unfoldable pub after_ready : Message → Process
  unfolding after_request
  after_ready ready =
      if not (same_message ready (message (text "ready") [] []))
      then stop (text "invalid worker readiness")
      else write wire (message (text "task") call prompt) (read after_request)

  unfoldable pub activation : Process
  unfolding after_ready
  activation = read after_ready

unfoldable pub succeeded {ℓ} : {A : Type ℓ} → Result A → Bool
succeeded (ok _) = true
succeeded (err _) = false
