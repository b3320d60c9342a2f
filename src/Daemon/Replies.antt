-- ===== src/Daemon/Replies.antt =====
-- What each end of the pipe does with the messages of a call: one step of the dialogue each.
use microoperator.Base.{
  false, not, [], Text, text, same, if◌then◌else◌, Result, ok, ◌≡◌, refl, ◌∙◌, ap, same_refl,
  if-false, or_false, if-true,
}
use Prim.Native.String.{String}
use microoperator.Store.{ModelToolCall}
use microoperator.Access.Read.{Execution}
use microoperator.Protocol.Frames.{
  Message, message, same_message, Wire, finish, write, read, stop, same_message_refl,
}
use microoperator.Worker.Operator.{after_task, after_reply, after_tool}
use microoperator.Daemon.Activation.{
  ActionCodec, answer_tool, invoke, answer_model, after_ready, after_request,
}

module _ (call : Text) where
  abbrev pub says : String → Text → Message
  says type content = message (text type) call content

  -- What the worker does with each message of the call.
  module _ (wire : Wire) where
    pub after_task-task :
        (prompt : Text)
        → same call [] ≡ false
        → same prompt [] ≡ false
        → after_task wire (says "task" prompt)
          ≡ write wire (says "model.call" prompt) (read (after_reply wire call))
    unfolding after_task same text
    after_task-task prompt named asked = if-false _ _ _ (or_false _ _ named asked)

    pub after_reply-action :
        (body : Text)
        → after_reply wire call (says "model.action" body)
          ≡ write wire (says "tool.call" body) (read (after_tool wire call))
    unfolding after_reply same text
    after_reply-action body = if-false _ _ _ (ap not (same_refl call)) ∙ refl

    pub after_reply-result :
        (body : Text)
        → after_reply wire call (says "model.result" body)
          ≡ write wire (says "task.complete" []) (finish (ok tt))
    unfolding after_reply same text
    after_reply-result body = if-false _ _ _ (ap not (same_refl call)) ∙ refl

    pub after_reply-error :
        (body : Text)
        → after_reply wire call (says "model.error" body)
          ≡ write wire (says "task.failed" []) (stop (text "model call failed"))
    unfolding after_reply same text
    after_reply-error body = if-false _ _ _ (ap not (same_refl call)) ∙ refl

    pub after_tool-wait :
        (body : Text)
        → after_tool wire call (says "tool.wait" body)
          ≡ write wire (says "task.waiting" []) (finish (ok tt))
    unfolding after_tool same text
    after_tool-wait body = if-false _ _ _ (ap not (same_refl call)) ∙ refl

    pub after_tool-result :
        (body : Text)
        → after_tool wire call (says "tool.result" body)
          ≡ write wire (says "task.continue" []) (finish (ok tt))
    unfolding after_tool same text
    after_tool-result body = if-false _ _ _ (ap not (same_refl call)) ∙ refl

    pub after_tool-error :
        (body : Text)
        → after_tool wire call (says "tool.error" body)
          ≡ stop (text "tool operation denied or failed")
    unfolding after_tool same text
    after_tool-error body = if-false _ _ _ (ap not (same_refl call)) ∙ refl

  -- What the daemon does with each message of the worker.
  module _ (wire : Wire) (codec : ActionCodec) (prompt : Text) (tool : ModelToolCall → Result Text)
      (called : Result Execution) where
    pub after_ready-ready :
        after_ready wire codec call prompt called tool (message (text "ready") [] [])
        ≡ write wire (says "task" prompt) (read (after_request wire codec call prompt called tool))
    unfolding after_ready same_message same text
    after_ready-ready = refl

    pub after_request-call :
        after_request wire codec call prompt called tool (says "model.call" prompt)
        ≡ answer_model wire codec call tool called
    unfolding after_request
    after_request-call = if-false _ _ _ (ap not (same_message_refl (says "model.call" prompt)))

    pub invoke-call :
        (action : ModelToolCall)
        → codec.decode (codec.encode action) ≡ ok action
        → invoke wire codec call tool (says "tool.call" (codec.encode action))
          ≡ answer_tool wire codec call action (tool action)
    unfolding invoke same text
    invoke-call action back = if-false _ _ _ (ap not (same_refl call)) ∙ rw back refl

pub expected :
    (m : Message) (problem : Text)
    → (if same_message m m then finish (ok tt) else stop problem) ≡ finish (ok tt)
expected m problem = if-true _ _ _ (same_message_refl m)
