-- ===== src/Worker/Operator.antt =====
-- `Operator` (worker/operator.go): one model turn of a task, over the pipe to the daemon.
use microoperator.Base.{◌||◌, not, [], Text, text, same, if◌then◌else◌, ok}
use microoperator.Protocol.Frames.{Message, message, Wire, Process, finish, write, read, stop}

-- After the tool call was passed on.
unfoldable pub after_tool : Wire → Text → Message → Process
unfolding stop write
after_tool wire task result =
    if not (same result.id task)
    then stop (text "tool response correlation mismatch")
    else if same result.type (text "tool.error")
    then stop (text "tool operation denied or failed")
    else if same result.type (text "tool.wait")
    then write wire (message (text "task.waiting") task []) (finish (ok tt))
    else if not (same result.type (text "tool.result"))
    then stop (text "invalid tool response")
    else write wire (message (text "task.continue") task []) (finish (ok tt))

unfoldable pub after_reply : Wire → Text → Message → Process
unfolding stop write read after_tool
after_reply wire task reply =
    if not (same reply.id task)
    then stop (text "model response correlation mismatch")
    else if same reply.type (text "model.error")
    then write wire (message (text "task.failed") task []) (stop (text "model call failed"))
    else if same reply.type (text "model.action")
    then write wire (message (text "tool.call") task reply.content) (read (after_tool wire task))
    else if same reply.type (text "model.result")
    then write wire (message (text "task.complete") task []) (finish (ok tt))
    else stop (text "unexpected model response")

unfoldable pub after_task : Wire → Message → Process
unfolding stop write read after_reply
after_task wire task =
    if not (same task.type (text "task")) || (same task.id [] || same task.content [])
    then stop (text "invalid operator task")
    else write wire (message (text "model.call") task.id task.content)
        (read (after_reply wire task.id))

unfoldable pub operator : Wire → Process
unfolding write read after_task
operator wire = write wire (message (text "ready") [] []) (read (after_task wire))
