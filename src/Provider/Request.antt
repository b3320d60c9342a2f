-- ===== src/Provider/Request.antt =====
-- `Request` (provider/chat.go): what becomes of one HTTP exchange with a provider. The exchange itself,
-- the clock and the random delay are arguments, and so is what encoding/json, strconv and net/http
-- make of a text.
use Prim.Native.String.{String}
use microoperator.Base.{
  ℕ, ◌+◌, ◌*◌, ◌^◌, min, ℤ, pos, lt_int, max_int, Bool, true, false, not, ◌&&◌, ◌||◌, List, [], ◌∷◌,
  ◌++◌, Text, text, same, length, ltb, leb, ◌==◌, if◌then◌else◌, Result, ok, err, ◌>>=◌, ◌>>◌,
  fail_if, Error, Option, none, some, find, all, between, reverse,
}
use microoperator.Store.{ModelToolCall}
use microoperator.Broker.Settle.{ProviderResult}
use microoperator.Protocol.Json.{
  Json, Items, Members, str, raw, arr, obj, nil, cons, end, member, decode_json,
}
use microoperator.Protocol.Frames.{Wire, message, check_frame}
use microoperator.Provider.Chat.{
  ChatUsage, ChatReply, Choice, ReplyCodec, present, decode_provider, valid_usage, max_model_text,
  read_chat_stream,
}
use microoperator.Provider.Redact.{occurs, redacted}
use microoperator.Provider.Arguments.{ArgumentSpec, validate_arguments}

-- state/registry.go, with the schema that encoding/json reads in the parameters.
pub record FunctionSchema : Type 0 where
  pub name : Text
  pub parameters : ArgumentSpec

-- `calls` decodes tool_calls, `functions` the tools of the request's body, `parse` and `print` a JSON
-- object, `integer` a JSON number that is an int64, and `decimal` is strconv.Itoa.
pub record RequestCodec : Type 0 where
  pub reply : ReplyCodec
  pub wire : Wire
  pub calls : Text → Option (List ModelToolCall)
  pub functions : Text → Option (List FunctionSchema)
  pub parse : Text → Result Json
  pub print : Json → Text
  pub integer : Text → Option ℤ
  pub decimal : ℕ → Text

-- A response: `body` is what was read of at most 1 MiB and a byte, if that succeeded; a stream has
-- lines instead. `seconds` and `date` are the Retry-After header as strconv and net/http read it,
-- in seconds and in Unix milliseconds.
pub record Response : Type 0 where
  pub status : ℕ
  pub seconds : Option ℤ
  pub date : Option ℤ
  pub body : Option Text
  pub lines : List Text
  pub scan_error : Option Error
  pub oversized : Bool

pub data Exchange : Type 0 where
  unbuilt : Exchange
  failed : Exchange
  answered : Response → Exchange

-- ctx.Err()
pub data Ended : Type 0 where
  alive deadline_exceeded canceled : Ended

abbrev pub max_provider_bytes : ℕ
max_provider_bytes = 1048576

abbrev pub max_event_bytes : ℕ
max_event_bytes = 8192

-- A result with nothing known but a reason.
abbrev pub outcome : Bool → Text → ProviderResult
outcome known reason = record {
  text = [];
  input = pos 0;
  output = pos 0;
  known = known;
  reason = reason;
  retry = false;
  cooldown = none;
  retry_delay = pos 0;
  actions = [];
}

unfoldable pub request_failure : Ended → Text → ProviderResult
request_failure alive reason = outcome false reason
request_failure deadline_exceeded reason = outcome false (
    text
      "provider request deadline exceeded after admission; outcome unknown and reservation retained")
request_failure canceled reason =
    outcome false
      (text "provider request canceled after admission; outcome unknown and reservation retained")

-- HTTP 429. The delay is in milliseconds; `jitter` is rand.IntN(1000).
unfoldable pub throttled : ℤ → ℕ → ℕ → Option ℤ → Option ℤ → ProviderResult
throttled now attempt jitter seconds date =
    let base = record (outcome true (text "provider throttled request")) { retry = true } in
    let backoff = record base { retry_delay = pos (2 ^ min attempt 6 * 1000 + jitter) } in
    let dated : ProviderResult = elim date [
      | none ↦ backoff
      | some d ↦ record base { cooldown = some (max_int d now) }
    ] in
    elim seconds [
      | none ↦ dated
      | some (ℤ.pos s) ↦
          if leb s (86400 * 365) then record base { retry_delay = pos (s * 1000) } else dated
      | some (ℤ.negsuc _) ↦ dated
    ]

key_char : ℕ → Bool
key_char c =
    between b'a' b'z' c
    || (between b'A' b'Z' c
        || (between b'0' b'9' c || (c == b'.' || (c == b'_' || (c == b':' || c == b'-')))))

-- CommandKeyPattern (state/files.go)
unfoldable pub command_key : Text → Bool
unfolding key_char
command_key [] = false
command_key (c ∷ rest) =
    (between b'a' b'z' c || (between b'A' b'Z' c || between b'0' b'9' c))
    && (leb (length rest) 127 && all key_char rest)

-- redactArgumentStrings, on the value whose strings are redacted in place.
unfoldable mutual
  pub redact_json : Text → Json → Json
  redact_json key (str s) = str (redacted key s)
  redact_json key (raw s) = raw s
  redact_json key (arr xs) = arr (redact_items key xs)
  redact_json key (obj ms) = obj (redact_members key ms)

  pub redact_items : Text → Items → Items
  redact_items key nil = nil
  redact_items key (cons v xs) = cons (redact_json key v) (redact_items key xs)

  pub redact_members : Text → Members → Members
  redact_members key end = end
  redact_members key (member name v ms) = member name (redact_json key v) (redact_members key ms)

unfoldable pub redact_arguments : Text → Json → Json
unfolding redact_json
redact_arguments key v = if same key [] then v else redact_json key v

unfoldable pub redact_text : Text → Text → Text
redact_text key s = if same key [] then s else redacted key s

rejected : String → Error
rejected problem = Error.fault (text problem)

abbrev pub last_named : Text → List FunctionSchema → Option FunctionSchema
last_named name functions = find (λ (f : FunctionSchema). same f.name name) (reverse functions)

unfoldable pub action_refused : Text → ModelToolCall → Bool
unfolding command_key
action_refused key a =
    not (same a.type (text "function"))
    || (not (command_key a.id)
        || ((not (same key []) && occurs key a.id) || ltb max_event_bytes (length a.arguments)))

-- The one tool call of a completion, for the function that it names, with its arguments redacted and
-- checked.
unfoldable pub check_selected :
    RequestCodec → Text → FunctionSchema → ModelToolCall → Result ModelToolCall
unfolding redact_arguments validate_arguments action_refused
check_selected codec key selected a = do
  fail_if (action_refused key a) (Error.fault (text "invalid model tool call"))
  value ← decode_json codec.reply.lower codec.reply.lex codec.parse a.arguments
  validate_arguments codec.integer selected.parameters (redact_arguments key value)
  ok (record a { arguments = codec.print (redact_arguments key value) })

unfoldable pub check_action :
    RequestCodec → Text → List FunctionSchema → ModelToolCall → Result ModelToolCall
unfolding check_selected
check_action codec key functions a = elim (last_named a.name functions) [
  | none ↦ err (Error.fault (text "invalid model tool call"))
  | some selected ↦ check_selected codec key selected a
]

unfoldable pub check_actions :
    RequestCodec → Text → List FunctionSchema → List ModelToolCall → Result (List ModelToolCall)
unfolding check_action rejected
check_actions codec key functions (a ∷ []) =
    if ltb 0 (length functions)
    then (check_action codec key functions a >>= λ b. ok (b ∷ []))
    else err (rejected "unrequested or parallel tool call")
check_actions codec key functions _ = err (rejected "unrequested or parallel tool call")

-- A text, its usage and its tool calls.
pub record Completion : Type 0 where
  pub said : Text
  pub usage : Option ChatUsage
  pub actions : List ModelToolCall

unfoldable pub tool_completion :
    RequestCodec → Text → Text → Text → Option ChatUsage → Text → Result Completion
unfolding check_actions rejected
tool_completion codec key body said usage calls =
    decode_provider codec.reply codec.calls calls >>= λ actions. elim (codec.functions body) [
      | none ↦ err (rejected "json")
      | some functions ↦ check_actions codec key functions actions >>= λ checked.
          ok (record { said = said; usage = usage; actions = checked })
    ]

content_or_empty : Option Text → Text
content_or_empty none = []
content_or_empty (some s) = s

-- A completion without tool calls.
unfoldable pub text_completion : Option Text → Option ChatUsage → Result Completion
unfolding rejected
text_completion none usage = err (rejected "invalid completion content")
text_completion (some said) usage = ok (record { said = said; usage = usage; actions = [] })

unfoldable pub plain_choice : Option ChatUsage → Choice → Text → Result Completion
unfolding rejected text_completion
plain_choice usage choice reason =
    if not (same reason (text "stop") || same reason (text "length"))
    then err (rejected "unsupported provider completion")
    else if present choice.message.tool_calls
    then err (rejected "invalid completion content")
    else text_completion choice.message.content usage

-- The one choice of a reply that is not streamed.
unfoldable pub read_choice :
    RequestCodec → Text → Text → Option ChatUsage → Choice → Text → Result Completion
unfolding tool_completion content_or_empty plain_choice
read_choice codec key body usage choice reason =
    if same reason (text "tool_calls")
    then tool_completion codec key body (content_or_empty choice.message.content) usage
        choice.message.tool_calls
    else plain_choice usage choice reason

unfoldable pub read_choices :
    RequestCodec → Text → Text → ChatReply → List Choice → Result Completion
unfolding read_choice rejected
read_choices codec key body reply (choice ∷ []) =
    if present reply.error
      || (lt_int choice.index (pos 0)
          || (lt_int (pos 0) choice.index || present choice.message.function_call))
    then err (rejected "unsupported provider completion")
    else elim (choice.finish) [
      | none ↦ err (rejected "unsupported provider completion")
      | some reason ↦ read_choice codec key body reply.usage choice reason
    ]
read_choices codec key body reply _ = err (rejected "unsupported provider completion")

-- A reply that is not streamed.
unfoldable pub read_reply : RequestCodec → Text → Text → Option Text → Result Completion
unfolding read_choices rejected
read_reply codec key body none = err (rejected "read")
read_reply codec key body (some data_text) = do
  fail_if (ltb max_provider_bytes (length data_text)) (rejected "provider response too large")
  reply ← decode_provider codec.reply codec.reply.decode data_text
  read_choices codec key body reply reply.choices

unfoldable pub read_response : RequestCodec → Text → Text → Bool → Response → Result Completion
unfolding read_reply
read_response codec key body stream r =
    if stream
    then (read_chat_stream codec.reply r.lines r.scan_error r.oversized >>= λ got.
        ok (record { said = got.0; usage = got.1; actions = [] }))
    else read_reply codec key body r.body

unfoldable pub fits_frame : RequestCodec → Text → Bool
fits_frame codec said =
    elim (check_frame codec.wire
      (message (text "model.result") (text "call_00000000000000000000000000000000") said)) [
        | ok _ ↦ true
        | err _ ↦ false
      ]

-- A completion whose usage is valid.
unfoldable pub deliver : RequestCodec → Text → Completion → ℤ × ℤ → ProviderResult
unfolding redact_text fits_frame
deliver codec key c used =
    let said = redact_text key c.said in
    if ltb max_model_text (length said) || not (fits_frame codec said)
    then record (outcome true (text "encoded model output exceeds the worker response limit")) {
      input = used.0;
      output = used.1;
    }
    else record (outcome true []) {
      text = said;
      input = used.0;
      output = used.1;
      actions = c.actions;
    }

unfoldable pub complete : RequestCodec → ℤ → Text → Ended → Result Completion → ProviderResult
unfolding deliver request_failure
complete codec max_output key ended (err _) = request_failure ended (
    text "provider response malformed, incomplete, unsupported, or oversized; reservation retained")
complete codec max_output key ended (ok c) =
    if ltb max_model_text (length c.said)
    then request_failure ended (
        text
          "provider response malformed, incomplete, unsupported, or oversized; reservation retained")
    else elim (valid_usage c.usage max_output) [
      | none ↦ outcome false (text "provider usage missing or invalid; reservation retained")
      | some used ↦ deliver codec key c used
    ]

unfoldable pub refused_status : ℕ → Bool
refused_status s = s == 400 || (s == 401 || (s == 403 || (s == 404 || s == 422)))

-- Request
unfoldable pub request :
    RequestCodec → ℤ → Text → Bool → Text → ℤ → ℕ → ℕ → Ended → Exchange → ProviderResult
unfolding request_failure throttled read_response complete refused_status
request codec max_output body stream key now attempt jitter ended unbuilt =
    outcome true (text "provider request invalid before sending")
request codec max_output body stream key now attempt jitter ended failed =
    request_failure ended
      (text "provider transport failed; outcome unknown and reservation retained")
request codec max_output body stream key now attempt jitter ended (answered r) =
    if r.status == 429
    then throttled now attempt jitter r.seconds r.date
    else if refused_status r.status
    then outcome true
        (text "provider rejected request (HTTP " ++ (codec.decimal r.status ++ text ")"))
    else if not (r.status == 200)
    then outcome false (
        text "provider returned HTTP "
        ++ (codec.decimal r.status ++ text "; usage unknown and reservation retained"))
    else complete codec max_output key ended (read_response codec key body stream r)
