-- ===== src/Provider/Chat.antt =====
-- provider/chat.go: the shape of a provider's reply, its usage, and the stream of server-sent events
-- (`readChatStream`). The decoding of encoding/json is a parameter.
use Prim.Native.String.{String}
use microoperator.Base.{
  ℕ, ℤ, pos, ◌+ℤ◌, le_int, eq_int, Bool, true, false, not, ◌&&◌, ◌||◌, List, [], ◌∷◌, ◌++◌, Text,
  text, same, length, ltb, if◌then◌else◌, Result, ok, err, ◌>>=◌, ◌>>◌, fail_if, Error, Option,
  none, some, has_prefix, valid_utf8,
}
use microoperator.Protocol.Json.{Token, scan_json}
use microoperator.Protocol.Frames.{max_frame}

-- A pointer of the source is an Option; a json.RawMessage is its text.
pub record ChatUsage : Type 0 where
  pub input : Option ℤ
  pub output : Option ℤ
  pub total : Option ℤ

pub record ChatContent : Type 0 where
  pub content : Option Text
  pub tool_calls : Text
  pub function_call : Text

pub record Choice : Type 0 where
  pub index : ℤ
  pub message : ChatContent
  pub delta : ChatContent
  pub finish : Option Text

pub record ChatReply : Type 0 where
  pub choices : List Choice
  pub usage : Option ChatUsage
  pub error : Text

-- encoding/json on what a provider sends; `lower` is strings.ToLower.
pub record ReplyCodec : Type 0 where
  pub lower : Text → Text
  pub lex : Text → List Token
  pub decode : Text → Option ChatReply

unfoldable pub present : Text → Bool
present data_text =
    not (same data_text [])
    && (not (same data_text (text "null")) && not (same data_text (text "[]")))

-- decodeProvider, into the type that `decode` gives.
unfoldable pub decode_provider {ℓ} : {A : Type ℓ} → ReplyCodec → (Text → Option A) → Text → Result A
decode_provider codec decode s = do
  fail_if (not (valid_utf8 s)) (Error.fault (text "invalid provider UTF-8"))
  scan_json codec.lower (codec.lex s)
  elim (decode s) [
    | none ↦ err (Error.fault (text "invalid provider response shape"))
    | some reply ↦ ok reply
  ]

abbrev pub usage_max : ℤ
usage_max = pos 1000000000

-- validUsage, with the tokens where the usage is valid.
unfoldable pub valid_counts : ℤ → Option ℤ → Option ℤ → Option ℤ → Option (ℤ × ℤ)
valid_counts max_output (some input) (some output) (some total) =
    if le_int (pos 0) input
      && (le_int input usage_max
          && (le_int (pos 0) output
              && (le_int output max_output && eq_int total (input +ℤ output))))
    then some (input, output)
    else none
valid_counts max_output _ _ _ = none

unfoldable pub valid_usage : Option ChatUsage → ℤ → Option (ℤ × ℤ)
unfolding valid_counts
valid_usage none max_output = none
valid_usage (some u) max_output = valid_counts max_output u.input u.output u.total

abbrev pub max_model_text : ℕ
max_model_text = 32768

-- The variables of the loop; `event` holds the data lines of the current event.
pub record StreamState : Type 0 where
  pub text_read : Text
  pub event : Text
  pub usage : Option ChatUsage
  pub finished : Bool
  pub done : Bool

abbrev pub stream_start : StreamState
stream_start = record { text_read = []; event = []; usage = none; finished = false; done = false }

abbrev bad_stream : String → Error
bad_stream problem = Error.fault (text problem)

unfoldable pub accepted_finish : Text → Bool
accepted_finish s = same s (text "stop") || same s (text "length")

-- The one choice of a chunk.
unfoldable pub take_choice : Choice → StreamState → Result StreamState
unfolding accepted_finish present
take_choice choice s = do
  fail_if
      (not (eq_int choice.index (pos 0))
        || (present choice.delta.tool_calls || (present choice.delta.function_call || s.finished)))
      (bad_stream "unsupported stream delta")
  let said = record s {
    text_read = s.text_read ++ elim (choice.delta.content) [ none ↦ [] | some t ↦ t ];
  }
  elim (choice.finish) [
    | none ↦ ok said
    | some reason ↦
        if accepted_finish reason
        then ok (record said { finished = true })
        else err (bad_stream "unsupported stream finish")
  ]

unfoldable pub take_usage : Option ChatUsage → StreamState → Result StreamState
take_usage none s = ok s
take_usage (some u) s = elim (s.usage) [
  | none ↦ ok (record s { usage = some u })
  | some _ ↦ err (bad_stream "duplicate stream usage")
]

unfoldable pub take_choices : List Choice → StreamState → Result StreamState
unfolding take_choice
take_choices [] s = ok s
take_choices (choice ∷ []) s = take_choice choice s
take_choices (_ ∷ _ ∷ _) s = err (bad_stream "invalid stream choice")

unfoldable pub take_reply : ChatReply → StreamState → Result StreamState
unfolding take_choices take_usage present
take_reply reply s = do
  fail_if (present reply.error || ltb 1 (length reply.choices)) (bad_stream "invalid stream choice")
  counted ← take_usage reply.usage s
  said ← take_choices reply.choices counted
  fail_if (ltb max_model_text (length said.text_read)) (bad_stream "stream output too large")
  ok said

-- The data of the event, without its last newline.
abbrev pub event_data : Text → Text
event_data [] = []
event_data (c ∷ []) = if same (c ∷ []) (10 ∷ []) then [] else c ∷ []
event_data (c ∷ d ∷ s) = c ∷ event_data (d ∷ s)

-- `consume`, at a blank line.
unfoldable pub consume : ReplyCodec → StreamState → Result StreamState
unfolding take_reply decode_provider
consume codec before =
    let data_text = event_data before.event in
    let s = record before { event = [] } in
    if same data_text []
    then ok s
    else if same data_text (text "[DONE]")
    then ok (record s { done = true })
    else if s.done
    then err (bad_stream "data after stream completion")
    else (decode_provider codec codec.decode data_text >>= λ reply. take_reply reply s)

strip : Text → Text → Text
strip [] s = s
strip (p ∷ ps) [] = []
strip (p ∷ ps) (_ ∷ s) = strip ps s

-- strings.TrimPrefix
unfoldable pub trim_prefix : Text → Text → Text
unfolding strip
trim_prefix s prefix = if has_prefix s prefix then strip prefix s else s

-- One line that is not blank.
unfoldable pub take_line : Text → StreamState → Result StreamState
unfolding trim_prefix
take_line line s =
    if has_prefix line (text "data:")
    then (let event =
          s.event ++ (trim_prefix (trim_prefix line (text "data:")) (text " ") ++ 10 ∷ []) in
        fail_if (ltb max_frame (length event)) (bad_stream "SSE event too large")
        >> ok (record s { event = event }))
    else ok s

-- The loop over the lines of bufio.Scanner, up to the end of the stream.
unfoldable pub read_lines : ReplyCodec → List Text → StreamState → Result StreamState
unfolding consume take_line
read_lines codec [] s = ok s
read_lines codec ([] ∷ lines) s =
    consume codec s >>= λ t. let rest = read_lines codec lines t in if t.done then ok t else rest
read_lines codec ((c ∷ line) ∷ lines) s = take_line (c ∷ line) s >>= read_lines codec lines

-- After the loop. `scan_error` is the error of the scanner, if it stopped with one, and `oversized`
-- whether it has read more than 1 MiB.
unfoldable pub finish_stream : Option Error → Bool → StreamState → Result (Text × Option ChatUsage)
finish_stream (some e) oversized s = err e
finish_stream none oversized s =
    if not s.done || (not s.finished || oversized)
    then err (bad_stream "incomplete or oversized provider stream")
    else ok (s.text_read, s.usage)

-- readChatStream. The error that the scanner ends with and whether the reader's limit was passed are
-- arguments beside the lines.
unfoldable pub read_chat_stream :
    ReplyCodec → List Text → Option Error → Bool → Result (Text × Option ChatUsage)
unfolding read_lines finish_stream
read_chat_stream codec lines scan_error oversized =
    read_lines codec lines stream_start >>= finish_stream scan_error oversized
