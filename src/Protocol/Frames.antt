-- ===== src/Protocol/Frames.antt =====
-- protocol/message.go and auth.go, and the two ends of a pipe that carries frames.
use microoperator.Base.{
  ℕ, ◌+◌, Bool, false, ◌&&◌, List, [], Text, text, same, length, ltb, leb, Result, ok, err, ◌>>=◌,
  ◌>>◌, fail_if, Error, Option, none, some, all, between, runes, ◌≡◌, refl, true, same_refl,
}
use microoperator.Protocol.Json.{Token, decode_json}

abbrev pub max_frame : ℕ
max_frame = 65536

-- `content` is the field Data.
pub record Message : Type 0 where
  pub type : Text
  pub content : Text
  pub id : Text

abbrev pub message : Text → Text → Text → Message
message type id content = record { type = type; content = content; id = id }

unfoldable pub same_message : Message → Message → Bool
same_message a b = same a.type b.type && (same a.content b.content && same a.id b.id)

-- encoding/json for messages: the tokens and the decoding of a text, and the text of a message;
-- `lower` is strings.ToLower.
pub record Wire : Type 0 where
  pub lower : Text → Text
  pub lex : Text → List Token
  pub decode : Text → Result Message
  pub encode : Message → Text

-- ReadMessage, on a frame with its newline.
unfoldable pub read_message : Wire → Text → Result Message
read_message wire frame = do
  fail_if (ltb max_frame (length frame)) (Error.fault (text "JSON frame exceeds size limit"))
  m ← decode_json wire.lower wire.lex wire.decode frame
  fail_if (same m.type []) (Error.fault (text "JSON frame requires a type"))
  ok m

-- WriteMessage: the frame, of one byte more than the text.
unfoldable pub check_frame : Wire → Message → Result (Unit {0})
check_frame wire m =
    fail_if (ltb max_frame (length (wire.encode m) + 1))
      (Error.fault (text "JSON frame exceeds size limit"))

is_token_rune : Option ℕ → Bool
is_token_rune none = false
is_token_rune (some r) = between 33 126 r

-- ValidAPIToken (protocol/auth.go)
unfoldable pub valid_api_token : Text → Bool
unfolding is_token_rune
valid_api_token token =
    leb 32 (length token) && (leb (length token) 256 && all is_token_rune (runes token))

-- One end of a pipe: it sends, reads what arrives or why nothing did, and ends with its result.
pub data Process : Type 0 where
  finish : Result (Unit {0}) → Process
  send : Message → Process → Process
  receive : (Result Message → Process) → Process

-- A write that fails ends the process.
unfoldable pub write : Wire → Message → Process → Process
write wire m next = elim (check_frame wire m) [ ok _ ↦ send m next | err e ↦ finish (err e) ]

-- A read that fails ends it too.
unfoldable pub taken : (Message → Process) → Result Message → Process
taken next (ok m) = next m
taken next (err e) = finish (err e)

unfoldable pub read : (Message → Process) → Process
unfolding taken
read next = receive (taken next)

unfoldable pub stop : Text → Process
stop problem = finish (err (Error.fault problem))

pub write-fits :
    (wire : Wire) (m : Message) (p : Process)
    → check_frame wire m ≡ ok tt
    → write wire m p ≡ send m p
unfolding write
write-fits wire m p fits = rw (fits, write) refl

pub same_message_refl : (m : Message) → same_message m m ≡ true
unfolding same_message
same_message_refl m = rw (same_refl m.type, same_refl m.content, same_refl m.id) refl
