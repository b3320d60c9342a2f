-- ===== src/Provider/Stream.antt =====
-- A stream as a provider sends it, read by provider/chat.go.
use microoperator.Base.{
  ◌+◌, ◌≤◌, pos, Bool, false, List, [], ◌∷◌, ◌++◌, Text, text, same, length, if◌then◌else◌, Result,
  ok, Option, none, some, ◌≡◌,
}
use microoperator.Protocol.Frames.{max_frame}
use microoperator.Provider.Chat.{
  ChatUsage, ChatContent, ChatReply, ReplyCodec, decode_provider, StreamState, read_lines,
}

abbrev no_content : ChatContent
no_content = record { content = none; tool_calls = []; function_call = [] }

-- A chunk with a part of the text.
abbrev pub text_chunk : Text → ChatReply
text_chunk part = record {
  choices =
      record {
        index = pos 0;
        message = no_content;
        delta = record { content = some part; tool_calls = []; function_call = [] };
        finish = none;
      }
      ∷ [];
  usage = none;
  error = [];
}

-- The chunk that ends the text, and the one of the usage.
abbrev pub stop_chunk : ChatReply
stop_chunk = record {
  choices =
      record {
        index = pos 0;
        message = no_content;
        delta = no_content;
        finish = some (text "stop");
      }
      ∷ [];
  usage = none;
  error = [];
}

abbrev pub usage_chunk : ChatUsage → ChatReply
usage_chunk u = record { choices = []; usage = some u; error = [] }

-- The lines of an event with this data.
abbrev pub event_lines : Text → List Text → List Text
event_lines payload rest = (text "data: " ++ payload) ∷ [] ∷ rest

abbrev pub sent_lines : (ChatReply → Text) → List ChatReply → List Text
sent_lines encode [] = event_lines (text "[DONE]") []
sent_lines encode (r ∷ rs) = event_lines (encode r) (sent_lines encode rs)

abbrev pub chunks : List Text → ChatUsage → List ChatReply
chunks [] u = stop_chunk ∷ usage_chunk u ∷ []
chunks (part ∷ parts) u = text_chunk part ∷ chunks parts u

abbrev pub joined : List Text → Text
joined [] = []
joined (part ∷ parts) = part ++ joined parts

-- A payload is sent as one line of an event that is not too large, and is decoded as the reply.
abbrev pub Sent : ReplyCodec → (ChatReply → Text) → ChatReply → Type 0
Sent codec encode r =
    (decode_provider codec codec.decode (encode r) ≡ ok r)
    × (same (encode r) [] ≡ false)
    × (same (encode r) (text "[DONE]") ≡ false)
    × (length (encode r) + 1 ≤ max_frame)

abbrev reading : Text → Bool → Option ChatUsage → StreamState
reading said finished u = record {
  text_read = said;
  event = [];
  usage = u;
  finished = finished;
  done = false;
}

abbrev with_event : StreamState → Text → StreamState
with_event s payload = record s { event = payload ++ 10 ∷ [] }

abbrev onward : ReplyCodec → List Text → StreamState → Result StreamState
onward codec rest t = if t.done then ok t else read_lines codec rest t
