-- ===== src/Examples/Providers.antt =====
-- The witnesses of the reading of a provider's answer: a stream of one part, and a tool call whose
-- arguments hold the credential.
use microoperator.Base.{
  pos, true, false, List, [], ◌∷◌, Text, text, same, ok, err, Error, Option, none, some, ◌≡◌, refl,
  All, length, valid_utf8, if◌then◌else◌, has_prefix,
}
use microoperator.Store.{ModelToolCall}
use microoperator.Protocol.Json.{
  scalar, str, obj, end, member, scan_json, scan_value, judge, decode_json,
}
use microoperator.Provider.Chat.{ChatUsage, ChatReply, Choice, ReplyCodec, decode_provider}
use microoperator.Provider.Stream.{text_chunk, stop_chunk, usage_chunk}
use microoperator.Provider.Redact.{occurs}
use microoperator.Provider.Request.{
  RequestCodec, Exchange, answered, alive, request, read_response, read_reply, read_choices,
  read_choice, tool_completion, check_actions, check_action, check_selected, complete,
}
use microoperator.Provider.Request.{
  read_response, read_reply, read_choices, read_choice, tool_completion, check_actions,
  check_action, check_selected, complete,
}
use microoperator.Protocol.Json.{decode_json, scan_json, scan_value, judge}
use microoperator.Provider.Chat.{present, valid_usage}
use microoperator.Base.{◌+ℤ◌}
use microoperator.Provider.Redact.{redacted}
use microoperator.Protocol.Frames.{check_frame}
use microoperator.Provider.Bounds.{IsBounded, request-IsBounded}
use microoperator.Provider.Secrets.{ActionIsClean, request-IsClean}

abbrev sample_usage : ChatUsage
sample_usage = record { input = some (pos 3); output = some (pos 2); total = some (pos 5) }

abbrev finish_letter : Option Text → Text
finish_letter none = text "t"
finish_letter (some _) = text "s"

abbrev choice_letter : List Choice → Text
choice_letter [] = text "u"
choice_letter (c ∷ _) = finish_letter c.finish

abbrev reply_letter : ChatReply → Text
reply_letter r = choice_letter r.choices

abbrev letter_reply : Text → Option ChatReply
letter_reply s =
    if same s (text "t")
    then some (text_chunk (text "Hi"))
    else if same s (text "s")
    then some stop_chunk
    else some (usage_chunk sample_usage)

abbrev letters : ReplyCodec
letters = record { lower = λ s. s; lex = λ s. scalar s ∷ []; decode = letter_reply }

abbrev secret_call : ModelToolCall
secret_call = record {
  id = text "c1";
  type = text "function";
  name = text "f";
  arguments = text "{}";
}

abbrev call_reply : ChatReply
call_reply = record {
  choices =
      record {
        index = pos 0;
        message = record { content = none; tool_calls = text "c"; function_call = [] };
        delta = record { content = none; tool_calls = []; function_call = [] };
        finish = some (text "tool_calls");
      }
      ∷ [];
  usage = some sample_usage;
  error = [];
}

-- The value that the arguments are decoded as holds the credential "sk-1".
abbrev call_codec : RequestCodec
call_codec = record {
  reply = record { lower = λ s. s; lex = λ s. scalar s ∷ []; decode = λ s. some call_reply };
  wire = record {
    lower = λ s. s;
    lex = λ s. scalar s ∷ [];
    decode = λ s. err Error.no_rows;
    encode = λ m. m.type;
  };
  calls = λ s. some (secret_call ∷ []);
  functions = λ s. some (
      record {
        name = text "f";
        parameters = record {
          required = [];
          properties =
              record {
                name = text "a";
                type = text "string";
                max_length = 0;
                minimum = none;
                enum = [];
              }
              ∷ [];
        };
      }
      ∷ []);
  parse = λ s. ok (obj (member (text "a") (str (text "x sk-1")) end));
  print = λ v. text "{}";
  integer = λ s. none;
  decimal = λ n. [];
}

abbrev call_exchange : Exchange
call_exchange = answered (record {
  status = 200;
  seconds = none;
  date = none;
  body = some (text "r");
  lines = [];
  scan_error = none;
  oversized = false;
})

request-IsBounded_example :
    IsBounded
      (pos 8)
      (request call_codec (pos 8) [] false (text "sk-1") (pos 0) 1 0 alive call_exchange)
request-IsBounded_example =
    request-IsBounded 8 call_codec [] false (text "sk-1") (pos 0) 1 0 alive call_exchange

request-IsClean_example :
    let p = request call_codec (pos 8) [] false (text "sk-1") (pos 0) 1 0 alive call_exchange in
    (occurs (text "sk-1") p.text ≡ false) × All (ActionIsClean call_codec (text "sk-1")) p.actions
unfolding occurs text same has_prefix
request-IsClean_example =
    request-IsClean call_codec (text "sk-1") (refl, refl) (pos 8) [] false (pos 0) 1 0 alive
      call_exchange

-- The tool call is reported.
call_reported :
    let p = request call_codec (pos 8) [] false (text "sk-1") (pos 0) 1 0 alive call_exchange in
    (p.known ≡ true) × (length p.actions ≡ 1)
unfolding request read_response read_reply read_choices read_choice tool_completion check_actions
    check_action check_selected decode_json decode_provider scan_json scan_value judge complete text
    valid_utf8 present same occurs has_prefix valid_usage ◌+ℤ◌ redacted check_frame
call_reported = (refl, refl)
