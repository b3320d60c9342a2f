-- ===== src/Examples/Turns.antt =====
-- The witnesses of the dialogue of a turn, and of the scan of JSON.
use microoperator.Base.{
  true, false, [], Text, text, same, leb, Result, ok, err, Error, ◌≡◌, refl, pos, ◌&&◌,
}
use microoperator.Protocol.Json.{
  Json, str, raw, arr, obj, nil, cons, end, member, tokens, scan_json,
}
use microoperator.Protocol.Accepts.{scan_json-tokens}
use microoperator.Base.{valid_utf8}
use microoperator.Base.{◌↔◌}
use microoperator.Store.{CallState, ModelToolCall}
use microoperator.Access.Read.{Execution}
use microoperator.Worker.Operator.{operator}
use microoperator.Daemon.Activation.{ActionCodec, activation, call_completed}
use microoperator.Daemon.Dialogue.{
  Agree, turn_succeeds, turn_messages, later_messages, activation-Agree,
}
use microoperator.Examples.{sample_call}
use microoperator.Protocol.Json.{nesting, unambiguous}
use microoperator.Daemon.Session.{session}
use microoperator.Examples.Wire.{letter_wire, letter_wire-Faithful, message_text}
use microoperator.Protocol.Frames.{check_frame}

abbrev completed_call : Execution
completed_call = record {
  call = record sample_call { state = CallState.completed; response = text "hi" };
  prompt = text "hello";
  goal_budget = pos 9;
  goal_used = pos 1;
  goal_reserved = pos 0;
  continuous = false;
  event_id = [];
  learning_id = [];
}

abbrev no_tool : ModelToolCall → Result Text
no_tool action = err Error.no_rows

abbrev no_codec : ActionCodec
no_codec = record { encode = λ a. a.id; decode = λ s. err Error.no_rows; hash = λ s. s }

activation-Agree_example : Agree true (
    session letter_wire
      (operator letter_wire)
      (activation letter_wire no_codec (text "c") (text "hello") (ok completed_call) no_tool))
unfolding turn_succeeds call_completed turn_messages later_messages same text check_frame
    message_text valid_utf8
activation-Agree_example =
    activation-Agree letter_wire letter_wire-Faithful no_codec (text "c") (text "hello")
      completed_call no_tool refl refl tt
      (
        (refl, refl, (refl, refl, refl)),
        (
          (refl, refl, (refl, refl, refl)),
          (
            (refl, refl, (refl, refl, refl)),
            ((refl, refl, (refl, refl, refl)), ((refl, refl, (refl, refl, refl)), tt)),
          ),
        ),
      )

-- {"a":[1,"x"]}
abbrev sample_json : Json
sample_json = obj (member (text "a") (arr (cons (raw (text "1")) (cons (str (text "x")) nil))) end)

scan_json-tokens_example :
    (scan_json (λ s. s) (tokens sample_json) ≡ ok tt)
    ↔ ((leb (nesting sample_json) 32 && unambiguous (λ s. s) sample_json) ≡ true)
scan_json-tokens_example = scan_json-tokens (λ s. s) sample_json
