-- ===== src/Examples/Commands.antt =====
-- The witness of the repetition of a command.
use microoperator.Base.{
  ◌≡◌, refl, pos, [], ◌∷◌, ◌++◌, Result, ok, err, Error, text, same, if◌then◌else◌,
}
use microoperator.Store.{Db, SystemState}
use microoperator.Examples.{sample_db, sample_system, constant_digests}
use microoperator.Access.Inspect.{System}
use microoperator.Commands.{Journal, is_receipt, replay, new_receipt, command}
use microoperator.Commands.Replay.{command-replays}

abbrev sample_record : System
sample_record = record {
  system_row = record {
    system_id = text "a";
    owner = text "u";
    operator_id = text "b";
    state = SystemState.inactive;
    revision = pos 1;
    used_tokens = pos 0;
    reserved_tokens = pos 0;
    last_admission = 0;
  };
  configuration = sample_system;
  grants = record {
    model = text "m";
    sandbox_profile = text "s";
    system_tools = [];
    operator_tools = [];
    definitions_digest = text "d";
  };
  local_tools = [];
  remaining_tokens = pos 0;
  blocked_reason = [];
}

abbrev first_run : Db → Result (Db × System)
first_run db = ok (db, sample_record)

abbrev never_run : Db → Result (Db × System)
never_run db = err Error.no_rows

abbrev empty_journal : Journal
empty_journal = record { db = sample_db; receipts = [] }

command_run :
    (after : Journal) × (command constant_digests
        (text "u")
        (text "k")
        (text "h")
        first_run
        empty_journal
      ≡ ok (after, sample_record))
unfolding command is_receipt same text
command_run = (_, refl)

-- A later journal, with a receipt of another command.
later_journal : Journal
later_journal = record {
  db = sample_db;
  receipts =
      Journal.receipts command_run.0
      ++ new_receipt (text "u") (text "l") (text "h") sample_record ∷ [];
}

later_receipts :
    Journal.receipts later_journal
    ≡ Journal.receipts command_run.0
      ++ new_receipt (text "u") (text "l") (text "h") sample_record ∷ []
unfolding later_journal
later_receipts = refl

command-replays_example :
    command constant_digests (text "u") (text "k") (text "h") never_run later_journal ≡ (
      if same (text "h") (text "h")
      then replay constant_digests later_journal sample_record
      else err Error.command_conflict)
command-replays_example =
    command-replays constant_digests (text "u") (text "k") (text "h") first_run empty_journal
      command_run.1 later_journal (new_receipt (text "u") (text "l") (text "h") sample_record ∷ [])
      later_receipts (text "h") never_run
