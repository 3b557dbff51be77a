-- ===== src/Tests/Conversations.antt =====
-- A conversation recorded, reverted and restored. Lines stand for what parsing them gives.
use rusty_kimi.Common.{◌≡◌, ◌≢◌, refl, true, false, List, [], ◌∷◌, none, some, String, All}
use rusty_kimi.Common.Int.{pos}
use rusty_kimi.Message.{Message, user, assistant, text}
use rusty_kimi.Context.{
  Codec, Parsed, usage, marker, message, new, lines, restore, checkpoint, revert_to,
  checkpoint_text, append_messages, update_token_count,
}
use rusty_kimi.Context.Revert.{Op, appends, checkpoints, counts, run, ReadableOp, run-restore}
use rusty_kimi.Context.Checkpoints.{checkpoint-revert_to}

abbrev pub parsed_lines : Codec String
parsed_lines = record {
  L = Parsed String;
  blank = λ l. false;
  parse = λ l. l;
  usage_line = λ n. usage (some n);
  marker_line = λ n. marker (some n);
  message_line = λ m. message m;
  parse-usage_line = λ n. refl;
  parse-marker_line = λ n. refl;
  blank-usage_line = λ n. refl;
  blank-marker_line = λ n. refl;
  blank-message_line = λ m. refl;
}

abbrev pub question : Message String
question = record {
  role = user;
  content = text (63 ∷ []) ∷ [];
  name = none;
  tool_calls = none;
  tool_call_id = none;
  partial = none;
}

abbrev answer : Message String
answer = record question { role = assistant }

abbrev first_turn : List (Op String)
first_turn = checkpoints false ∷ appends (question ∷ answer ∷ []) ∷ counts (pos 120) ∷ []

abbrev second_turn : List (Op String)
second_turn = appends (question ∷ []) ∷ checkpoints true ∷ counts (pos 200) ∷ []

first_turn-Readable : All (ReadableOp parsed_lines) first_turn
first_turn-Readable = ((λ id. refl), ((refl, (refl, tt)), (tt, tt)))

-- The number ten has two digits.
ten_printed :
    checkpoint_text 10
    ≡ 60 ∷ 115 ∷ 121 ∷ 115 ∷ 116 ∷ 101 ∷ 109 ∷ 62 ∷ 67 ∷ 72 ∷ 69 ∷ 67 ∷ 75 ∷ 80 ∷ 79 ∷ 73 ∷ 78 ∷ 84
      ∷ 32 ∷ 49 ∷ 48 ∷ 60 ∷ 47 ∷ 115 ∷ 121 ∷ 115 ∷ 116 ∷ 101 ∷ 109 ∷ 62 ∷ []
unfolding checkpoint_text
ten_printed = refl

first_turn_history :
    (run parsed_lines first_turn (new parsed_lines none)).loaded.history ≡ question ∷ answer ∷ []
unfolding run new checkpoint append_messages update_token_count
first_turn_history = refl

run-restore_example :
    let k = run parsed_lines first_turn (new parsed_lines none) in
    ((restore parsed_lines (new parsed_lines k.file)).0 ≡ k)
    × ((restore parsed_lines (new parsed_lines k.file)).1 ≢ none)
run-restore_example = run-restore parsed_lines first_turn first_turn-Readable

checkpoint-revert_to_example :
    let k = run parsed_lines first_turn (new parsed_lines none) in
    let k' = run parsed_lines second_turn (checkpoint parsed_lines true true k).0 in
    revert_to parsed_lines true k.loaded.next_checkpoint_id k'
    ≡ (record { file = some (lines parsed_lines k.file); loaded = k.loaded }, true)
checkpoint-revert_to_example =
    checkpoint-revert_to parsed_lines first_turn second_turn true first_turn-Readable
      (tt, (tt, (tt, tt)))
