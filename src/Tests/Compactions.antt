-- ===== src/Tests/Compactions.antt =====
-- A conversation of four messages of which two turns are kept.
use rusty_kimi.Common.{ℕ, ◌≡◌, refl, String, List, [], ◌∷◌, none, arith}
use rusty_kimi.Message.{Message, Role, user, assistant, tool, text, think}
use rusty_kimi.Compaction.{prepare}
use rusty_kimi.Compaction.Compact.{Answer, answered, compacted, summary, compact}
use rusty_kimi.Compaction.Shrunk.{Outcome, compact-Outcome}
use rusty_kimi.Compaction.Kept.{Prepared, prepare-Prepared}

abbrev said : Role → ℕ → Message String
said role c = record {
  role = role;
  content = text (c ∷ []) ∷ [];
  name = none;
  tool_calls = none;
  tool_call_id = none;
  partial = none;
}

abbrev conversation : List (Message String)
conversation = said user 97 ∷ said assistant 98 ∷ said tool 99 ∷ said assistant 100 ∷ []

two_turns_kept :
    (prepare 2 [] conversation).to_preserve
    ≡ said assistant 98 ∷ said tool 99 ∷ said assistant 100 ∷ []
unfolding prepare
two_turns_kept = refl

prepare-Prepared_example :
    (old : List (Message String)) × Prepared 2 [] conversation old (prepare 2 [] conversation)
prepare-Prepared_example = prepare-Prepared 2 [] conversation (omega arith)

-- A model that answers with a thought and a word.
abbrev model : Message String → Answer String
model m = answered (think (116 ∷ []) none ∷ text (120 ∷ []) ∷ [])

compact-Outcome_example : Outcome model 2 [] conversation (compact model 2 [] conversation)
compact-Outcome_example = compact-Outcome model 2 [] conversation (omega arith)

-- The summary and what was kept.
summarised :
    compact model 2 [] conversation
    ≡ compacted (
        summary (text (120 ∷ []) ∷ []) ∷ said assistant 98 ∷ said tool 99 ∷ said assistant 100 ∷ [])
unfolding compact prepare summary
summarised = refl
