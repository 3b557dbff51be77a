-- ===== src/Compaction/Compact.antt =====
-- server/dvadva-agent/src/soul/compaction.rs: `SimpleCompaction::compact`. `step` stands for the
-- call of the model by kosong::step: the content of its answer, or an error of type `E`.
use rusty_kimi.Common.{ℕ, Option, none, some, List, ◌∷◌, ◌++◌, select}
use rusty_kimi.Common.Chars.{codes}
use rusty_kimi.Message.{Text, ContentPart, text, Message, user, new as new_message}
use rusty_kimi.Compaction.{spoken, prepare}

pub data Answer (E : Type 0) : Type 0 where
  answered : List ContentPart → Answer E
  refused : E → Answer E

pub data Compacted (J E : Type 0) : Type 0 where
  compacted : List (Message J) → Compacted J E
  failed : E → Compacted J E

-- `system`, of server/dvadva-agent/src/soul/message.rs.
unfoldable pub system_text : Text → ContentPart
system_text message = text (codes "<system>" ++ (message ++ codes "</system>"))

-- The message that stands for what was compacted: the answer without its thoughts.
unfoldable pub summary : {J : Type 0} → List ContentPart → Message J
unfolding system_text spoken new_message
summary content = new_message user (
    system_text (codes "Previous context has been compacted. Here is the compaction output:")
    ∷ select spoken content)

module _ {J E : Type 0} where
  unfoldable pub with_answer : Answer E → List (Message J) → Compacted J E
  unfolding summary
  with_answer (answered content) keep = compacted (summary content ∷ keep)
  with_answer (refused e) keep = failed e

  module _ (step : Message J → Answer E) where
    unfoldable pub compact_from : Option (Message J) → List (Message J) → Compacted J E
    unfolding with_answer
    compact_from none keep = compacted keep
    compact_from (some m) keep = with_answer (step m) keep

    unfoldable pub compact : ℕ → Text → List (Message J) → Compacted J E
    unfolding compact_from prepare
    compact max_preserved_messages prompt messages =
        let prepared = prepare max_preserved_messages prompt messages in
        compact_from prepared.compact_message prepared.to_preserve
