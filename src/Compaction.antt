-- ===== src/Compaction.antt =====
-- server/dvadva-agent/src/soul/compaction.rs: which messages a compaction keeps, and what it asks
-- the model to compact (`SimpleCompaction::prepare`). `prompt` is prompts::COMPACT, a text file.
pub mod Kept
pub mod Compact
pub mod Shrunk
use rusty_kimi.Common.{
  ℕ, suc, ◌+◌, ◌||◌, Bool, true, false, List, [], ◌∷◌, ◌++◌, Option, none, some, length, take, drop,
  select, ◌==◌, if◌then◌else◌,
}
use rusty_kimi.Message.{
  Text, ContentPart, text, think, Message, Role, system, user, assistant, tool, new as new_message,
}
use rusty_kimi.Context.{digits}

-- `to_preserve`, after the message that asks for the compaction, if there is one.
pub record PrepareResult (J : Type 0) : Type 0 where
  pub compact_message : Option (Message J)
  pub to_preserve : List (Message J)

unfoldable pub speaks : Role → Bool
speaks user = true
speaks assistant = true
speaks system = false
speaks tool = false

unfoldable pub is_think : ContentPart → Bool
is_think (think t sealed) = true
is_think _ = false

unfoldable pub spoken : ContentPart → Bool
unfolding is_think
spoken part = if is_think part then false else true

-- "system", "user", "assistant", "tool".
unfoldable pub role_label : Role → Text
role_label system = 115 ∷ 121 ∷ 115 ∷ 116 ∷ 101 ∷ 109 ∷ []
role_label user = 117 ∷ 115 ∷ 101 ∷ 114 ∷ []
role_label assistant = 97 ∷ 115 ∷ 115 ∷ 105 ∷ 115 ∷ 116 ∷ 97 ∷ 110 ∷ 116 ∷ []
role_label tool = 116 ∷ 111 ∷ 111 ∷ 108 ∷ []

-- "## Message {}\nRole: {}\nContent:\n".
unfoldable pub heading : ℕ → Role → Text
unfolding digits role_label
heading n role =
    (35 ∷ 35 ∷ 32 ∷ 77 ∷ 101 ∷ 115 ∷ 115 ∷ 97 ∷ 103 ∷ 101 ∷ 32 ∷ [])
    ++ (digits (n + 1) n
        ++ ((10 ∷ 82 ∷ 111 ∷ 108 ∷ 101 ∷ 58 ∷ 32 ∷ [])
            ++ (role_label role ++ (10 ∷ 67 ∷ 111 ∷ 110 ∷ 116 ∷ 101 ∷ 110 ∷ 116 ∷ 58 ∷ 10 ∷ []))))

module _ {J : Type 0} where
  abbrev pub backwards : List (Message J) → List (Message J)
  backwards [] = []
  backwards (m ∷ ms) = backwards ms ++ m ∷ []

  -- The loop, over the messages from the last on; the index of a message is the number of those
  -- before it. `none`: there are too few.
  unfoldable pub find_start : ℕ → ℕ → List (Message J) → Option ℕ
  unfolding speaks
  find_start most preserved [] = none
  find_start most preserved (m ∷ before) =
      let counted = find_start most (preserved + 1) before in
      let passed = find_start most preserved before in
      if speaks m.role
      then if (preserved + 1) == most then some (length before) else counted
      else passed

  -- The content of the request: each message under its heading, without its thoughts.
  unfoldable pub listed : ℕ → List (Message J) → List ContentPart
  unfolding heading spoken
  listed n [] = []
  listed n (m ∷ ms) = text (heading n m.role) ∷ (select spoken m.content ++ listed (n + 1) ms)

  unfoldable pub ask : Text → List (Message J) → List (Message J) → PrepareResult J
  unfolding listed new_message
  ask prompt [] keep = record { compact_message = none; to_preserve = keep }
  ask prompt (m ∷ ms) keep = record {
    compact_message = some (new_message user (listed 1 (m ∷ ms) ++ text (10 ∷ prompt) ∷ []));
    to_preserve = keep;
  }

  unfoldable pub prepare_from : Text → List (Message J) → Option ℕ → PrepareResult J
  unfolding ask
  prepare_from prompt messages none = record { compact_message = none; to_preserve = messages }
  prepare_from prompt messages (some start) = ask prompt (take start messages) (drop start messages)

  abbrev pub is_empty : List (Message J) → Bool
  is_empty [] = true
  is_empty (_ ∷ _) = false

  unfoldable pub prepare : ℕ → Text → List (Message J) → PrepareResult J
  unfolding prepare_from find_start
  prepare max_preserved_messages prompt messages =
      if is_empty messages || (max_preserved_messages == 0)
      then record { compact_message = none; to_preserve = messages }
      else prepare_from prompt messages (find_start max_preserved_messages 0 (backwards messages))
