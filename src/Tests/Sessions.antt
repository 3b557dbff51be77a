-- ===== src/Tests/Sessions.antt =====
-- A short session with a subagent, as a client folds it.
use rusty_kimi.Common.{◌≡◌, refl, String, false, List, [], ◌∷◌, ◌++◌, none, some}
use rusty_kimi.Common.Eq.{string_eq}
use rusty_kimi.Common.Chars.{codes, trim}
use rusty_kimi.Message.{text, think, ToolCall}
use rusty_kimi.Message.Atoms.{concat_atoms}
use rusty_kimi.Wire.{
  WireMessage, plain, turn_begin, turn_end, step_interrupted, content_part, tool_call,
  tool_call_part, subagent_event,
}
use rusty_kimi.Transcript.{
  user, assistant, default, blocks_of, any_live, user_input_text, apply_content_part,
}
use rusty_kimi.Transcript.Titles.{Json, clip_title}
use rusty_kimi.Transcript.Events.{apply_event, replay}
use rusty_kimi.Transcript.Live.{ended-any_live}
use rusty_kimi.Transcript.Words.{tells}
use rusty_kimi.Transcript.Spoken.{said, replay-said}
use rusty_kimi.Transcript.Nested.{subagents_of, subagent_of, events_for, alone, replay-alone}

-- No arguments are read as JSON.
abbrev no_json : Json
no_json = record {
  Value = Unit;
  from_str = λ _. none;
  get_str = λ _ _. none;
  file_stem = λ _. none;
}

abbrev Msg : Type 0
Msg = WireMessage String String

abbrev task : ToolCall String
task = record { id = "call_1"; name = "Agent"; arguments = none; extras = none }

abbrev inside : Msg → Msg
inside m = subagent_event "call_1" m

abbrev session : List Msg
session =
    turn_begin (plain (codes "hello"))
    ∷ content_part (think (codes "hm") none)
    ∷ content_part (text (codes "I a"))
    ∷ content_part (text (codes "sk."))
    ∷ tool_call task
    ∷ tool_call_part (some (codes "{}"))
    ∷ inside (turn_begin (plain (codes "look")))
    ∷ content_part (text (codes "Wait"))
    ∷ inside (content_part (text (codes "done")))
    ∷ inside turn_end
    ∷ turn_end
    ∷ []

title_clipped : clip_title (codes " a task\nmore") ≡ some (codes "a task")
unfolding clip_title trim
title_clipped = refl

-- The fragments of the text are one block, after the thought, which are two with the user's.
session-blocks_of :
    blocks_of String String (
      replay String String no_json
        (turn_begin (plain (codes "hi"))
          ∷ content_part (text (codes "I a"))
          ∷ content_part (text (codes "sk."))
          ∷ [])
        (default String String))
    ≡ user (codes "hi") false ∷ assistant (codes "I ask.") ∷ []
unfolding apply_event user_input_text apply_content_part
session-blocks_of = refl

ended-any_live_example :
    any_live String String (
      blocks_of String String (
        replay String String no_json
          (step_interrupted ∷ turn_begin (plain (codes "again")) ∷ [])
          (replay String String no_json session (default String String))))
    ≡ false
ended-any_live_example =
    ended-any_live String String no_json step_interrupted (turn_begin (plain (codes "again")) ∷ [])
      (replay String String no_json session (default String String)) refl (refl, tt)

replay-said_example :
    said String String no_json
      (blocks_of String String (replay String String no_json session (default String String)))
    ≡ said String String no_json (blocks_of String String (default String String))
      ++ concat_atoms (tells String String) session
replay-said_example = replay-said String String no_json session (default String String)

replay-alone_example :
    subagent_of String String no_json "call_1" (
      subagents_of String String no_json
        (replay String String no_json session (default String String)))
    ≡ alone String String no_json (events_for String String no_json "call_1" session)
replay-alone_example = replay-alone String String no_json "call_1" session
