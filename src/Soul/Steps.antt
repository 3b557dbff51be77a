-- ===== src/Soul/Steps.antt =====
-- server/kosong/src/lib.rs: one answer of the model with the tools that it calls run
-- (`step`, `StepResult`). A provider is what it streams, as in Generate; `handle` stands for the
-- toolset, `none` for a tool whose result never comes.
use rusty_kimi.Common.{String, List, [], ◌∷◌, Option, none, some}
use rusty_kimi.Common.Int.{ℤ, ◌+ℤ◌}
use rusty_kimi.Common.Eq.{string_eq}
use rusty_kimi.Common.Dict.{Dict, lookup, insert, remove}
use rusty_kimi.Message.{Message, ToolCall}
use rusty_kimi.Tooling.{ToolReturnValue}
use rusty_kimi.Wire.{TokenUsage}
use rusty_kimi.Generate.{ErrorKind, State, Outcome, generated, error}

-- server/kosong/src/chat_provider/mod.rs.
unfoldable pub input : TokenUsage → ℤ
unfolding ◌+ℤ◌
input u = u.input_other +ℤ u.input_cache_read +ℤ u.input_cache_creation

unfoldable pub total : TokenUsage → ℤ
unfolding input ◌+ℤ◌
total u = input u +ℤ u.output

module _ (J : Type 0) where
  pub record ToolResult : Type 0 where
    pub tool_call_id : String
    pub return_value : ToolReturnValue J

  -- The receivers of the results by the calls' ids.
  pub record StepResult : Type 0 where
    pub id : Option String
    pub message : Message J
    pub usage : Option TokenUsage
    pub tool_calls : List (ToolCall J)
    pub receivers : Dict String (Option (ToolReturnValue J))

  -- `on_tool_call`, for each call in order.
  unfoldable pub dispatch :
      (ToolCall J → Option (ToolReturnValue J))
      → List (ToolCall J)
      → Dict String (Option (ToolReturnValue J))
      → Dict String (Option (ToolReturnValue J))
  unfolding insert
  dispatch handle [] receivers = receivers
  dispatch handle (c ∷ calls) receivers = dispatch handle calls (insert c.id (handle c) receivers)

  pub data Stepped : Type 0 where
    stepped : StepResult → Stepped
    refused : ErrorKind → Stepped

  unfoldable pub step_of :
      (ToolCall J → Option (ToolReturnValue J))
      → Option TokenUsage
      → Option String
      → Outcome J × State J
      → Stepped
  unfolding dispatch
  step_of handle usage id (generated m, s) = stepped (record {
    id = id;
    message = m;
    usage = usage;
    tool_calls = s.called;
    receivers = dispatch handle s.called [];
  })
  step_of handle usage id (error e, s) = refused e

  -- One call's result, of which the receiver is used up; the outer `none`: it never comes.
  abbrev pub received :
      String
      → Option (Option (ToolReturnValue J))
      → Option (List ToolResult)
      → Option (List ToolResult)
  received id none rest = rest
  received id (some none) rest = none
  received id (some (some value)) none = none
  received id (some (some value)) (some rest) =
      some (record { tool_call_id = id; return_value = value } ∷ rest)

  -- `StepResult::tool_results`: a call whose receiver is gone has no result.
  unfoldable pub tool_results :
      List (ToolCall J) → Dict String (Option (ToolReturnValue J)) → Option (List ToolResult)
  unfolding lookup remove
  tool_results [] receivers = some []
  tool_results (c ∷ calls) receivers =
      received c.id (lookup c.id receivers) (tool_results calls (remove c.id receivers))
