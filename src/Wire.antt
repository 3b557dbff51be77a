-- ===== src/Wire.antt =====
-- server/dvadva-agent/src/wire/types.rs: the messages of the Wire protocol.
-- `J` is the JSON value type and `F` the floating-point numbers, which the code modelled only copies.
pub mod Broadcast
pub mod Channel
use rusty_kimi.Common.{String, Bool, List, Option}
use rusty_kimi.Common.Int.{ℤ}
use rusty_kimi.Message.{Text, ContentPart, ToolCall}
use rusty_kimi.Tooling.{DisplayBlock, ToolReturnValue}

pub data UserInput : Type 0 where
  plain : Text → UserInput
  parts : List ContentPart → UserInput

pub record TokenUsage : Type 0 where
  pub input_other : ℤ
  pub output : ℤ
  pub input_cache_read : ℤ
  pub input_cache_creation : ℤ

pub record StatusUpdate (F : Type 0) : Type 0 where
  pub context_usage : Option F
  pub context_tokens : Option ℤ
  pub max_context_tokens : Option ℤ
  pub token_usage : Option TokenUsage
  pub message_id : Option String
  pub model : Option String
  pub yolo_enabled : Option Bool
  pub thinking : Option Bool

pub data ApprovalResponseKind : Type 0 where
  approve approve_for_session reject : ApprovalResponseKind

pub record ApprovalRequest (J : Type 0) : Type 0 where
  pub id : String
  pub tool_call_id : String
  pub sender : String
  pub action : String
  pub description : Text
  pub display : List (DisplayBlock J)

pub record Notification (J F : Type 0) : Type 0 where
  pub id : String
  pub category : String
  pub type_name : String
  pub source_kind : String
  pub source_id : String
  pub title : Text
  pub body : Text
  pub severity : String
  pub created_at : F
  pub payload : J

pub data WireMessage (J F : Type 0) : Type 0 where
  turn_begin : UserInput → WireMessage J F
  turn_end : WireMessage J F
  steer_input : UserInput → WireMessage J F
  step_begin : ℤ → WireMessage J F
  step_interrupted compaction_begin compaction_end : WireMessage J F
  status_update : StatusUpdate F → WireMessage J F
  content_part : ContentPart → WireMessage J F
  tool_call : ToolCall J → WireMessage J F
  tool_call_part : Option Text → WireMessage J F
  tool_result : (tool_call_id : String) → ToolReturnValue J → WireMessage J F
  approval_response : (request_id : String) → ApprovalResponseKind → WireMessage J F
  subagent_event : (task_tool_call_id : String) → WireMessage J F → WireMessage J F
  approval_request : ApprovalRequest J → WireMessage J F
  tool_call_request : (id name : String) → Option Text → WireMessage J F
  notification : Notification J F → WireMessage J F
