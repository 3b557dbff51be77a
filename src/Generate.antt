-- ===== src/Generate.antt =====
-- server/kosong/src/generate.rs: a provider's stream of fragments is assembled into one message.
-- The provider is what it streams: its parts, then the end or an error; `U` is its token usage.
-- `sent` is what goes to `message_part_tx`, and `called` what `on_tool_call` is called with.
pub mod Assembly
pub mod Content
pub mod Errors
use rusty_kimi.Common.{String, List, [], ◌∷◌, ◌++◌, Option, none, some, ◌≡◌}
use rusty_kimi.Message.{
  Message, ContentPart, ToolCall, StreamedMessagePart, content, tool_call, tool_call_part,
  assistant, merge_part, new as new_message,
}

pub data ErrorKind : Type 0 where
  connection timeout empty_response other : ErrorKind
  status : (code : String) → ErrorKind

pub data Stream (J : Type 0) : Type 0 where
  end : Stream J
  failed : ErrorKind → Stream J
  next : StreamedMessagePart J → Stream J → Stream J

pub record State (J : Type 0) : Type 0 where
  pub message : Message J
  pub pending : Option (StreamedMessagePart J)
  pub sent : List (StreamedMessagePart J)
  pub called : List (ToolCall J)

pub data Outcome (J : Type 0) : Type 0 where
  generated : Message J → Outcome J
  error : ErrorKind → Outcome J

module _ {J : Type 0} where
  unfoldable pub start : State J
  unfolding new_message
  start = record { message = new_message assistant []; pending = none; sent = []; called = [] }

  -- `message.tool_calls` with one more call.
  abbrev pub push_call : ToolCall J → Option (List (ToolCall J)) → Option (List (ToolCall J))
  push_call c none = some (c ∷ [])
  push_call c (some calls) = some (calls ++ c ∷ [])

  -- An argument fragment that no tool call precedes is dropped.
  unfoldable pub append_part : StreamedMessagePart J → State J → State J
  append_part (content c) s = record s {
    message = record s.message { content = s.message.content ++ c ∷ [] };
  }
  append_part (tool_call c) s = record s {
    message = record s.message { tool_calls = push_call c s.message.tool_calls };
    called = s.called ++ c ∷ [];
  }
  append_part (tool_call_part p) s = s

  -- `merge_in_place` of the pending part and a new one, with its answer.
  unfoldable pub merge_or_append :
      StreamedMessagePart J
      → StreamedMessagePart J
      → Option (StreamedMessagePart J)
      → State J
      → State J
  unfolding append_part
  merge_or_append current part (some merged) s = record s { pending = some merged }
  merge_or_append current part none s = record (append_part current s) { pending = some part }

  unfoldable pub accept : StreamedMessagePart J → Option (StreamedMessagePart J) → State J → State J
  unfolding merge_or_append
  accept part none s = record s { pending = some part }
  accept part (some current) s = merge_or_append current part (merge_part current part) s

  -- One round of the loop.
  unfoldable pub round : StreamedMessagePart J → State J → State J
  unfolding accept
  round part s = accept part s.pending (record s { sent = s.sent ++ part ∷ [] })

  unfoldable pub flush : Option (StreamedMessagePart J) → State J → State J
  unfolding append_part
  flush none s = s
  flush (some part) s = append_part part s

  -- The check for an empty response.
  unfoldable pub conclude : List ContentPart → Option (List (ToolCall J)) → Message J → Outcome J
  conclude [] none m = error empty_response
  conclude [] (some []) m = error empty_response
  conclude [] (some (_ ∷ _)) m = generated m
  conclude (_ ∷ _) calls m = generated m

  unfoldable pub finish : State J → Outcome J × State J
  unfolding flush conclude
  finish s =
      let s' = flush s.pending s in
      (conclude s'.message.content s'.message.tool_calls s'.message, s')

  unfoldable pub loop : Stream J → State J → Outcome J × State J
  unfolding round finish
  loop end s = finish s
  loop (failed e) s = (error e, s)
  loop (next part rest) s = loop rest (round part s)

  -- `none`, `some e`: the request itself failed with `e`.
  unfoldable pub generate : Option ErrorKind → Stream J → Outcome J × State J
  unfolding loop start
  generate (some e) stream = (error e, start)
  generate none stream = loop stream start
