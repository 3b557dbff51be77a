-- ===== src/Wire/Channel.antt =====
-- server/dvadva-agent/src/wire/channel.rs: the soul's side of a wire. Each message goes out at once
-- on the raw queue; on the merged queue fragments are joined in a buffer first.
-- The locks of `merge_buffer` are released between a flush and the next write; a call is one step
-- here, so the model is of calls that do not overlap. A failed publication is only logged.
pub mod Atoms
pub mod Merge
use rusty_kimi.Common.{String, Bool, true, false, Option, none, some}
use rusty_kimi.Message.{Text, ContentPart, ToolCall, merge_content, merge_arguments, merge_call}
use rusty_kimi.Wire.{WireMessage, content_part, tool_call, tool_call_part}
use rusty_kimi.Wire.Broadcast.{Broadcast, publish_nowait, shutdown_all}

pub record SoulSide (J F : Type 0) : Type 0 where
  pub raw_queue : Broadcast (WireMessage J F)
  pub merged_queue : Broadcast (WireMessage J F)
  pub merge_buffer : Option (WireMessage J F)
  pub closed : Bool

module _ {J F : Type 0} where
  unfoldable pub publish_merged : WireMessage J F → SoulSide J F → SoulSide J F
  publish_merged m s = record s { merged_queue = (publish_nowait m s.merged_queue).0 }

  unfoldable pub flush_buffer : Option (WireMessage J F) → SoulSide J F → SoulSide J F
  unfolding publish_merged
  flush_buffer none s = s
  flush_buffer (some m) s = publish_merged m (record s { merge_buffer = none })

  unfoldable pub flush : SoulSide J F → SoulSide J F
  unfolding flush_buffer
  flush s = flush_buffer s.merge_buffer s

  -- The buffer goes out and `m` takes its place.
  unfoldable pub replace : WireMessage J F → SoulSide J F → SoulSide J F
  unfolding flush
  replace m s = record (flush s) { merge_buffer = some m }

  unfoldable pub content_merged : ContentPart → Option ContentPart → SoulSide J F → SoulSide J F
  unfolding replace
  content_merged part none s = replace (content_part part) s
  content_merged part (some merged) s = record s { merge_buffer = some (content_part merged) }

  unfoldable pub merge_content_part :
      ContentPart → Option (WireMessage J F) → SoulSide J F → SoulSide J F
  unfolding content_merged
  merge_content_part part none s = record s { merge_buffer = some (content_part part) }
  merge_content_part part (some (content_part existing)) s =
      content_merged part (merge_content existing part) s
  merge_content_part part (some _) s = replace (content_part part) s

  -- `merge_in_place` of a tool call or a fragment with a fragment always merges.
  unfoldable pub merge_tool_call_part :
      Option Text → Option (WireMessage J F) → SoulSide J F → SoulSide J F
  unfolding replace merge_call merge_arguments
  merge_tool_call_part part none s = record s { merge_buffer = some (tool_call_part part) }
  merge_tool_call_part part (some (tool_call_part existing)) s = record s {
    merge_buffer = some (tool_call_part (merge_arguments existing part));
  }
  merge_tool_call_part part (some (tool_call existing)) s = record s {
    merge_buffer = some (tool_call (merge_call existing part));
  }
  merge_tool_call_part part (some _) s = replace (tool_call_part part) s

  -- Both branches of the test on the call's id and name do the same.
  unfoldable pub merge_tool_call :
      ToolCall J → Option (WireMessage J F) → SoulSide J F → SoulSide J F
  unfolding replace
  merge_tool_call call none s = record s { merge_buffer = some (tool_call call) }
  merge_tool_call call (some _) s = replace (tool_call call) s

  unfoldable pub dispatch : WireMessage J F → SoulSide J F → SoulSide J F
  unfolding merge_content_part merge_tool_call merge_tool_call_part flush publish_merged
  dispatch (content_part part) s = merge_content_part part s.merge_buffer s
  dispatch (tool_call call) s = merge_tool_call call s.merge_buffer s
  dispatch (tool_call_part part) s = merge_tool_call_part part s.merge_buffer s
  dispatch other s = publish_merged other (flush s)

  unfoldable pub send : WireMessage J F → SoulSide J F → SoulSide J F
  unfolding dispatch
  send m s = dispatch m (record s { raw_queue = (publish_nowait m s.raw_queue).0 })

  -- `Wire::shutdown`.
  unfoldable pub shutdown : SoulSide J F → SoulSide J F
  unfolding flush
  shutdown s =
      let s' = flush s in
      record s' {
        closed = true;
        raw_queue = shutdown_all false s'.raw_queue;
        merged_queue = shutdown_all false s'.merged_queue;
      }
