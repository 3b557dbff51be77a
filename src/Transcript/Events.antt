-- ===== src/Transcript/Events.antt =====
-- client/wire-client/src/transcript.rs: `apply_event`, with its arm for every message.
use rusty_kimi.Common.{
  ◌≡◌, refl, ◌+◌, ◌%◌, ◌^◌, String, Bool, true, false, List, [], ◌∷◌, ◌++◌, Option, none, take,
  ◌>>=◌,
}
use rusty_kimi.Common.Chars.{codes}
use rusty_kimi.Message.{Text}
use rusty_kimi.Wire.{
  StatusUpdate, WireMessage, turn_begin, turn_end, steer_input, step_begin, step_interrupted,
  compaction_begin, compaction_end, status_update, content_part, tool_call, tool_call_part,
  tool_result, approval_response, subagent_event, approval_request, tool_call_request, notification,
}
use rusty_kimi.Transcript.{
  Block, user, info, call, user_input_text, update_last, find_last, Transcript, made, with_blocks,
  updated, blocks_of, pushed, merge_status, apply_content_part, abandon_open_tool_calls,
  merge_fragment, set_result, answer, count_event, arguments_of, kept_or, prompt_title, is_turn_end,
  feed,
}
use rusty_kimi.Transcript.Titles.{Json, or_else, subagent_title}

module _ (J F : Type 0) (json : Json) where
  -- A change moves the version, which wraps.
  abbrev pub bump : Transcript J F × Bool → Transcript J F × Bool
  bump (made blocks status subagents version, true) =
      (made blocks status subagents ((version + 1) % 2 ^ 64), true)
  bump (t, false) = (t, false)

  -- The title of a new tab: from the call that spawned the subagent, or from the first prompt.
  unfoldable pub title_hint : String → List (Block J F) → Option Text
  unfolding find_last subagent_title
  title_hint id blocks = do
    arguments ← find_last (arguments_of J F id) blocks
    args ← arguments
    subagent_title json args

  unfoldable pub tab_title : String → WireMessage J F → List (Block J F) → Text
  unfolding title_hint
  tab_title id inner blocks =
      kept_or J F (codes "task " ++ take 8 (codes id))
        (or_else (title_hint id blocks) (prompt_title J F inner))

  -- `apply` is what the event itself does to the subagent's transcript.
  unfoldable pub apply_subagent :
      String → WireMessage J F → (Transcript J F → Transcript J F) → Transcript J F → Transcript J F
  unfolding feed update_last tab_title
  apply_subagent id inner apply (made blocks status subagents version) =
      made (kept_or J F blocks (update_last (count_event J F id inner) blocks)) status
        (feed J F id (tab_title id inner blocks) (is_turn_end J F inner) apply subagents) version

  unfoldable pub with_status : StatusUpdate F → Transcript J F → Transcript J F
  unfolding merge_status
  with_status u (made blocks status subagents version) =
      made blocks (merge_status J F u status) subagents version

  unfoldable pub apply_event_inner : WireMessage J F → Transcript J F → Transcript J F × Bool
  unfolding user_input_text abandon_open_tool_calls with_status apply_content_part update_last
      apply_subagent
  apply_event_inner (turn_begin input) t = pushed J F (user (user_input_text input) false) t
  apply_event_inner (steer_input input) t = pushed J F (user (user_input_text input) true) t
  apply_event_inner turn_end t = abandon_open_tool_calls J F t
  apply_event_inner (step_begin n) t = (t, false)
  apply_event_inner step_interrupted t =
      pushed J F (info (codes "step interrupted")) (abandon_open_tool_calls J F t).0
  apply_event_inner compaction_begin t = pushed J F (info (codes "compacting context...")) t
  apply_event_inner compaction_end t = pushed J F (info (codes "context compacted")) t
  apply_event_inner (status_update u) t = (with_status u t, true)
  apply_event_inner (content_part part) t =
      (with_blocks J F t (apply_content_part J F part (blocks_of J F t)), true)
  apply_event_inner (tool_call c) t = pushed J F (call c none none false) t
  apply_event_inner (tool_call_part part) t =
      updated J F t (update_last (merge_fragment J F part) (blocks_of J F t))
  apply_event_inner (tool_result id value) t =
      updated J F t (update_last (set_result J F id value) (blocks_of J F t))
  apply_event_inner (subagent_event id inner) t =
      let inside = apply_event_inner inner in
      (apply_subagent id inner (λ u. (bump (inside u)).0) t, true)
  apply_event_inner (notification n) t = pushed J F (info (n.title ++ (codes ": " ++ n.body))) t
  apply_event_inner (approval_response id response) t =
      updated J F t (update_last (answer J F id response) (blocks_of J F t))
  apply_event_inner (approval_request r) t = (t, false)
  apply_event_inner (tool_call_request id name args) t = (t, false)

  unfoldable pub apply_event : WireMessage J F → Transcript J F → Transcript J F × Bool
  unfolding apply_event_inner
  apply_event msg t = bump (apply_event_inner msg t)

  -- The transcript after a stream of events.
  abbrev pub replay : List (WireMessage J F) → Transcript J F → Transcript J F
  replay [] t = t
  replay (msg ∷ msgs) t = replay msgs (apply_event msg t).0

  pub bump-blocks : (r : Transcript J F × Bool) → blocks_of J F (bump r).0 ≡ blocks_of J F r.0
  bump-blocks (made bs s u v, true) = refl
  bump-blocks (t, false) = refl
