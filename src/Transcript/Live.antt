-- ===== src/Transcript/Live.antt =====
-- Which tool calls a client shows as running.
use rusty_kimi.Common.{◌≡◌, refl, Bool, true, false, List, [], ◌∷◌, ◌++◌, map, All}
use rusty_kimi.Common.Chars.{codes}
use rusty_kimi.Common.Eq.{string_eq}
use rusty_kimi.Wire.{
  WireMessage, turn_begin, turn_end, steer_input, step_begin, step_interrupted, compaction_begin,
  compaction_end, status_update, content_part, tool_call, tool_call_part, tool_result,
  approval_response, subagent_event, approval_request, tool_call_request, notification,
}
use rusty_kimi.Transcript.{
  user, info, user_input_text, Transcript, made, blocks_of, abandon, any_live,
  abandon_open_tool_calls, merge_fragment, set_result, answer,
}
use rusty_kimi.Transcript.Titles.{Json}
use rusty_kimi.Transcript.Events.{
  bump, bump-blocks, apply_subagent, with_status, apply_event_inner, apply_event, replay,
}
use rusty_kimi.Transcript.Idle.{
  Idle, Idle-snoc, Idle-part, Idle-abandon, Idle-updated, Settles-merge_fragment,
  Settles-set_result, Settles-answer, Idle-count_event,
}

module _ (J F : Type 0) (json : Json) where
  -- Events that start no call.
  abbrev pub starts_call : WireMessage J F → Bool
  starts_call (tool_call c) = true
  starts_call _ = false

  inner-Idle :
      (m : WireMessage J F) (t : Transcript J F)
      → starts_call m ≡ false
      → Idle J F (blocks_of J F t)
      → Idle J F (blocks_of J F (apply_event_inner J F json m t).0)
  unfolding apply_event_inner abandon_open_tool_calls with_status apply_subagent
  inner-Idle (turn_begin x) (made bs s u v) n i =
      Idle-snoc J F bs (user (user_input_text x) false) refl i
  inner-Idle (steer_input x) (made bs s u v) n i =
      Idle-snoc J F bs (user (user_input_text x) true) refl i
  inner-Idle turn_end (made bs s u v) n i = Idle-abandon J F bs
  inner-Idle (step_begin k) t n i = i
  inner-Idle step_interrupted (made bs s u v) n i =
      Idle-snoc J F (map (abandon J F) bs) (info (codes "step interrupted")) refl
        (Idle-abandon J F bs)
  inner-Idle compaction_begin (made bs s u v) n i =
      Idle-snoc J F bs (info (codes "compacting context...")) refl i
  inner-Idle compaction_end (made bs s u v) n i =
      Idle-snoc J F bs (info (codes "context compacted")) refl i
  inner-Idle (status_update x) (made bs s u v) n i = i
  inner-Idle (content_part p) (made bs s u v) n i = Idle-part J F p bs i
  inner-Idle (tool_call c) t n i = absurd (cc n)
  inner-Idle (tool_call_part part) t n i =
      Idle-updated J F (merge_fragment J F part) t (Settles-merge_fragment J F part) i
  inner-Idle (tool_result id value) t n i =
      Idle-updated J F (set_result J F id value) t (Settles-set_result J F id value) i
  inner-Idle (subagent_event id m) (made bs s u v) n i = Idle-count_event J F id m bs i
  inner-Idle (notification x) (made bs s u v) n i =
      Idle-snoc J F bs (info (x.title ++ (codes ": " ++ x.body))) refl i
  inner-Idle (approval_response id k) t n i =
      Idle-updated J F (answer J F id k) t (Settles-answer J F id k) i
  inner-Idle (approval_request r) t n i = i
  inner-Idle (tool_call_request x y z) t n i = i

  -- Events that end every call: `TurnEnd` and `StepInterrupted`.
  abbrev pub ends_calls : WireMessage J F → Bool
  ends_calls turn_end = true
  ends_calls step_interrupted = true
  ends_calls _ = false

  ended-Idle :
      (m : WireMessage J F) (t : Transcript J F)
      → ends_calls m ≡ true
      → Idle J F (blocks_of J F (apply_event_inner J F json m t).0)
  unfolding apply_event_inner abandon_open_tool_calls
  ended-Idle turn_end (made bs s u v) e = Idle-abandon J F bs
  ended-Idle step_interrupted (made bs s u v) e =
      Idle-snoc J F (map (abandon J F) bs) (info (codes "step interrupted")) refl
        (Idle-abandon J F bs)
  ended-Idle (turn_begin x) t e = absurd (cc e)
  ended-Idle (steer_input x) t e = absurd (cc e)
  ended-Idle (step_begin k) t e = absurd (cc e)
  ended-Idle compaction_begin t e = absurd (cc e)
  ended-Idle compaction_end t e = absurd (cc e)
  ended-Idle (status_update x) t e = absurd (cc e)
  ended-Idle (content_part p) t e = absurd (cc e)
  ended-Idle (tool_call c) t e = absurd (cc e)
  ended-Idle (tool_call_part part) t e = absurd (cc e)
  ended-Idle (tool_result id value) t e = absurd (cc e)
  ended-Idle (subagent_event id m) t e = absurd (cc e)
  ended-Idle (notification x) t e = absurd (cc e)
  ended-Idle (approval_response id k) t e = absurd (cc e)
  ended-Idle (approval_request r) t e = absurd (cc e)
  ended-Idle (tool_call_request x y z) t e = absurd (cc e)

  replay-Idle :
      (ms : List (WireMessage J F)) (t : Transcript J F)
      → All (λ m. starts_call m ≡ false) ms
      → Idle J F (blocks_of J F t)
      → Idle J F (blocks_of J F (replay J F json ms t))
  unfolding apply_event
  replay-Idle [] t n i = i
  replay-Idle (m ∷ ms) t (n, ns) i =
      let inner = apply_event_inner J F json m t in
      replay-Idle ms (bump J F json inner).0 ns
        (rw (bump-blocks J F json inner) (inner-Idle m t n i))

  -- After an event that ends a turn or interrupts a step, no tool call is shown as running, whatever
  -- follows, until the next tool call: each has its result or is marked as abandoned.
  pub ended-any_live :
      (m : WireMessage J F) (ms : List (WireMessage J F)) (t : Transcript J F)
      → ends_calls m ≡ true
      → All (λ m. starts_call m ≡ false) ms
      → any_live J F (blocks_of J F (replay J F json (m ∷ ms) t)) ≡ false
  unfolding apply_event
  ended-any_live m ms t e n =
      let inner = apply_event_inner J F json m t in
      replay-Idle ms (bump J F json inner).0 n (rw (bump-blocks J F json inner) (ended-Idle m t e))
