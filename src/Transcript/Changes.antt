-- ===== src/Transcript/Changes.antt =====
-- The answer of `apply_event`, and the version.
use rusty_kimi.Common.{
  ℕ, ◌+◌, ◌%◌, ◌^◌, ◌≡◌, refl, ap, Bool, true, false, List, [], ◌∷◌, map, Option, none, some, arith,
  if◌then◌else◌,
}
use rusty_kimi.Wire.{
  WireMessage, turn_begin, turn_end, steer_input, step_begin, step_interrupted, compaction_begin,
  compaction_end, status_update, content_part, tool_call, tool_call_part, tool_result,
  approval_response, subagent_event, approval_request, tool_call_request, notification,
}
use rusty_kimi.Transcript.{
  Block, user, assistant, thinking, info, call, approval, update_last, Transcript, made, updated,
  blocks_of, is_live, abandon, any_live, abandon_open_tool_calls, merge_fragment, set_result,
  answer,
}
use rusty_kimi.Transcript.Titles.{Json}
use rusty_kimi.Transcript.Events.{bump, apply_subagent, with_status, apply_event_inner, apply_event}

module _ (J F : Type 0) (json : Json) where
  abbrev pub version_of : Transcript J F → ℕ
  version_of (made _ _ _ version) = version

  abbrev pub IsUnchanged : Transcript J F × Bool → Transcript J F → Type 0
  IsUnchanged (t', changed) t = changed ≡ false → t' ≡ t

  abandon-dead : (b : Block J F) → is_live J F b ≡ false → abandon J F b ≡ b
  abandon-dead (user t s) h = refl
  abandon-dead (assistant t) h = refl
  abandon-dead (thinking t) h = refl
  abandon-dead (info t) h = refl
  abandon-dead (approval i r) h = refl
  abandon-dead (call c (some r) s a) h = refl
  abandon-dead (call c none s true) h = refl
  abandon-dead (call c none s false) h = absurd (cc h)

  map-abandon : (bs : List (Block J F)) → any_live J F bs ≡ false → map (abandon J F) bs ≡ bs
  map-abandon [] h = refl
  map-abandon (b ∷ bs) h =
      rw (abandon-dead b (ground (arith, h))) (rw (map-abandon bs (ground (arith, h))) refl)

  updated-IsUnchanged :
      (t : Transcript J F) (o : Option (List (Block J F))) → IsUnchanged (updated J F t o) t
  updated-IsUnchanged t none h = refl
  updated-IsUnchanged t (some bs) h = absurd (cc h)

  updated-version :
      (t : Transcript J F) (o : Option (List (Block J F)))
      → version_of (updated J F t o).0 ≡ version_of t
  updated-version t none = refl
  updated-version (made bs s u v) (some bs') = refl

  inner-IsUnchanged :
      (m : WireMessage J F) (t : Transcript J F) → IsUnchanged (apply_event_inner J F json m t) t
  unfolding apply_event_inner abandon_open_tool_calls
  inner-IsUnchanged turn_end (made bs s u v) h = ap (λ x. made x s u v) (map-abandon bs h)
  inner-IsUnchanged (step_begin n) t h = refl
  inner-IsUnchanged (tool_call_part part) t h =
      updated-IsUnchanged t (update_last (merge_fragment J F part) (blocks_of J F t)) h
  inner-IsUnchanged (tool_result id value) t h =
      updated-IsUnchanged t (update_last (set_result J F id value) (blocks_of J F t)) h
  inner-IsUnchanged (approval_response id r) t h =
      updated-IsUnchanged t (update_last (answer J F id r) (blocks_of J F t)) h
  inner-IsUnchanged (approval_request r) t h = refl
  inner-IsUnchanged (tool_call_request id name args) t h = refl
  inner-IsUnchanged (turn_begin input) t h = absurd (cc h)
  inner-IsUnchanged (steer_input input) t h = absurd (cc h)
  inner-IsUnchanged step_interrupted t h = absurd (cc h)
  inner-IsUnchanged compaction_begin t h = absurd (cc h)
  inner-IsUnchanged compaction_end t h = absurd (cc h)
  inner-IsUnchanged (status_update u) t h = absurd (cc h)
  inner-IsUnchanged (content_part p) t h = absurd (cc h)
  inner-IsUnchanged (tool_call c) t h = absurd (cc h)
  inner-IsUnchanged (subagent_event id m) t h = absurd (cc h)
  inner-IsUnchanged (notification n) t h = absurd (cc h)

  inner-version :
      (m : WireMessage J F) (t : Transcript J F)
      → version_of (apply_event_inner J F json m t).0 ≡ version_of t
  unfolding apply_event_inner abandon_open_tool_calls with_status apply_subagent
  inner-version turn_end (made bs s u v) = refl
  inner-version (step_begin n) t = refl
  inner-version (tool_call_part part) t =
      updated-version t (update_last (merge_fragment J F part) (blocks_of J F t))
  inner-version (tool_result id value) t =
      updated-version t (update_last (set_result J F id value) (blocks_of J F t))
  inner-version (approval_response id r) t =
      updated-version t (update_last (answer J F id r) (blocks_of J F t))
  inner-version (approval_request r) t = refl
  inner-version (tool_call_request id name args) t = refl
  inner-version (turn_begin input) (made bs s u v) = refl
  inner-version (steer_input input) (made bs s u v) = refl
  inner-version step_interrupted (made bs s u v) = refl
  inner-version compaction_begin (made bs s u v) = refl
  inner-version compaction_end (made bs s u v) = refl
  inner-version (status_update x) (made bs s u v) = refl
  inner-version (content_part p) (made bs s u v) = refl
  inner-version (tool_call c) (made bs s u v) = refl
  inner-version (subagent_event id m) (made bs s u v) = refl
  inner-version (notification n) (made bs s u v) = refl

  bump-version :
      (r : Transcript J F × Bool) (t : Transcript J F)
      → version_of r.0 ≡ version_of t
      → IsUnchanged r t
      → (version_of (bump J F json r).0
          ≡ (if (bump J F json r).1 then (version_of t + 1) % 2 ^ 64 else version_of t))
        × IsUnchanged (bump J F json r) t
  bump-version (made bs s u v, true) t e h = (ap (λ n. (n + 1) % 2 ^ 64) e, λ x. absurd (cc x))
  bump-version (t', false) t e h = (e, h)

  -- Of every message, the version moves by one, modulo 2^64, exactly if the answer is that something
  -- changed, and a transcript that is answered to be unchanged is the same as before.
  pub apply_event-version :
      (m : WireMessage J F) (t : Transcript J F)
      → let (t', changed) = apply_event J F json m t in
        (version_of t' ≡ (if changed then (version_of t + 1) % 2 ^ 64 else version_of t))
        × (changed ≡ false → t' ≡ t)
  unfolding apply_event
  apply_event-version m t =
      bump-version (apply_event_inner J F json m t) t (inner-version m t) (inner-IsUnchanged m t)
