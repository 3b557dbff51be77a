-- ===== src/Transcript/Nested.antt =====
-- A subagent's transcript, beside the others.
use rusty_kimi.Common.{
  String, ◌≡◌, refl, sym, ◌∙◌, ap, Bool, true, false, List, [], ◌∷◌, ◌++◌, Option, none, some,
  arith, ◌||◌, Bool-cases, inl, inr, if◌then◌else◌,
}
use rusty_kimi.Common.Eq.{string_eq, ◌=?◌}
use rusty_kimi.Message.{Text}
use rusty_kimi.Wire.{
  WireMessage, turn_begin, turn_end, steer_input, step_begin, step_interrupted, compaction_begin,
  compaction_end, status_update, content_part, tool_call, tool_call_part, tool_result,
  approval_response, subagent_event, approval_request, tool_call_request, notification,
}
use rusty_kimi.Transcript.{
  Block, update_last, Transcript, made, Subagents, nobody, subagent, default, updated, blocks_of,
  abandon_open_tool_calls, merge_fragment, set_result, answer, is_turn_end, feed,
}
use rusty_kimi.Transcript.Titles.{Json}
use rusty_kimi.Transcript.Events.{
  bump, tab_title, apply_subagent, with_status, apply_event_inner, apply_event, replay,
}

or_false : (d : Bool) → (d || false) ≡ d
or_false true = refl
or_false false = refl

or_assoc : (d e f : Bool) → ((d || e) || f) ≡ (d || (e || f))
or_assoc true e f = refl
or_assoc false e f = refl

module _ (J F : Type 0) (json : Json) where
  abbrev pub subagents_of : Transcript J F → Subagents J F
  subagents_of (made _ _ subagents _) = subagents

  -- The transcript of a subagent, and whether its turn ended.
  abbrev pub subagent_of : String → Subagents J F → Option (Transcript J F × Bool)
  subagent_of id nobody = none
  subagent_of id (subagent i _ t done rest) =
      if i =? id then some (t, done) else subagent_of id rest

  -- The events of one subagent.
  abbrev pub event_for : String → WireMessage J F → List (WireMessage J F)
  event_for id (subagent_event i inner) = if i =? id then inner ∷ [] else []
  event_for id _ = []

  abbrev pub events_for : String → List (WireMessage J F) → List (WireMessage J F)
  events_for id [] = []
  events_for id (m ∷ ms) = event_for id m ++ events_for id ms

  abbrev pub ends : List (WireMessage J F) → Bool
  ends [] = false
  ends (m ∷ ms) = is_turn_end J F m || ends ms

  -- What a client that follows only the subagent has.
  abbrev pub alone : List (WireMessage J F) → Option (Transcript J F × Bool)
  alone [] = none
  alone (m ∷ ms) = some (replay J F json (m ∷ ms) (default J F), ends (m ∷ ms))

  abbrev start_of : Option (Transcript J F × Bool) → Transcript J F × Bool
  start_of none = (default J F, false)
  start_of (some r) = r

  abbrev follow :
      Option (Transcript J F × Bool) → List (WireMessage J F) → Option (Transcript J F × Bool)
  follow o [] = o
  follow o (m ∷ ms) =
      follow (some ((apply_event J F json m (start_of o).0).0, (start_of o).1 || is_turn_end J F m))
        ms

  follow-append :
      (o : Option (Transcript J F × Bool)) (ms ns : List (WireMessage J F))
      → follow o (ms ++ ns) ≡ follow (follow o ms) ns
  follow-append o [] ns = refl
  follow-append o (m ∷ ms) ns =
      follow-append
        (some ((apply_event J F json m (start_of o).0).0, (start_of o).1 || is_turn_end J F m)) ms
        ns

  follow-some :
      (t : Transcript J F) (d : Bool) (ms : List (WireMessage J F))
      → follow (some (t, d)) ms ≡ some (replay J F json ms t, d || ends ms)
  follow-some t d [] = ap (λ e. some (t, e)) (sym (or_false d))
  follow-some t d (m ∷ ms) =
      let next = (apply_event J F json m t).0 in
      follow-some next (d || is_turn_end J F m) ms
      ∙ ap (λ e. some (replay J F json ms next, e)) (or_assoc d (is_turn_end J F m) (ends ms))

  follow-alone : (ms : List (WireMessage J F)) → follow none ms ≡ alone ms
  follow-alone [] = refl
  follow-alone (m ∷ ms) = follow-some _ (is_turn_end J F m) ms

  subagent_of-feed :
      (id i : String) (title : Text) (ended : Bool) (f : Transcript J F → Transcript J F)
      (s : Subagents J F)
      → subagent_of id (feed J F i title ended f s) ≡ (
          if i =? id
          then some (f (start_of (subagent_of id s)).0, (start_of (subagent_of id s)).1 || ended)
          else subagent_of id s)
  unfolding feed
  subagent_of-feed id i title ended f nobody = refl
  subagent_of-feed id i title ended f (subagent j u t done rest) = ground (
    arith,
    subagent_of-feed id i title ended f rest,
    string_eq.beq_iff j id,
    string_eq.beq_iff j i,
    string_eq.beq_iff i id,
  )

  fed :
      (id i : String) (m : WireMessage J F) (o : Option (Transcript J F × Bool))
      → (if i =? id
          then some ((apply_event J F json m (start_of o).0).0, (start_of o).1 || is_turn_end J F m)
          else o)
        ≡ follow o (event_for id (subagent_event i m))
  fed id i m o = elim (Bool-cases (i =? id)) [
    | inl same ↦ rw (same) refl
    | inr other ↦ rw (other) refl
  ]

  bump-subagents : (r : Transcript J F × Bool) → subagents_of (bump J F json r).0 ≡ subagents_of r.0
  bump-subagents (made bs s u v, true) = refl
  bump-subagents (t, false) = refl

  updated-subagents :
      (t : Transcript J F) (o : Option (List (Block J F)))
      → subagents_of (updated J F t o).0 ≡ subagents_of t
  updated-subagents t none = refl
  updated-subagents (made bs s u v) (some bs') = refl

  inner-subagents :
      (id : String) (m : WireMessage J F) (t : Transcript J F)
      → subagent_of id (subagents_of (apply_event_inner J F json m t).0)
        ≡ follow (subagent_of id (subagents_of t)) (event_for id m)
  unfolding apply_event_inner apply_event abandon_open_tool_calls with_status apply_subagent
  inner-subagents id turn_end (made bs s u v) = refl
  inner-subagents id (step_begin n) t = refl
  inner-subagents id (tool_call_part part) t =
      ap (subagent_of id)
        (updated-subagents t (update_last (merge_fragment J F part) (blocks_of J F t)))
  inner-subagents id (tool_result i value) t =
      ap (subagent_of id)
        (updated-subagents t (update_last (set_result J F i value) (blocks_of J F t)))
  inner-subagents id (approval_response i r) t =
      ap (subagent_of id) (updated-subagents t (update_last (answer J F i r) (blocks_of J F t)))
  inner-subagents id (approval_request r) t = refl
  inner-subagents id (tool_call_request i name args) t = refl
  inner-subagents id (turn_begin input) (made bs s u v) = refl
  inner-subagents id (steer_input input) (made bs s u v) = refl
  inner-subagents id step_interrupted (made bs s u v) = refl
  inner-subagents id compaction_begin (made bs s u v) = refl
  inner-subagents id compaction_end (made bs s u v) = refl
  inner-subagents id (status_update x) (made bs s u v) = refl
  inner-subagents id (content_part p) (made bs s u v) = refl
  inner-subagents id (tool_call c) (made bs s u v) = refl
  inner-subagents id (notification n) (made bs s u v) = refl
  inner-subagents id (subagent_event i m) (made bs s u v) =
      subagent_of-feed id i (tab_title J F json i m bs) (is_turn_end J F m)
        (λ t. (apply_event J F json m t).0) u
      ∙ fed id i m (subagent_of id u)

  event-subagents :
      (id : String) (m : WireMessage J F) (t : Transcript J F)
      → subagent_of id (subagents_of (apply_event J F json m t).0)
        ≡ follow (subagent_of id (subagents_of t)) (event_for id m)
  unfolding apply_event
  event-subagents id m t =
      ap (subagent_of id) (bump-subagents (apply_event_inner J F json m t)) ∙ inner-subagents id m t

  replay-follow :
      (id : String) (ms : List (WireMessage J F)) (t : Transcript J F)
      → subagent_of id (subagents_of (replay J F json ms t))
        ≡ follow (subagent_of id (subagents_of t)) (events_for id ms)
  replay-follow id [] t = refl
  replay-follow id (m ∷ ms) t = rw (replay-follow id ms (apply_event J F json m t).0) (
      rw (event-subagents id m t)
        (sym (follow-append (subagent_of id (subagents_of t)) (event_for id m) (events_for id ms))))

  -- However the events of the session and of its subagents are interleaved, a subagent has a nested
  -- transcript just when it has had an event, and it is the one that its own events alone make, with
  -- the mark of a turn that ended just when one of them ends a turn.
  pub replay-alone :
      (id : String) (ms : List (WireMessage J F))
      → subagent_of id (subagents_of (replay J F json ms (default J F))) ≡ alone (events_for id ms)
  replay-alone id ms = replay-follow id ms (default J F) ∙ follow-alone (events_for id ms)
