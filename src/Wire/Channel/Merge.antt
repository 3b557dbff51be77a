-- ===== src/Wire/Channel/Merge.antt =====
-- What a listener on the merged queue hears of what was sent.
use rusty_kimi.Common.{
  ℕ, ◌≡◌, refl, sym, ◌∙◌, ap, true, List, [], ◌∷◌, ◌++◌, Option, none, some, append-nil,
  append_assoc, Option-cases, inl, inr,
}
use rusty_kimi.Common.Eq.{nat_eq}
use rusty_kimi.Common.Dict.{lookup}
use rusty_kimi.Message.{Text, ContentPart, ToolCall, merge_content}
use rusty_kimi.Message.Atoms.{concat_atoms, concat_atoms-append}
use rusty_kimi.Wire.{WireMessage, content_part, tool_call, tool_call_part}
use rusty_kimi.Wire.Broadcast.{publish_nowait}
use rusty_kimi.Queue.Store.{held, grown}
use rusty_kimi.Wire.Broadcast.Delivery.{mem, Live, publish_nowait-delivers}
use rusty_kimi.Wire.Channel.{
  SoulSide, publish_merged, flush_buffer, flush, replace, content_merged, merge_content_part,
  merge_tool_call_part, merge_tool_call, dispatch, send,
}
use rusty_kimi.Wire.Channel.Atoms.{WireAtom, wire_atoms, content_joined, call_joined, part_joined}

module _ {J F : Type 0} where
  abbrev pub buffered : Option (WireMessage J F) → List (WireAtom J F)
  buffered none = []
  buffered (some m) = wire_atoms m

  -- What listener `k` has in its queue, then what the buffer holds.
  abbrev pub heard : ℕ → SoulSide J F → List (WireAtom J F)
  heard k s =
      concat_atoms wire_atoms (held (lookup k s.merged_queue.store)) ++ buffered s.merge_buffer

  -- `k` listens on the merged queue, and every listener there can take a message.
  pub record Listens (k : ℕ) (s : SoulSide J F) : Type 0 where
    pub subscribed : mem k s.merged_queue.subscribers ≡ true
    pub live : Live s.merged_queue

  -- From `s` to `t` listener `k` has heard `w`.
  pub record Hears (k : ℕ) (s t : SoulSide J F) (w : List (WireAtom J F)) : Type 0 where
    pub more : heard k t ≡ heard k s ++ w
    pub still : Listens k t

  publish_merged-held :
      (k : ℕ) (m : WireMessage J F) (s : SoulSide J F)
      → Listens k s
      → (concat_atoms wire_atoms (held (lookup k (publish_merged m s).merged_queue.store))
          ≡ concat_atoms wire_atoms (held (lookup k s.merged_queue.store)) ++ wire_atoms m)
        × Listens k (publish_merged m s)
  unfolding publish_merged
  publish_merged-held k m s l =
      let (done, delivered, same, live) = publish_nowait-delivers m s.merged_queue l.live in
      (
        ap (concat_atoms wire_atoms) (
              delivered k ∙ ap (λ b. grown b m (held (lookup k s.merged_queue.store))) l.subscribed)
            ∙ concat_atoms-append wire_atoms (held (lookup k s.merged_queue.store)) (m ∷ [])
            ∙ ap (◌++◌ (concat_atoms wire_atoms (held (lookup k s.merged_queue.store))))
                (unfold concat_atoms in append-nil (wire_atoms m)),
        record { subscribed = ap (mem k) same ∙ l.subscribed; live = live },
      )

  -- A flush moves what is buffered into the listener's queue.
  flush_buffer-heard :
      (k : ℕ) (buffer : Option (WireMessage J F)) (s : SoulSide J F)
      → s.merge_buffer ≡ buffer
      → Listens k s
      → let t = flush_buffer buffer s in
        (concat_atoms wire_atoms (held (lookup k t.merged_queue.store)) ≡ heard k s)
        × (t.merge_buffer ≡ none)
        × Listens k t
  unfolding flush_buffer
  flush_buffer-heard k none s e l = (
    cc (ap buffered e, append-nil (concat_atoms wire_atoms (held (lookup k s.merged_queue.store)))),
    e,
    l,
  )
  flush_buffer-heard k (some m) s e l =
      let t : SoulSide J F = record s { merge_buffer = none } in
      let p = publish_merged-held k m t (record { subscribed = l.subscribed; live = l.live }) in
      (cc (p.0, ap buffered e), unfold publish_merged in refl, p.1)

  replace-Hears :
      (k : ℕ) (m : WireMessage J F) (s : SoulSide J F)
      → Listens k s
      → Hears k s (replace m s) (wire_atoms m)
  unfolding replace flush
  replace-Hears k m s l =
      let (same, empty, l') = flush_buffer-heard k s.merge_buffer s refl l in
      record {
        more = ap (λ w. w ++ wire_atoms m) same;
        still = record { subscribed = l'.subscribed; live = l'.live };
      }

  -- The buffer is joined with `w`, and nothing is published.
  joins-Hears :
      (k : ℕ) (old new : WireMessage J F) (w : List (WireAtom J F)) (s : SoulSide J F)
      → s.merge_buffer ≡ some old
      → wire_atoms new ≡ wire_atoms old ++ w
      → Listens k s
      → Hears k s (record s { merge_buffer = some new }) w
  joins-Hears k old new w s e h l = record {
    more = cc (
      ap buffered e,
      append_assoc (concat_atoms wire_atoms (held (lookup k s.merged_queue.store))) (wire_atoms old)
          w,
    );
    still = record { subscribed = l.subscribed; live = l.live };
  }

  starts-Hears :
      (k : ℕ) (new : WireMessage J F) (s : SoulSide J F)
      → s.merge_buffer ≡ none
      → Listens k s
      → Hears k s (record s { merge_buffer = some new }) (wire_atoms new)
  starts-Hears k new s e l = record {
    more = cc (
      ap buffered e,
      append-nil (concat_atoms wire_atoms (held (lookup k s.merged_queue.store))),
    );
    still = record { subscribed = l.subscribed; live = l.live };
  }

  content-Hears :
      (k : ℕ) (part : ContentPart) (buffer : Option (WireMessage J F)) (s : SoulSide J F)
      → s.merge_buffer ≡ buffer
      → Listens k s
      → Hears k s (merge_content_part part buffer s) (wire_atoms (content_part part))
  unfolding merge_content_part content_merged
  content-Hears k part none s e l = starts-Hears k (content_part part) s e l
  content-Hears k part (some (content_part a)) s e l = elim (Option-cases (merge_content a part)) [
    | inl apart ↦ rw (apart, content_merged) (replace-Hears k (content_part part) s l)
    | inr (m, merged) ↦
        rw (merged, content_merged)
          (joins-Hears k (content_part a) (content_part m) (wire_atoms (content_part part)) s e
            (content_joined a part m merged) l)
  ]
  content-Hears k part (some _) s e l = replace-Hears k (content_part part) s l

  call_part-Hears :
      (k : ℕ) (part : Option Text) (buffer : Option (WireMessage J F)) (s : SoulSide J F)
      → s.merge_buffer ≡ buffer
      → Listens k s
      → Hears k s (merge_tool_call_part part buffer s) (wire_atoms (tool_call_part part))
  unfolding merge_tool_call_part
  call_part-Hears k part none s e l = starts-Hears k (tool_call_part part) s e l
  call_part-Hears k part (some (tool_call a)) s e l =
      joins-Hears k (tool_call a) _ _ s e (call_joined a part) l
  call_part-Hears k part (some (tool_call_part a)) s e l =
      joins-Hears k (tool_call_part a) _ _ s e (part_joined a part) l
  call_part-Hears k part (some _) s e l = replace-Hears k (tool_call_part part) s l

  call-Hears :
      (k : ℕ) (call : ToolCall J) (buffer : Option (WireMessage J F)) (s : SoulSide J F)
      → s.merge_buffer ≡ buffer
      → Listens k s
      → Hears k s (merge_tool_call call buffer s) (wire_atoms (tool_call call))
  unfolding merge_tool_call
  call-Hears k call none s e l = starts-Hears k (tool_call call) s e l
  call-Hears k call (some m) s e l = replace-Hears k (tool_call call) s l

  event-Hears :
      (k : ℕ) (m : WireMessage J F) (s : SoulSide J F)
      → Listens k s
      → Hears k s (publish_merged m (flush s)) (wire_atoms m)
  unfolding flush
  event-Hears k m s l =
      let (same, empty, l') = flush_buffer-heard k s.merge_buffer s refl l in
      let (more, l'') = publish_merged-held k m (flush_buffer s.merge_buffer s) l' in
      let said_so_far =
        concat_atoms wire_atoms
          (held (lookup k (publish_merged m (flush_buffer s.merge_buffer s)).merged_queue.store)) in
      let still_empty : (publish_merged m (flush_buffer s.merge_buffer s)).merge_buffer ≡ none =
        unfold publish_merged in empty in
      record {
        more =
            ap (◌++◌ said_so_far) (ap buffered still_empty)
            ∙ append-nil said_so_far
            ∙ more
            ∙ ap (λ w. w ++ wire_atoms m) same;
        still = l'';
      }

  -- The code's dispatch on the kind of message.
  dispatch-Hears :
      (k : ℕ) (m : WireMessage J F) (s : SoulSide J F)
      → Listens k s
      → Hears k s (dispatch m s) (wire_atoms m)
  unfolding dispatch
  dispatch-Hears k (content_part part) s l = content-Hears k part s.merge_buffer s refl l
  dispatch-Hears k (tool_call call) s l = call-Hears k call s.merge_buffer s refl l
  dispatch-Hears k (tool_call_part part) s l = call_part-Hears k part s.merge_buffer s refl l
  dispatch-Hears k other s l = event-Hears k other s l

  pub send-Hears :
      (k : ℕ) (m : WireMessage J F) (s : SoulSide J F)
      → Listens k s
      → Hears k s (send m s) (wire_atoms m)
  unfolding send
  send-Hears k m s l =
      let s' : SoulSide J F = record s { raw_queue = (publish_nowait m s.raw_queue).0 } in
      let h = dispatch-Hears k m s' (record { subscribed = l.subscribed; live = l.live }) in
      record { more = h.more; still = h.still }

  unfoldable pub send_all : List (WireMessage J F) → SoulSide J F → SoulSide J F
  send_all [] s = s
  send_all (m ∷ ms) s = send_all ms (send m s)

  send_all-Hears :
      (k : ℕ) (ms : List (WireMessage J F)) (s : SoulSide J F)
      → Listens k s
      → Hears k s (send_all ms s) (concat_atoms wire_atoms ms)
  unfolding send_all concat_atoms
  send_all-Hears k [] s l = record { more = sym (append-nil (heard k s)); still = l }
  send_all-Hears k (m ∷ ms) s l =
      let first = send-Hears k m s l in
      let rest = send_all-Hears k ms (send m s) first.still in
      record {
        more =
            rest.more
            ∙ ap (λ w. w ++ concat_atoms wire_atoms ms) first.more
            ∙ append_assoc (heard k s) (wire_atoms m) (concat_atoms wire_atoms ms);
        still = rest.still;
      }

  -- Merging loses, adds and reorders nothing: while no listener's queue is shut down, the queue of
  -- a listener on the merged side says, after any messages and a flush, what it and the buffer said
  -- before, followed by what the messages say, character by character and in the order they were sent.
  pub send_all-heard :
      (k : ℕ) (ms : List (WireMessage J F)) (s : SoulSide J F)
      → Listens k s
      → let t = flush (send_all ms s) in
        (concat_atoms wire_atoms (held (lookup k t.merged_queue.store))
          ≡ heard k s ++ concat_atoms wire_atoms ms)
        × (t.merge_buffer ≡ none)
  unfolding flush
  send_all-heard k ms s l =
      let t = send_all ms s in
      let h = send_all-Hears k ms s l in
      let (same, empty, l') = flush_buffer-heard k t.merge_buffer t refl h.still in
      (same ∙ h.more, empty)
