-- ===== src/Transcript/Idle.antt =====
-- Changes of blocks that start no call.
use rusty_kimi.Common.{
  String, ◌≡◌, refl, ◌∙◌, Bool, true, false, List, [], ◌∷◌, ◌++◌, map, Option, none, some, arith,
  Bool-cases, Option-cases, inl, inr,
}
use rusty_kimi.Common.Chars.{codes}
use rusty_kimi.Common.Eq.{string_eq, ◌=?◌}
use rusty_kimi.Message.{
  Text, ContentPart, text, think, image_url, audio_url, video_url, ToolCall, merge_call,
}
use rusty_kimi.Tooling.{ToolReturnValue}
use rusty_kimi.Wire.{ApprovalResponseKind, WireMessage}
use rusty_kimi.Transcript.{
  SubagentSummary, Block, user, assistant, thinking, info, call, approval, update_last, Transcript,
  made, updated, blocks_of, say, ponder, apply_content_part, is_live, abandon, any_live,
  merge_fragment, set_result, answer, counted, summary_of, count_event, kept_or,
}

module _ (J F : Type 0) where
  -- No call is shown as running.
  abbrev pub Idle : List (Block J F) → Type 0
  Idle bs = any_live J F bs ≡ false

  pub Idle-snoc :
      (bs : List (Block J F)) (b : Block J F)
      → is_live J F b ≡ false
      → Idle bs
      → Idle (bs ++ b ∷ [])
  Idle-snoc [] b h i = ground (arith, h)
  Idle-snoc (x ∷ bs) b h i = ground (arith, i, Idle-snoc bs b h (ground (arith, i)))

  Idle-say : (t : Text) (bs : List (Block J F)) → Idle bs → Idle (say J F t bs)
  unfolding say
  Idle-say t [] i = refl
  Idle-say t (assistant u ∷ []) i = refl
  Idle-say t (thinking u ∷ []) i = refl
  Idle-say t (user u s ∷ []) i = refl
  Idle-say t (info u ∷ []) i = refl
  Idle-say t (call c r s a ∷ []) i = Idle-snoc (call c r s a ∷ []) (assistant t) refl i
  Idle-say t (approval x r ∷ []) i = refl
  Idle-say t (b ∷ c ∷ bs) i = ground (arith, i, Idle-say t (c ∷ bs) (ground (arith, i)))

  Idle-ponder : (t : Text) (bs : List (Block J F)) → Idle bs → Idle (ponder J F t bs)
  unfolding ponder
  Idle-ponder t [] i = refl
  Idle-ponder t (assistant u ∷ []) i = refl
  Idle-ponder t (thinking u ∷ []) i = refl
  Idle-ponder t (user u s ∷ []) i = refl
  Idle-ponder t (info u ∷ []) i = refl
  Idle-ponder t (call c r s a ∷ []) i = Idle-snoc (call c r s a ∷ []) (thinking t) refl i
  Idle-ponder t (approval x r ∷ []) i = refl
  Idle-ponder t (b ∷ c ∷ bs) i = ground (arith, i, Idle-ponder t (c ∷ bs) (ground (arith, i)))

  pub Idle-part :
      (p : ContentPart) (bs : List (Block J F)) → Idle bs → Idle (apply_content_part J F p bs)
  unfolding apply_content_part
  Idle-part (text t) bs i = Idle-say t bs i
  Idle-part (think t e) bs i = Idle-ponder t bs i
  Idle-part (image_url m) bs i = Idle-snoc bs (info (codes "[image]")) refl i
  Idle-part (audio_url m) bs i = Idle-snoc bs (info (codes "[audio]")) refl i
  Idle-part (video_url m) bs i = Idle-snoc bs (info (codes "[video]")) refl i

  is_live-abandon : (b : Block J F) → is_live J F (abandon J F b) ≡ false
  is_live-abandon (user t s) = refl
  is_live-abandon (assistant t) = refl
  is_live-abandon (thinking t) = refl
  is_live-abandon (info t) = refl
  is_live-abandon (approval x r) = refl
  is_live-abandon (call c (some r) s a) = refl
  is_live-abandon (call c none s true) = refl
  is_live-abandon (call c none s false) = refl

  pub Idle-abandon : (bs : List (Block J F)) → Idle (map (abandon J F) bs)
  Idle-abandon [] = refl
  Idle-abandon (b ∷ bs) = ground (arith, is_live-abandon b, Idle-abandon bs)

  -- What a search from the end does to a block that is not live leaves it so.
  abbrev Settles : (Block J F → Option (Block J F)) → Type 0
  Settles f = (b b' : Block J F) → is_live J F b ≡ false → f b ≡ some b' → is_live J F b' ≡ false

  Idle-update_last :
      (f : Block J F → Option (Block J F))
      → Settles f
      → (bs bs' : List (Block J F)) → Idle bs
      → update_last f bs ≡ some bs'
      → Idle bs'
  unfolding update_last
  Idle-update_last f settles [] bs' i h = absurd (cc h)
  Idle-update_last f settles (b ∷ bs) bs' i h = elim (Option-cases (update_last f bs)) [
    | inr (cs, later) ↦
        let same : b ∷ cs ≡ bs' = cc (later, h) in
        let rest = Idle-update_last f settles bs cs (ground (arith, i)) later in
        rw (← same) (ground (arith, i, rest))
    | inl nowhere ↦ elim (Option-cases (f b)) [
      | inl refused ↦ absurd (cc (nowhere, refused, h))
      | inr (c, taken) ↦
          let same : c ∷ bs ≡ bs' = cc (nowhere, taken, h) in
          rw (← same) (ground (arith, i, settles b c (ground (arith, i)) taken))
    ]
  ]

  pub Idle-updated :
      (f : Block J F → Option (Block J F)) (t : Transcript J F)
      → Settles f
      → Idle (blocks_of J F t)
      → Idle (blocks_of J F (updated J F t (update_last f (blocks_of J F t))).0)
  Idle-updated f (made bs s u v) settles i = elim (Option-cases (update_last f bs)) [
    | inl refused ↦ rw (refused) i
    | inr (bs', taken) ↦ rw (taken) (Idle-update_last f settles bs bs' i taken)
  ]

  pub Settles-merge_fragment : (part : Option Text) → Settles (merge_fragment J F part)
  Settles-merge_fragment part (call c none s true) b' d h =
      let same : call (merge_call c part) none s true ≡ b' = cc h in rw (← same) refl
  Settles-merge_fragment part (call c none s false) b' d h = absurd (cc d)
  Settles-merge_fragment part (call c (some r) s a) b' d h = absurd (cc h)
  Settles-merge_fragment part (user t s) b' d h = absurd (cc h)
  Settles-merge_fragment part (assistant t) b' d h = absurd (cc h)
  Settles-merge_fragment part (thinking t) b' d h = absurd (cc h)
  Settles-merge_fragment part (info t) b' d h = absurd (cc h)
  Settles-merge_fragment part (approval x r) b' d h = absurd (cc h)

  pub Settles-set_result :
      (id : String) (value : ToolReturnValue J) → Settles (set_result J F id value)
  Settles-set_result id value (call c none s a) b' d h = elim (Bool-cases (c.id =? id)) [
    | inl same ↦ let it : call c (some value) s a ≡ b' = cc (same, h) in rw (← it) refl
    | inr other ↦ absurd (cc (other, h))
  ]
  Settles-set_result id value (call c (some r) s a) b' d h = absurd (cc h)
  Settles-set_result id value (user t s) b' d h = absurd (cc h)
  Settles-set_result id value (assistant t) b' d h = absurd (cc h)
  Settles-set_result id value (thinking t) b' d h = absurd (cc h)
  Settles-set_result id value (info t) b' d h = absurd (cc h)
  Settles-set_result id value (approval x r) b' d h = absurd (cc h)

  pub Settles-answer : (id : String) (k : ApprovalResponseKind) → Settles (answer J F id k)
  Settles-answer id k (approval x r) b' d h = elim (Bool-cases (x.request_id =? id)) [
    | inl same ↦ let it : approval x (some k) ≡ b' = cc (same, h) in rw (← it) refl
    | inr other ↦ absurd (cc (other, h))
  ]
  Settles-answer id k (call c r s a) b' d h = absurd (cc h)
  Settles-answer id k (user t s) b' d h = absurd (cc h)
  Settles-answer id k (assistant t) b' d h = absurd (cc h)
  Settles-answer id k (thinking t) b' d h = absurd (cc h)
  Settles-answer id k (info t) b' d h = absurd (cc h)

  is_live-summary :
      (c : ToolCall J) (r : Option (ToolReturnValue J)) (s s' : Option SubagentSummary) (a : Bool)
      → is_live J F (call c r s a) ≡ is_live J F (call c r s' a)
  is_live-summary c none s s' true = refl
  is_live-summary c none s s' false = refl
  is_live-summary c (some r) s s' a = refl

  Settles-count_event : (id : String) (m : WireMessage J F) → Settles (count_event J F id m)
  Settles-count_event id m (call c r s a) b' d h = elim (Bool-cases (c.id =? id)) [
    | inl same ↦
        let next = some (counted J F m (summary_of J F s)) in
        let it : call c r next a ≡ b' = cc (same, h) in rw (← it) (is_live-summary c r next s a ∙ d)
    | inr other ↦ absurd (cc (other, h))
  ]
  Settles-count_event id m (approval x r) b' d h = absurd (cc h)
  Settles-count_event id m (user t s) b' d h = absurd (cc h)
  Settles-count_event id m (assistant t) b' d h = absurd (cc h)
  Settles-count_event id m (thinking t) b' d h = absurd (cc h)
  Settles-count_event id m (info t) b' d h = absurd (cc h)

  pub Idle-count_event :
      (id : String) (m : WireMessage J F) (bs : List (Block J F))
      → Idle bs
      → Idle (kept_or J F bs (update_last (count_event J F id m) bs))
  Idle-count_event id m bs i = elim (Option-cases (update_last (count_event J F id m) bs)) [
    | inl refused ↦ rw (refused) i
    | inr (bs', taken) ↦
        rw (taken)
          (Idle-update_last (count_event J F id m) (Settles-count_event id m) bs bs' i taken)
  ]
