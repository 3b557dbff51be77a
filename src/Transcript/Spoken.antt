-- ===== src/Transcript/Spoken.antt =====
-- What the blocks say, and what the events said.
use mathlib.Core.List.{map-append}
use rusty_kimi.Common.{
  String, ◌≡◌, refl, sym, ◌∙◌, ap, true, false, List, [], ◌∷◌, ◌++◌, map, Option, none, some,
  Option-cases, inl, inr, append_assoc, append-nil,
}
use rusty_kimi.Common.Chars.{codes}
use rusty_kimi.Common.Eq.{string_eq}
use rusty_kimi.Message.Atoms.{concat_atoms, concat_atoms-append}
use rusty_kimi.Message.{Text, ContentPart, text, think, image_url, audio_url, video_url}
use rusty_kimi.Wire.{
  WireMessage, turn_begin, turn_end, steer_input, step_begin, step_interrupted, compaction_begin,
  compaction_end, status_update, content_part, tool_call, tool_call_part, tool_result,
  approval_response, subagent_event, approval_request, tool_call_request, notification,
}
use rusty_kimi.Transcript.{
  Block, user, assistant, thinking, info, call, approval, user_input_text, update_last, Transcript,
  made, updated, blocks_of, say, ponder, apply_content_part, abandon, abandon_open_tool_calls,
  merge_fragment, set_result, answer, count_event, kept_or,
}
use rusty_kimi.Transcript.Titles.{Json}
use rusty_kimi.Transcript.Events.{
  bump, bump-blocks, apply_subagent, with_status, apply_event_inner, apply_event, replay,
}
use rusty_kimi.Transcript.Words.{
  Word, spoken, thought, concat_atoms-update_last, words, part_words, tells, words-abandon,
  words-merge_fragment, words-set_result, words-answer, words-count_event,
}

module _ (J F : Type 0) (json : Json) where
  abbrev pub said : List (Block J F) → List Word
  said = concat_atoms (words J F)

  said-snoc : (bs : List (Block J F)) (b : Block J F) → said (bs ++ b ∷ []) ≡ said bs ++ words J F b
  unfolding concat_atoms
  said-snoc bs b =
      concat_atoms-append (words J F) bs (b ∷ [])
      ∙ ap (λ w. said bs ++ w) (append-nil (words J F b))

  said-quiet :
      (bs : List (Block J F)) (b : Block J F)
      → words J F b ≡ []
      → said (bs ++ b ∷ []) ≡ said bs ++ []
  said-quiet bs b h = rw (said-snoc bs b) (rw (h) refl)

  said-say : (t : Text) (bs : List (Block J F)) → said (say J F t bs) ≡ said bs ++ map spoken t
  unfolding say concat_atoms
  said-say t [] = append-nil (map spoken t)
  said-say t (assistant u ∷ []) =
      rw (append-nil (map spoken (u ++ t))) (rw (append-nil (map spoken u)) (map-append spoken u t))
  said-say t (thinking u ∷ []) =
      rw (append-nil (map spoken t)) (rw (append-nil (map thought u)) refl)
  said-say t (user u s ∷ []) = append-nil (map spoken t)
  said-say t (info u ∷ []) = append-nil (map spoken t)
  said-say t (call c r s a ∷ []) = append-nil (map spoken t)
  said-say t (approval i r ∷ []) = append-nil (map spoken t)
  said-say t (b ∷ c ∷ bs) =
      rw (said-say t (c ∷ bs)) (sym (append_assoc (words J F b) (said (c ∷ bs)) (map spoken t)))

  said-ponder :
      (t : Text) (bs : List (Block J F)) → said (ponder J F t bs) ≡ said bs ++ map thought t
  unfolding ponder concat_atoms
  said-ponder t [] = append-nil (map thought t)
  said-ponder t (assistant u ∷ []) =
      rw (append-nil (map thought t)) (rw (append-nil (map spoken u)) refl)
  said-ponder t (thinking u ∷ []) =
      rw (append-nil (map thought (u ++ t)))
        (rw (append-nil (map thought u)) (map-append thought u t))
  said-ponder t (user u s ∷ []) = append-nil (map thought t)
  said-ponder t (info u ∷ []) = append-nil (map thought t)
  said-ponder t (call c r s a ∷ []) = append-nil (map thought t)
  said-ponder t (approval i r ∷ []) = append-nil (map thought t)
  said-ponder t (b ∷ c ∷ bs) =
      rw (said-ponder t (c ∷ bs)) (sym (append_assoc (words J F b) (said (c ∷ bs)) (map thought t)))

  said-part :
      (p : ContentPart) (bs : List (Block J F))
      → said (apply_content_part J F p bs) ≡ said bs ++ part_words p
  unfolding apply_content_part
  said-part (text t) bs = said-say t bs
  said-part (think t e) bs = said-ponder t bs
  said-part (image_url m) bs = said-quiet bs (info (codes "[image]")) refl
  said-part (audio_url m) bs = said-quiet bs (info (codes "[audio]")) refl
  said-part (video_url m) bs = said-quiet bs (info (codes "[video]")) refl

  said-abandon : (bs : List (Block J F)) → said (map (abandon J F) bs) ≡ said bs
  unfolding concat_atoms
  said-abandon [] = refl
  said-abandon (b ∷ bs) = rw (said-abandon bs) (ap (λ w. w ++ said bs) (words-abandon J F b))

  said-updated :
      (f : Block J F → Option (Block J F)) (t : Transcript J F)
      → ((b b' : Block J F) → f b ≡ some b' → words J F b' ≡ words J F b)
      → said (blocks_of J F (updated J F t (update_last f (blocks_of J F t))).0)
        ≡ said (blocks_of J F t) ++ []
  said-updated f (made bs s u v) keeps = elim (Option-cases (update_last f bs)) [
    | inl refused ↦ rw (refused) (sym (append-nil (said bs)))
    | inr (bs', taken) ↦
        rw (taken)
          (concat_atoms-update_last (words J F) f keeps bs bs' taken ∙ sym (append-nil (said bs)))
  ]

  said-count_event :
      (id : String) (m : WireMessage J F) (bs : List (Block J F))
      → said (kept_or J F bs (update_last (count_event J F id m) bs)) ≡ said bs ++ []
  said-count_event id m bs = elim (Option-cases (update_last (count_event J F id m) bs)) [
    | inl refused ↦ rw (refused) (sym (append-nil (said bs)))
    | inr (bs', taken) ↦ rw (taken) (
        concat_atoms-update_last (words J F) (count_event J F id m) (words-count_event J F id m) bs
          bs' taken
        ∙ sym (append-nil (said bs)))
  ]

  inner-said :
      (m : WireMessage J F) (t : Transcript J F)
      → said (blocks_of J F (apply_event_inner J F json m t).0)
        ≡ said (blocks_of J F t) ++ (tells J F) m
  unfolding apply_event_inner abandon_open_tool_calls with_status apply_subagent
  inner-said (turn_begin i) (made bs s u v) = said-quiet bs (user (user_input_text i) false) refl
  inner-said (steer_input i) (made bs s u v) = said-quiet bs (user (user_input_text i) true) refl
  inner-said turn_end (made bs s u v) = said-abandon bs ∙ sym (append-nil (said bs))
  inner-said (step_begin n) t = sym (append-nil (said (blocks_of J F t)))
  inner-said step_interrupted (made bs s u v) =
      said-quiet (map (abandon J F) bs) (info (codes "step interrupted")) refl
      ∙ ap (λ w. w ++ []) (said-abandon bs)
  inner-said compaction_begin (made bs s u v) =
      said-quiet bs (info (codes "compacting context...")) refl
  inner-said compaction_end (made bs s u v) = said-quiet bs (info (codes "context compacted")) refl
  inner-said (status_update x) (made bs s u v) = sym (append-nil (said bs))
  inner-said (content_part p) (made bs s u v) = said-part p bs
  inner-said (tool_call c) (made bs s u v) = said-quiet bs (call c none none false) refl
  inner-said (tool_call_part part) t =
      said-updated (merge_fragment J F part) t (words-merge_fragment J F part)
  inner-said (tool_result id value) t =
      said-updated (set_result J F id value) t (words-set_result J F id value)
  inner-said (subagent_event id m) (made bs s u v) = said-count_event id m bs
  inner-said (notification n) (made bs s u v) =
      said-quiet bs (info (n.title ++ (codes ": " ++ n.body))) refl
  inner-said (approval_response id k) t = said-updated (answer J F id k) t (words-answer J F id k)
  inner-said (approval_request r) t = sym (append-nil (said (blocks_of J F t)))
  inner-said (tool_call_request i n a) t = sym (append-nil (said (blocks_of J F t)))

  -- What the assistant says and thinks in the blocks after any events is what it said and thought
  -- before, followed by what the events say and think, character by character and in order, however
  -- the text was cut and whatever came between.
  pub replay-said :
      (ms : List (WireMessage J F)) (t : Transcript J F)
      → said (blocks_of J F (replay J F json ms t))
        ≡ said (blocks_of J F t) ++ concat_atoms (tells J F) ms
  unfolding concat_atoms apply_event
  replay-said [] t = sym (append-nil (said (blocks_of J F t)))
  replay-said (m ∷ ms) t =
      let inner = apply_event_inner J F json m t in
      rw (replay-said ms (bump J F json inner).0) (
        rw (bump-blocks J F json inner) (
          rw (inner-said m t)
            (append_assoc (said (blocks_of J F t)) ((tells J F) m) (concat_atoms (tells J F) ms))))
