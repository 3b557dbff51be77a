-- ===== src/Transcript/Words.antt =====
-- What a block says, and what an event says.
use rusty_kimi.Common.{
  ℕ, String, ◌≡◌, refl, ap, true, false, List, [], ◌∷◌, ◌++◌, map, Option, none, some, Bool-cases,
  Option-cases, inl, inr,
}
use rusty_kimi.Common.Eq.{string_eq, ◌=?◌}
use rusty_kimi.Message.Atoms.{concat_atoms}
use rusty_kimi.Message.{Text, ContentPart, text, think, merge_call}
use rusty_kimi.Tooling.{ToolReturnValue}
use rusty_kimi.Wire.{ApprovalResponseKind, WireMessage, content_part}
use rusty_kimi.Transcript.{
  Block, user, assistant, thinking, info, call, approval, update_last, abandon, merge_fragment,
  set_result, answer, counted, summary_of, count_event,
}

pub data Word : Type 0 where
  spoken thought : ℕ → Word

module _ {ℓ} {A : Type ℓ} where
  -- A change by `update_last` keeps what a function of the elements that `f` keeps.
  pub concat_atoms-update_last {κ} :
      {B : Type κ} (g : A → List B) (f : A → Option A)
      → ((x x' : A) → f x ≡ some x' → g x' ≡ g x)
      → (xs xs' : List A) → update_last f xs ≡ some xs'
      → concat_atoms g xs' ≡ concat_atoms g xs
  unfolding update_last concat_atoms
  concat_atoms-update_last g f keeps [] xs' h = absurd (cc h)
  concat_atoms-update_last g f keeps (x ∷ xs) xs' h = elim (Option-cases (update_last f xs)) [
    | inr (ys, later) ↦
        let same : x ∷ ys ≡ xs' = cc (later, h) in
        rw (← same) (ap (λ w. g x ++ w) (concat_atoms-update_last g f keeps xs ys later))
    | inl nowhere ↦ elim (Option-cases (f x)) [
      | inl refused ↦ absurd (cc (nowhere, refused, h))
      | inr (y, taken) ↦
          let same : y ∷ xs ≡ xs' = cc (nowhere, taken, h) in
          rw (← same) (ap (λ w. w ++ concat_atoms g xs) (keeps x y taken))
    ]
  ]

abbrev pub part_words : ContentPart → List Word
part_words (text t) = map spoken t
part_words (think t _) = map thought t
part_words _ = []

module _ (J F : Type 0) where
  abbrev pub words : Block J F → List Word
  words (assistant t) = map spoken t
  words (thinking t) = map thought t
  words _ = []

  abbrev pub tells : WireMessage J F → List Word
  tells (content_part p) = part_words p
  tells _ = []

  pub words-abandon : (b : Block J F) → words (abandon J F b) ≡ words b
  words-abandon (user t s) = refl
  words-abandon (assistant t) = refl
  words-abandon (thinking t) = refl
  words-abandon (info t) = refl
  words-abandon (approval i r) = refl
  words-abandon (call c (some r) s a) = refl
  words-abandon (call c none s true) = refl
  words-abandon (call c none s false) = refl

  -- What the searches from the end do to a block leaves its words.
  pub words-merge_fragment :
      (part : Option Text) (b b' : Block J F)
      → merge_fragment J F part b ≡ some b'
      → words b' ≡ words b
  words-merge_fragment part (call c none s a) b' h =
      let same : call (merge_call c part) none s a ≡ b' = cc h in rw (← same) refl
  words-merge_fragment part (call c (some r) s a) b' h = absurd (cc h)
  words-merge_fragment part (user t s) b' h = absurd (cc h)
  words-merge_fragment part (assistant t) b' h = absurd (cc h)
  words-merge_fragment part (thinking t) b' h = absurd (cc h)
  words-merge_fragment part (info t) b' h = absurd (cc h)
  words-merge_fragment part (approval i r) b' h = absurd (cc h)

  pub words-set_result :
      (id : String) (value : ToolReturnValue J) (b b' : Block J F)
      → set_result J F id value b ≡ some b'
      → words b' ≡ words b
  words-set_result id value (call c none s a) b' h = elim (Bool-cases (c.id =? id)) [
    | inl same ↦ let made_it : call c (some value) s a ≡ b' = cc (same, h) in rw (← made_it) refl
    | inr other ↦ absurd (cc (other, h))
  ]
  words-set_result id value (call c (some r) s a) b' h = absurd (cc h)
  words-set_result id value (user t s) b' h = absurd (cc h)
  words-set_result id value (assistant t) b' h = absurd (cc h)
  words-set_result id value (thinking t) b' h = absurd (cc h)
  words-set_result id value (info t) b' h = absurd (cc h)
  words-set_result id value (approval i r) b' h = absurd (cc h)

  pub words-answer :
      (id : String) (k : ApprovalResponseKind) (b b' : Block J F)
      → answer J F id k b ≡ some b'
      → words b' ≡ words b
  words-answer id k (approval i r) b' h = elim (Bool-cases (i.request_id =? id)) [
    | inl same ↦ let made_it : approval i (some k) ≡ b' = cc (same, h) in rw (← made_it) refl
    | inr other ↦ absurd (cc (other, h))
  ]
  words-answer id k (call c r s a) b' h = absurd (cc h)
  words-answer id k (user t s) b' h = absurd (cc h)
  words-answer id k (assistant t) b' h = absurd (cc h)
  words-answer id k (thinking t) b' h = absurd (cc h)
  words-answer id k (info t) b' h = absurd (cc h)

  pub words-count_event :
      (id : String) (m : WireMessage J F) (b b' : Block J F)
      → count_event J F id m b ≡ some b'
      → words b' ≡ words b
  words-count_event id m (call c r s a) b' h = elim (Bool-cases (c.id =? id)) [
    | inl same ↦
        let made_it : call c r (some (counted J F m (summary_of J F s))) a ≡ b' = cc (same, h) in
        rw (← made_it) refl
    | inr other ↦ absurd (cc (other, h))
  ]
  words-count_event id m (approval i r) b' h = absurd (cc h)
  words-count_event id m (user t s) b' h = absurd (cc h)
  words-count_event id m (assistant t) b' h = absurd (cc h)
  words-count_event id m (thinking t) b' h = absurd (cc h)
  words-count_event id m (info t) b' h = absurd (cc h)
