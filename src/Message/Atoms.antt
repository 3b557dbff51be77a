-- ===== src/Message/Atoms.antt =====
-- What a fragment says, character by character: two streams that differ only in how they cut the text, the
-- thinking and the arguments into fragments have the same atoms.
use mathlib.Core.List.{map-append}
use rusty_kimi.Common.{
  ℕ, String, ◌≡◌, refl, sym, ap, List, [], ◌∷◌, ◌++◌, Option, none, some, map, arith, append-nil,
  append_assoc,
}
use rusty_kimi.Message.{
  Text, MediaUrl, ContentPart, text, think, image_url, audio_url, video_url, ToolCall,
  StreamedMessagePart, content, tool_call, tool_call_part, merge_content, merge_arguments,
  merge_call, merge_part, as_content,
}

pub data Atom (J : Type 0) : Type 0 where
  text_byte think_byte argument_byte : ℕ → Atom J
  sealed : String → Atom J
  image audio video : MediaUrl → Atom J
  opened : (id name : String) → Option J → Atom J

-- The atoms of a list of values, one after the other.
unfoldable pub concat_atoms {ℓ κ} : {A : Type ℓ} {B : Type κ} → (A → List B) → List A → List B
concat_atoms f [] = []
concat_atoms f (x ∷ xs) = f x ++ concat_atoms f xs

pub concat_atoms-append {ℓ κ} :
    {A : Type ℓ} {B : Type κ} (f : A → List B) (xs ys : List A)
    → concat_atoms f (xs ++ ys) ≡ concat_atoms f xs ++ concat_atoms f ys
unfolding concat_atoms
concat_atoms-append f [] ys = refl
concat_atoms-append f (x ∷ xs) ys = rw (concat_atoms-append f xs ys) (sym (append_assoc (f x) _ _))

module _ {J : Type 0} where
  pub seal_atoms : Option String → List (Atom J)
  seal_atoms none = []
  seal_atoms (some e) = sealed e ∷ []

  pub argument_atoms : Option Text → List (Atom J)
  argument_atoms none = []
  argument_atoms (some t) = map argument_byte t

  unfoldable pub content_atoms : ContentPart → List (Atom J)
  unfolding seal_atoms
  content_atoms (text t) = map text_byte t
  content_atoms (think t encrypted) = map think_byte t ++ seal_atoms encrypted
  content_atoms (image_url m) = image m ∷ []
  content_atoms (audio_url m) = audio m ∷ []
  content_atoms (video_url m) = video m ∷ []

  unfoldable pub call_atoms : ToolCall J → List (Atom J)
  unfolding argument_atoms
  call_atoms c = opened c.id c.name c.extras ∷ argument_atoms c.arguments

  unfoldable pub part_atoms : StreamedMessagePart J → List (Atom J)
  unfolding content_atoms call_atoms
  part_atoms (content c) = content_atoms c
  part_atoms (tool_call c) = call_atoms c
  part_atoms (tool_call_part p) = argument_atoms p

  pub argument_atoms-merge :
      (a b : Option Text)
      → argument_atoms (merge_arguments a b) ≡ argument_atoms a ++ argument_atoms b
  unfolding argument_atoms merge_arguments
  argument_atoms-merge none b = refl
  argument_atoms-merge (some a) none = sym (append-nil _)
  argument_atoms-merge (some a) (some b) = map-append argument_byte a b

  pub call_atoms-merge :
      (a : ToolCall J) (b : Option Text)
      → call_atoms (merge_call a b) ≡ call_atoms a ++ argument_atoms b
  unfolding call_atoms merge_call
  call_atoms-merge a b = ap (◌∷◌ (opened a.id a.name a.extras)) (argument_atoms-merge a.arguments b)

  -- A merge of two content fragments says what the two said.
  pub content_atoms-merge :
      (a b c : ContentPart)
      → merge_content a b ≡ some c
      → content_atoms c ≡ content_atoms a ++ content_atoms b
  unfolding content_atoms merge_content
  content_atoms-merge (text a) (text b) c h = ground (arith, map-append {B = Atom J} text_byte a b)
  content_atoms-merge (think a none) (think b e) c h = ground (
    arith,
    map-append {B = Atom J} think_byte a b,
    append_assoc (map think_byte a) (map think_byte b) (seal_atoms e),
    append-nil {A = Atom J} (map think_byte a),
  )
  content_atoms-merge (think a (some s)) (think b e) c h = cc
  content_atoms-merge _ _ c h = cc

  pub as_content-eq-some :
      (r : Option ContentPart) (c : StreamedMessagePart J)
      → as_content r ≡ some c
      → (m : ContentPart) × (r ≡ some m) × (content m ≡ c)
  as_content-eq-some none c h = cc
  as_content-eq-some (some m) c h = (m, refl, cc)

  pub part_atoms-merge :
      (a b c : StreamedMessagePart J)
      → merge_part a b ≡ some c
      → part_atoms c ≡ part_atoms a ++ part_atoms b
  unfolding part_atoms merge_part
  part_atoms-merge (content a) (content b) c h =
      let (m, merged, e) = as_content-eq-some (merge_content a b) c h in
      rw (← e) (content_atoms-merge a b m merged)
  part_atoms-merge (tool_call a) (tool_call_part b) c h =
      ground (arith, argument_atoms-merge a.arguments b)
  part_atoms-merge (tool_call_part a) (tool_call_part b) c h =
      ground (arith, argument_atoms-merge a b)
  part_atoms-merge _ _ c h = cc
