-- ===== src/Wire/Channel/Atoms.antt =====
-- What the messages of a wire say, and that joining two of them keeps it.
use mathlib.Core.List.{map-append}
use rusty_kimi.Common.{◌≡◌, ◌∙◌, ap, List, [], ◌∷◌, ◌++◌, map, Option, some}
use rusty_kimi.Common.Eq.{nat_eq}
use rusty_kimi.Message.{Text, ContentPart, ToolCall, merge_content, merge_arguments, merge_call}
use rusty_kimi.Message.Atoms.{
  Atom, content_atoms, call_atoms, argument_atoms, content_atoms-merge, argument_atoms-merge,
  call_atoms-merge,
}
use rusty_kimi.Wire.{WireMessage, content_part, tool_call, tool_call_part}

-- What a message says: its fragments character by character, and any other message as a whole.
pub data WireAtom (J F : Type 0) : Type 0 where
  said : Atom J → WireAtom J F
  event : WireMessage J F → WireAtom J F

module _ {J F : Type 0} where
  unfoldable pub wire_atoms : WireMessage J F → List (WireAtom J F)
  wire_atoms (content_part part) = map said (content_atoms part)
  wire_atoms (tool_call call) = map said (call_atoms call)
  wire_atoms (tool_call_part part) = map said (argument_atoms part)
  wire_atoms other = event other ∷ []

  pub content_joined :
      (a b m : ContentPart)
      → merge_content a b ≡ some m
      → wire_atoms (content_part m) ≡ wire_atoms (content_part a) ++ wire_atoms (content_part b)
  unfolding wire_atoms
  content_joined a b m h = ap (map said) (content_atoms-merge a b m h) ∙ map-append said _ _

  pub call_joined :
      (a : ToolCall J) (b : Option Text)
      → wire_atoms (tool_call (merge_call a b))
        ≡ wire_atoms (tool_call a) ++ wire_atoms (tool_call_part b)
  unfolding wire_atoms
  call_joined a b = ap (map said) (call_atoms-merge a b) ∙ map-append said _ _

  pub part_joined :
      (a b : Option Text)
      → wire_atoms (tool_call_part (merge_arguments a b))
        ≡ wire_atoms (tool_call_part a) ++ wire_atoms (tool_call_part b)
  unfolding wire_atoms
  part_joined a b = ap (map said) (argument_atoms-merge a b) ∙ map-append said _ _
