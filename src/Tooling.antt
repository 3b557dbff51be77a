-- ===== src/Tooling.antt =====
-- server/kosong/src/tooling/mod.rs: what a tool returns, and how it is displayed.
use rusty_kimi.Common.{String, Bool, List, [], ◌∷◌, Option}
use rusty_kimi.Message.{Text, ContentPart}

pub record TodoDisplayItem : Type 0 where
  pub title : String
  pub status : String

pub data DisplayBlock (J : Type 0) : Type 0 where
  brief : Text → DisplayBlock J
  diff : (path : String) → (old_text new_text : Text) → DisplayBlock J
  todo : List TodoDisplayItem → DisplayBlock J
  shell : (language command : String) → DisplayBlock J
  unknown : (kind : String) → J → DisplayBlock J

pub data ToolOutput : Type 0 where
  plain : Text → ToolOutput
  parts : List ContentPart → ToolOutput

pub record ToolReturnValue (J : Type 0) : Type 0 where
  pub is_error : Bool
  pub output : ToolOutput
  pub message : Text
  pub display : List (DisplayBlock J)
  pub extras : Option J

-- `ToolReturnValue::brief`: the text of the first brief block, or the empty text.
unfoldable pub brief_of : {J : Type 0} → List (DisplayBlock J) → Text
brief_of [] = []
brief_of (brief t ∷ blocks) = t
brief_of (_ ∷ blocks) = brief_of blocks
