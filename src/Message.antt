-- ===== src/Message.antt =====
-- server/kosong/src/message.rs: chat messages, and the merging of streamed fragments.
-- A text that is concatenated is its list of characters (`Text`); an id or a name, which is only
-- compared, is a `String`. The constant `kind` tags of the structs are left out. `J` is the JSON
-- value type of serde_json.
pub mod Atoms
use rusty_kimi.Common.{ℕ, String, Bool, true, false, List, [], ◌∷◌, ◌++◌, Option, none, some, map}

abbrev pub Text : Type 0
Text = List ℕ

pub record MediaUrl : Type 0 where
  pub url : String
  pub id : Option String

pub data ContentPart : Type 0 where
  text : Text → ContentPart
  think : Text → Option String → ContentPart
  image_url audio_url video_url : MediaUrl → ContentPart

pub record ToolCall (J : Type 0) : Type 0 where
  pub id : String
  pub name : String
  pub arguments : Option Text
  pub extras : Option J

pub data StreamedMessagePart (J : Type 0) : Type 0 where
  content : ContentPart → StreamedMessagePart J
  tool_call : ToolCall J → StreamedMessagePart J
  tool_call_part : Option Text → StreamedMessagePart J

pub data Role : Type 0 where
  system user assistant tool : Role

pub record Message (J : Type 0) : Type 0 where
  pub role : Role
  pub content : List ContentPart
  pub name : Option String
  pub tool_calls : Option (List (ToolCall J))
  pub tool_call_id : Option String
  pub partial : Option Bool

unfoldable pub new : {J : Type 0} → Role → List ContentPart → Message J
new role parts = record {
  role = role;
  content = parts;
  name = none;
  tool_calls = none;
  tool_call_id = none;
  partial = none;
}

-- `merge_in_place` returns whether it merged, and on `false` leaves its receiver as it was: `none`.
unfoldable pub merge_content : ContentPart → ContentPart → Option ContentPart
merge_content (text left) (text right) = some (text (left ++ right))
merge_content (think left (some sealed)) (think right encrypted) = none
merge_content (think left none) (think right encrypted) = some (think (left ++ right) encrypted)
merge_content _ _ = none

-- The merging of arguments, the same in `ToolCall` and in `ToolCallPart`.
unfoldable pub merge_arguments : Option Text → Option Text → Option Text
merge_arguments none other = other
merge_arguments (some args) (some part) = some (args ++ part)
merge_arguments (some args) none = some args

module _ {J : Type 0} where
  unfoldable pub merge_call : ToolCall J → Option Text → ToolCall J
  unfolding merge_arguments
  merge_call call part = record call { arguments = merge_arguments call.arguments part }

  abbrev pub as_content : Option ContentPart → Option (StreamedMessagePart J)
  as_content none = none
  as_content (some part) = some (content part)

  unfoldable pub merge_part :
      StreamedMessagePart J → StreamedMessagePart J → Option (StreamedMessagePart J)
  unfolding merge_content merge_call merge_arguments
  merge_part (content left) (content right) = as_content (merge_content left right)
  merge_part (tool_call left) (tool_call_part right) = some (tool_call (merge_call left right))
  merge_part (tool_call_part left) (tool_call_part right) =
      some (tool_call_part (merge_arguments left right))
  merge_part _ _ = none

-- The texts of the text parts, joined by `sep`.
unfoldable pub texts : List ContentPart → List Text
texts [] = []
texts (text t ∷ parts) = t ∷ texts parts
texts (_ ∷ parts) = texts parts

unfoldable pub join : Text → List Text → Text
join sep [] = []
join sep (t ∷ []) = t
join sep (t ∷ u ∷ ts) = t ++ (sep ++ join sep (u ∷ ts))

unfoldable pub extract_text : {J : Type 0} → Message J → Text → Text
unfolding texts join
extract_text m sep = join sep (texts m.content)
