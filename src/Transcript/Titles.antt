-- ===== src/Transcript/Titles.antt =====
-- client/wire-client/src/transcript.rs: the title of a subagent's tab.
use rusty_kimi.Common.{
  ℕ, String, List, [], ◌∷◌, ◌++◌, Option, none, some, length, take, ltb, ◌==◌, ◌>>=◌, if◌then◌else◌,
}
use rusty_kimi.Common.Chars.{trim}
use rusty_kimi.Message.{Text}

-- What serde_json and std::path tell: the value that a text is, the string under one of its keys,
-- and the name of a file without its directories and its extension.
pub record Json : Type 1 where
  pub Value : Type 0
  pub from_str : Text → Option Value
  pub get_str : String → Value → Option Text
  pub file_stem : Text → Option Text

abbrev pub subagent_title_max_chars : ℕ
subagent_title_max_chars = 28

-- `lines().next().unwrap_or("")`, but for a carriage return at its end, which is trimmed next.
unfoldable pub first_line : Text → Text
first_line [] = []
first_line (c ∷ t) = if c == 10 then [] else c ∷ first_line t

unfoldable pub clipped : Text → Option Text
clipped [] = none
clipped (c ∷ line) =
    let title = take subagent_title_max_chars (c ∷ line) in
    some (if ltb (length title) (length (c ∷ line)) then title ++ 8230 ∷ [] else title)

unfoldable pub clip_title : Text → Option Text
unfolding first_line clipped trim
clip_title text = clipped (trim (first_line text))

abbrev pub or_else : Option Text → Option Text → Option Text
or_else none next = next
or_else (some t) next = some t

abbrev pub title_keys : List String
title_keys = "description" ∷ "agent_name" ∷ "subagent_type" ∷ "name" ∷ []

module _ (j : Json) where
  open j use {Value, from_str, get_str, file_stem}

  abbrev pub clipped_key : String → Value → Option Text
  clipped_key key value = do t ← get_str key value; clip_title t

  unfoldable pub first_key : List String → Value → Option Text
  unfolding clip_title
  first_key [] value = none
  first_key (key ∷ keys) value = or_else (clipped_key key value) (first_key keys value)

  abbrev pub clipped_stem : Value → Option Text
  clipped_stem value = do file ← get_str "agent_file" value; stem ← file_stem file; clip_title stem

  unfoldable pub subagent_title : Text → Option Text
  unfolding first_key clip_title
  subagent_title args = do
    value ← from_str args
    or_else (first_key title_keys value) (or_else (clipped_stem value) (clipped_key "prompt" value))
