-- ===== src/Slash.antt =====
-- server/dvadva-agent/src/utils/slashcmd.rs: the slash commands, by name and alias, and the reading
-- of a call. `F` stands for the functions that carry commands out.
pub mod Names
pub mod Calls
use rusty_kimi.Common.{
  ℕ, String, Bool, true, false, List, [], ◌∷◌, ◌++◌, Option, none, some, ◌==◌, leb, ◌&&◌, ◌||◌,
  if◌then◌else◌,
}
use rusty_kimi.Common.Eq.{string_eq}
use rusty_kimi.Common.Dict.{Dict, lookup, insert}
use rusty_kimi.Common.Chars.{is_whitespace, trim_start, trim}
use rusty_kimi.Message.{Text}

module _ (F : Type 0) where
  pub record SlashCommand : Type 0 where
    pub name : String
    pub description : Text
    pub func : F
    pub aliases : List String

  pub record SlashCommandRegistry : Type 0 where
    pub commands : Dict String SlashCommand
    pub aliases : Dict String SlashCommand

  abbrev pub new : SlashCommandRegistry
  new = record { commands = []; aliases = [] }

  -- The loop over the aliases.
  unfoldable pub insert_each :
      List String → SlashCommand → Dict String SlashCommand → Dict String SlashCommand
  unfolding insert
  insert_each [] cmd m = m
  insert_each (alias ∷ rest) cmd m = insert_each rest cmd (insert alias cmd m)

  abbrev pub command : String → Text → F → List String → SlashCommand
  unfolding trim
  command name description func aliases = record {
    name = name;
    description = trim description;
    func = func;
    aliases = aliases;
  }

  unfoldable pub register :
      String → Text → F → List String → SlashCommandRegistry → SlashCommandRegistry
  unfolding command insert insert_each
  register name description func aliases r =
      let cmd = command name description func aliases in
      record {
        commands = insert name cmd r.commands;
        aliases = insert_each aliases cmd (insert name cmd r.aliases);
      }

  unfoldable pub find_command : String → SlashCommandRegistry → Option SlashCommand
  unfolding lookup
  find_command name r = lookup name r.aliases

pub record SlashCommandCall : Type 0 where
  pub name : Text
  pub args : Text
  pub raw_input : Text

-- The class `[a-zA-Z0-9_-]`.
unfoldable pub is_name : ℕ → Bool
is_name c =
    (leb 97 c && leb c 122)
    || (leb 65 c && leb c 90)
    || (leb 48 c && leb c 57)
    || c == 95
    || c == 45

unfoldable pub starts_name : Text → Bool
unfolding is_name
starts_name [] = false
starts_name (c ∷ t) = is_name c

abbrev pub first_with : ℕ → Text × Text → Text × Text
first_with c (s, t) = (c ∷ s, t)

-- What the pattern's group takes, of a text that starts with a character of the class, and the rest.
unfoldable pub take_name : Text → Text × Text
unfolding is_name starts_name
take_name [] = ([], [])
take_name (c ∷ t) =
    let more = first_with c (take_name t) in
    if is_name c || (c == 58 && starts_name t) then more else ([], c ∷ t)

unfoldable pub ends_word : Text → Bool
unfolding is_whitespace
ends_word [] = true
ends_word (c ∷ t) = is_whitespace c

unfoldable pub call_from : Text → Text × Text → Option SlashCommandCall
unfolding ends_word trim_start
call_from raw (name, rest) =
    if ends_word rest
    then some (record { name = name; args = trim_start rest; raw_input = raw })
    else none

unfoldable pub parse_trimmed : Text → Option SlashCommandCall
unfolding starts_name take_name call_from
parse_trimmed [] = none
parse_trimmed (c ∷ t) = if c == 47 && starts_name t then call_from (c ∷ t) (take_name t) else none

unfoldable pub parse_slash_command_call : Text → Option SlashCommandCall
unfolding parse_trimmed trim
parse_slash_command_call user_input = parse_trimmed (trim user_input)
