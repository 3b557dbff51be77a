-- ===== src/Tests/Commands.antt =====
-- Slash commands registered and called.
use rusty_kimi.Common.{ℕ, ◌≡◌, ◌↔◌, refl, [], ◌∷◌, none, some}
use rusty_kimi.Common.Eq.{string_eq}
use rusty_kimi.Common.Chars.{codes, trim, trim_start, is_whitespace}
use rusty_kimi.Slash.{
  SlashCommandCall, is_name, starts_name, take_name, ends_word, parse_slash_command_call,
}
use rusty_kimi.Slash.Names.{Registration}
use rusty_kimi.Slash.Calls.{IsCall, parse_slash_command_call-IsCall}

abbrev help : Registration ℕ
help = record { name = "help"; description = codes "Show help"; func = 1; aliases = "h" ∷ "?" ∷ [] }

abbrev history : Registration ℕ
history = record {
  name = "history";
  description = codes "Show history";
  func = 2;
  aliases = "h" ∷ [];
}

abbrev flow_call : SlashCommandCall
flow_call = record {
  name = codes "flow:a-b";
  args = codes "x y";
  raw_input = codes "/flow:a-b  x y";
}

call_read : parse_slash_command_call (codes " /flow:a-b  x y ") ≡ some flow_call
unfolding parse_slash_command_call trim trim_start is_whitespace is_name starts_name take_name
    ends_word
call_read = refl

path_refused : parse_slash_command_call (codes "/usr/bin") ≡ none
unfolding parse_slash_command_call trim trim_start is_whitespace is_name starts_name take_name
    ends_word
path_refused = refl

-- A colon that no word follows is not part of the name.
colon_refused : parse_slash_command_call (codes "/flow: x") ≡ none
unfolding parse_slash_command_call trim trim_start is_whitespace is_name starts_name take_name
    ends_word
colon_refused = refl

parse_slash_command_call-IsCall_example :
    (parse_slash_command_call (codes " /flow:a-b  x y ") ≡ some flow_call)
    ↔ IsCall (trim (codes " /flow:a-b  x y ")) flow_call
parse_slash_command_call-IsCall_example =
    parse_slash_command_call-IsCall (codes " /flow:a-b  x y ") flow_call
