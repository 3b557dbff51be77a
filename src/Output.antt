-- ===== src/Output.antt =====
-- server/dvadva-agent/src/tools/utils.rs: the output of a tool, cut to a budget of bytes. A text is
-- its list of characters; an operation returns `none` where the code would panic, by cutting a text
-- within a character. Lengths stay far below 2^64.
pub mod Lines
pub mod Cuts
pub mod Budget
pub mod Whole
use rusty_kimi.Common.{
  ℕ, zero, ◌+◌, ◌-◌, min, max, Bool, true, false, not, List, [], ◌∷◌, ◌++◌, Option, none, some,
  length, leb, ◌==◌, ◌&&◌, ◌||◌, ◌>>=◌, if◌then◌else◌,
}
use rusty_kimi.Common.Chars.{codes}
use rusty_kimi.Common.Utf8.{byte_len, split_bytes}
use rusty_kimi.Message.{Text}
use rusty_kimi.Tooling.{DisplayBlock, brief, ToolOutput, plain, ToolReturnValue}

abbrev pub is_crlf : ℕ → Bool
is_crlf c = c == 13 || c == 10

-- What the pattern `[\r\n]+$` finds: all line breaks at the end.
unfoldable pub trailing_breaks : Text → Text
trailing_breaks [] = []
trailing_breaks (c ∷ t) =
    let rest = trailing_breaks t in if is_crlf c && (length rest == length t) then c ∷ t else rest

unfoldable pub truncate_line : Text → ℕ → Text → Option Text
unfolding trailing_breaks
truncate_line line max_length marker =
    let end = marker ++ trailing_breaks line in
    if leb (byte_len line) max_length then some line else do
      (s, _) ← split_bytes (max max_length (byte_len end) - byte_len end) line
      some (s ++ end)

unfoldable pub is_line_break : ℕ → Bool
is_line_break c =
    c == 10
    || c == 13
    || c == 11
    || c == 12
    || c == 28
    || c == 29
    || c == 30
    || c == 133
    || c == 8232
    || c == 8233

abbrev pub last_line : Text → List Text
last_line [] = []
last_line (c ∷ t) = (c ∷ t) ∷ []

-- The loop of `split_lines_keepends`; `line` is the text from `start` on.
unfoldable pub lines_from : Text → Text → List Text
unfolding is_line_break
lines_from line [] = last_line line
lines_from line (c ∷ []) =
    if is_line_break c then (line ++ c ∷ []) ∷ [] else last_line (line ++ c ∷ [])
lines_from line (c ∷ d ∷ t) = elim (is_line_break c) [
  | false ↦ lines_from (line ++ c ∷ []) (d ∷ t)
  | true ↦ elim (c == 13 && d == 10) [
    | true ↦ (line ++ c ∷ d ∷ []) ∷ lines_from [] t
    | false ↦ (line ++ c ∷ []) ∷ lines_from [] (d ∷ t)
  ]
]

unfoldable pub split_lines_keepends : Text → List Text
unfolding lines_from
split_lines_keepends text = lines_from [] text

unfoldable pub concat : List Text → Text
concat [] = []
concat (t ∷ ts) = t ++ concat ts

abbrev pub ends_with : ℕ → Text → Bool
ends_with c [] = false
ends_with c (d ∷ []) = d == c
ends_with c (d ∷ e ∷ t) = ends_with c (e ∷ t)

-- `J` stands for the extra values, as in `ToolReturnValue`.
module _ (J : Type 0) where
  pub record ToolResultBuilder : Type 0 where
    pub max_chars : ℕ
    pub max_line_length : Option ℕ
    pub marker : Text
    pub buffer : List Text
    pub n_chars : ℕ
    pub n_lines : ℕ
    pub truncation : Bool
    pub display : List (DisplayBlock J)
    pub extras : Option J

  abbrev pub default_marker : Text
  default_marker = codes "[...truncated]"

  -- The assertion in `new`.
  abbrev pub admits : Option ℕ → Bool
  admits none = true
  admits (some limit) = not (leb limit (byte_len default_marker))

  abbrev pub new_builder : ℕ → Option ℕ → ToolResultBuilder
  new_builder max_chars max_line_length = record {
    max_chars = max_chars;
    max_line_length = max_line_length;
    marker = default_marker;
    buffer = [];
    n_chars = 0;
    n_lines = 0;
    truncation = false;
    display = [];
    extras = none;
  }

  unfoldable pub new : ℕ → Option ℕ → Option ToolResultBuilder
  new max_chars max_line_length =
      if admits max_line_length then some (new_builder max_chars max_line_length) else none

  unfoldable pub is_full : ToolResultBuilder → Bool
  is_full b = leb b.max_chars b.n_chars

  abbrev pub limit : ℕ → Option ℕ → ℕ
  limit remaining none = remaining
  limit remaining (some max_line) = min remaining max_line

  unfoldable pub push : Text → Text → ToolResultBuilder → ToolResultBuilder
  push line truncated b = record b {
    truncation = if byte_len truncated == byte_len line then b.truncation else true;
    buffer = b.buffer ++ truncated ∷ [];
    n_chars = b.n_chars + byte_len truncated;
    n_lines = if ends_with 10 truncated then b.n_lines + 1 else b.n_lines;
  }

  unfoldable pub write_line : Text → ToolResultBuilder → Option (ToolResultBuilder × ℕ)
  unfolding push truncate_line
  write_line line b = do
    truncated ← truncate_line line (limit (b.max_chars - b.n_chars) b.max_line_length) b.marker
    some (push line truncated b, byte_len truncated)

  -- The loop of `write`, with the bytes written so far.
  unfoldable pub write_lines : List Text → ℕ → ToolResultBuilder → Option (ToolResultBuilder × ℕ)
  unfolding write_line is_full
  write_lines [] written b = some (b, written)
  write_lines (line ∷ lines) written b = elim (is_full b) [
    | true ↦ some (b, written)
    | false ↦ do (b', n) ← write_line line b; write_lines lines (written + n) b'
  ]

  unfoldable pub write : Text → ToolResultBuilder → Option (ToolResultBuilder × ℕ)
  unfolding write_lines split_lines_keepends
  write text b = if is_full b then some (b, 0) else write_lines (split_lines_keepends text) 0 b

  unfoldable pub add_display : List (DisplayBlock J) → ToolResultBuilder → ToolResultBuilder
  add_display blocks b = record b { display = b.display ++ blocks }

  -- `extend` stands for `BTreeMap::extend`.
  abbrev pub extended : (extend : J → J → J) → J → Option J → J
  extended extend new none = new
  extended extend new (some existing) = extend existing new

  unfoldable pub add_extras : (extend : J → J → J) → J → ToolResultBuilder → ToolResultBuilder
  add_extras extend new b = record b { extras = some (extended extend new b.extras) }

  abbrev pub truncation_msg : Text
  truncation_msg = codes "Output is truncated to fit in the message."

  -- The message with the note that the output was cut.
  unfoldable pub noted : Bool → Text → Text
  noted false message = message
  noted true [] = truncation_msg
  noted true (c ∷ t) = (c ∷ t) ++ 32 ∷ truncation_msg

  unfoldable pub full_stop : Text → Text
  full_stop [] = []
  full_stop (c ∷ t) = if ends_with 46 (c ∷ t) then c ∷ t else (c ∷ t) ++ 46 ∷ []

  abbrev pub brief_block : Text → List (DisplayBlock J)
  brief_block [] = []
  brief_block (c ∷ t) = brief (c ∷ t) ∷ []

  unfoldable pub ok : Text → Text → ToolResultBuilder → ToolReturnValue J
  unfolding concat noted full_stop
  ok message short b = record {
    is_error = false;
    output = plain (concat b.buffer);
    message = noted b.truncation (full_stop message);
    display = brief_block short ++ b.display;
    extras = b.extras;
  }

  unfoldable pub error : Text → Text → ToolResultBuilder → ToolReturnValue J
  unfolding concat noted
  error message short b = record {
    is_error = true;
    output = plain (concat b.buffer);
    message = noted b.truncation message;
    display = brief_block short ++ b.display;
    extras = b.extras;
  }
