-- ===== src/Tests/Outputs.antt =====
-- Small budgets for a tool's output.
use rusty_kimi.Common.{
  ℕ, ◌+◌, ◌≤◌, ◌≡◌, refl, String, Bool, false, List, [], ◌∷◌, ◌++◌, Option, none, some, All, arith,
}
use rusty_kimi.Common.Chars.{codes}
use rusty_kimi.Common.Utf8.{len_utf8, byte_len, split_bytes}
use rusty_kimi.Message.{Text}
use rusty_kimi.Output.{
  truncate_line, trailing_breaks, is_line_break, split_lines_keepends, concat, ToolResultBuilder,
  new, new_builder, is_full, push, write,
}
use rusty_kimi.Output.Lines.{IsLine, split_lines_keepends-IsLine}
use rusty_kimi.Output.Budget.{Ascii, write_all, write_all-budget}
use rusty_kimi.Output.Whole.{write_whole}

abbrev outcome : Option (ToolResultBuilder String) → Option (Text × Bool)
outcome none = none
outcome (some b) = some (concat b.buffer, b.truncation)

abbrev written : ℕ → List Text → Option (Text × Bool)
written budget texts = outcome (write_all String texts (new_builder String budget none))

lines_kept :
    split_lines_keepends (codes "a\r\nb\n\rc")
    ≡ codes "a\r\n" ∷ codes "b\n" ∷ codes "\r" ∷ codes "c" ∷ []
unfolding split_lines_keepends is_line_break
lines_kept = refl

-- A long line ends in the marker and its line break.
cut_line :
    truncate_line (codes "0123456789012345678901234\n") 20 (codes "[...truncated]")
    ≡ some (codes "01234[...truncated]\n")
unfolding truncate_line trailing_breaks byte_len len_utf8 split_bytes
cut_line = refl

-- The second text is lost, and nothing says so.
lost_text : written 5 (codes "hello" ∷ codes "world" ∷ []) ≡ some (codes "hello", false)
unfolding write is_full push truncate_line trailing_breaks is_line_break byte_len len_utf8
    split_bytes concat
lost_text = refl

-- A line as long as the marker is replaced by it, and nothing says so either.
replaced_line : written 5 (codes "0123456789abcd" ∷ []) ≡ some (codes "[...truncated]", false)
unfolding write is_full push truncate_line trailing_breaks is_line_break byte_len len_utf8
    split_bytes concat
replaced_line = refl

-- The cut would fall into the character 日.
panicking : written 16 (codes "0日日日日日日" ∷ []) ≡ none
unfolding write is_full push truncate_line trailing_breaks is_line_break byte_len len_utf8
    split_bytes concat
panicking = refl

split_lines_keepends-IsLine_example :
    (concat (split_lines_keepends (codes "a\r\nb")) ≡ codes "a\r\nb")
    × All IsLine (split_lines_keepends (codes "a\r\nb"))
split_lines_keepends-IsLine_example = split_lines_keepends-IsLine (codes "a\r\nb")

abbrev short : List Text
short = codes "hello\n" ∷ codes "a long line of text" ∷ []

write_all-budget_example :
    ((b' : ToolResultBuilder String)
      → write_all String short (new_builder String 10 (some 20)) ≡ some b'
      → (b'.n_chars ≡ byte_len (concat b'.buffer)) × (byte_len (concat b'.buffer) ≤ 10 + 15))
    × (All (Ascii String) short
        → (b' : ToolResultBuilder String) × (write_all String short
              (new_builder String 10 (some 20))
            ≡ some b'))
unfolding new byte_len len_utf8
write_all-budget_example =
    write_all-budget String 10 (some 20) (new_builder String 10 (some 20)) short refl

abbrev started : ToolResultBuilder String
started = new_builder String 12 (some 20)

write_whole_example :
    (b' : ToolResultBuilder String) × (write String (codes "ab\ncd") started
      ≡ some (b', byte_len (codes "ab\ncd")))
    × (concat b'.buffer ≡ concat started.buffer ++ codes "ab\ncd")
    × (b'.truncation ≡ started.truncation)
unfolding split_lines_keepends is_line_break byte_len len_utf8
write_whole_example =
    write_whole String (codes "ab\ncd") started (omega arith, (omega arith, tt)) (omega arith)
