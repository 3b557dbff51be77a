-- ===== src/Editor.antt =====
-- client/dvadva-tui/src/input.rs: the one-line editor of the terminal client, with its cursor as a
-- byte offset. An operation returns `none` where the code would panic, by slicing or editing the
-- text within a character.
pub mod Zipper
use rusty_kimi.Common.{
  ℕ, zero, ◌+◌, Bool, true, false, List, [], ◌∷◌, ◌++◌, map, Option, none, some, ◌==◌, ◌||◌, ◌>>=◌,
  if◌then◌else◌,
}
use rusty_kimi.Common.Utf8.{len_utf8, byte_len, split_bytes}
use rusty_kimi.Message.{Text}

pub record Editor : Type 0 where
  pub buf : Text
  pub cursor : ℕ

abbrev pub default : Editor
default = record { buf = []; cursor = 0 }

unfoldable pub clear : Editor → Editor
clear e = record e { buf = []; cursor = 0 }

-- `width` stands for unicode_width's `UnicodeWidthStr::width`.
unfoldable pub cursor_col : (width : Text → ℕ) → Editor → Option ℕ
cursor_col width e = do (s, t) ← split_bytes e.cursor e.buf; some (width s)

unfoldable pub flatten : ℕ → ℕ
flatten c = if c == 10 || c == 13 then 32 else c

-- `String::insert_str`.
unfoldable pub insert_str : ℕ → Text → Text → Option Text
insert_str at text buf = do (s, t) ← split_bytes at buf; some (s ++ (text ++ t))

unfoldable pub insert : Text → Editor → Option Editor
unfolding insert_str
insert text e = do
  buf ← insert_str e.cursor (map flatten text) e.buf
  some (record { buf = buf; cursor = e.cursor + byte_len (map flatten text) })

-- `String::replace_range(from..to, "")`.
unfoldable pub remove_range : ℕ → ℕ → Text → Option Text
remove_range from to buf = do
  (s, _) ← split_bytes from buf
  (_, t) ← split_bytes to buf
  some (s ++ t)

-- `char_indices().next_back()`: the offset of the last character, counted from `at`.
unfoldable pub last_index : ℕ → Text → Option ℕ
last_index at [] = none
last_index at (c ∷ t) = elim (last_index (at + len_utf8 c) t) [ none ↦ some at | some i ↦ some i ]

unfoldable pub first_end : ℕ → Text → Option ℕ
first_end pos [] = none
first_end pos (c ∷ t) = some (pos + len_utf8 c)

unfoldable pub prev_boundary : ℕ → Editor → Option (Option ℕ)
unfolding last_index
prev_boundary pos e = do (s, t) ← split_bytes pos e.buf; some (last_index 0 s)

unfoldable pub next_boundary : ℕ → Editor → Option (Option ℕ)
unfolding first_end
next_boundary pos e = do (s, t) ← split_bytes pos e.buf; some (first_end pos t)

abbrev pub backspace_to : Editor → Option ℕ → Option Editor
backspace_to e none = some e
backspace_to e (some pos) = do
  buf ← remove_range pos e.cursor e.buf
  some (record { buf = buf; cursor = pos })

unfoldable pub backspace : Editor → Option Editor
unfolding prev_boundary remove_range
backspace e = do prev ← prev_boundary e.cursor e; backspace_to e prev

abbrev pub delete_to : Editor → Option ℕ → Option Editor
delete_to e none = some e
delete_to e (some end) = do buf ← remove_range e.cursor end e.buf; some (record e { buf = buf })

unfoldable pub delete : Editor → Option Editor
unfolding next_boundary remove_range
delete e = do end ← next_boundary e.cursor e; delete_to e end

abbrev pub move_to : Editor → Option ℕ → Editor
move_to e none = e
move_to e (some pos) = record e { cursor = pos }

unfoldable pub left : Editor → Option Editor
unfolding prev_boundary
left e = do prev ← prev_boundary e.cursor e; some (move_to e prev)

unfoldable pub right : Editor → Option Editor
unfolding next_boundary
right e = do next ← next_boundary e.cursor e; some (move_to e next)

unfoldable pub home : Editor → Editor
home e = record e { cursor = 0 }

unfoldable pub to_end : Editor → Editor
to_end e = record e { cursor = byte_len e.buf }
