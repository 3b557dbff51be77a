-- ===== src/Kaos/History.antt =====
-- server/kaos/src/cached.rs, snapshot.rs: the bounded history of writes that `undo` works through.
-- A file's content is its list of bytes; the newest entry stands last.
pub mod Bounds
use rusty_kimi.Common.{
  ℕ, ◌+◌, ◌-◌, ◌*◌, String, Bool, List, [], ◌∷◌, ◌++◌, Option, none, some, length, drop, ltb,
  if◌then◌else◌,
}

abbrev pub Bytes : Type 0
Bytes = List ℕ

-- Mebibytes, written out so that a bound is one numeral.
abbrev pub max_undo_file_bytes : ℕ
max_undo_file_bytes = 10485760

abbrev pub max_undo_entries : ℕ
max_undo_entries = 64

abbrev pub max_undo_bytes : ℕ
max_undo_bytes = 33554432

pub data PreWrite : Type 0 where
  absent unrecorded : PreWrite
  held_bytes : Bytes → PreWrite

pub record WriteEntry : Type 0 where
  pub path : String
  pub original : PreWrite

unfoldable pub bytes_of : PreWrite → ℕ
bytes_of (held_bytes bytes) = length bytes
bytes_of absent = 0
bytes_of unrecorded = 0

unfoldable pub retained_bytes : WriteEntry → ℕ
unfolding bytes_of
retained_bytes e = bytes_of e.original

unfoldable pub total_bytes : List WriteEntry → ℕ
unfolding retained_bytes
total_bytes [] = 0
total_bytes (e ∷ es) = retained_bytes e + total_bytes es

-- The `while` loop: the entries from `drop_count` on, given how many bytes they retain.
unfoldable pub drop_excess : ℕ → List WriteEntry → List WriteEntry
unfolding retained_bytes
drop_excess retained [] = []
drop_excess retained (e ∷ es) =
    let rest = drop_excess (retained - retained_bytes e) es in
    if ltb max_undo_bytes retained then rest else e ∷ es

-- What stays after `drain(..drop_count)`. `saturating_sub` is the subtraction of ℕ.
unfoldable pub trim_history : List WriteEntry → List WriteEntry
unfolding drop_excess total_bytes
trim_history history =
    let kept = drop (length history - max_undo_entries) history in
    drop_excess (total_bytes kept) kept
