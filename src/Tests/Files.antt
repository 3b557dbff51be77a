-- ===== src/Tests/Files.antt =====
-- A directory in memory: writes to it, and undoing them.
use rusty_kimi.Common.{
  ℕ, ◌+◌, ◌%◌, ◌^◌, ◌≤◌, ◌≡◌, refl, ap, String, List, [], ◌∷◌, ◌++◌, Option, none, some, length,
  arith, min, ltb, if◌then◌else◌,
}
use rusty_kimi.Common.Eq.{string_eq, =?_self}
use rusty_kimi.Common.Dict.{Dict, lookup, insert, remove, lookup-insert, lookup-remove}
use rusty_kimi.Kaos.History.{Bytes, WriteEntry, trim_history}
use rusty_kimi.Kaos.History.Bounds.{Trimmed, trim_history-Trimmed}
use rusty_kimi.Kaos.Undo.{Disk, Removal, removed, not_found, CachedKaos, write_bytes, undo}
use rusty_kimi.Kaos.Undo.Report.{undo-report}
use rusty_kimi.Kaos.Undo.Restore.{Restored, Deleted, undo-restores, undo-deletes}

-- The length of what a file holds, if there is one.
abbrev size_of : Option Bytes → Option ℕ
size_of none = none
size_of (some bytes) = some (length bytes)

abbrev removal : String → Option Bytes → Dict String Bytes → Removal (Dict String Bytes)
removal p none w = not_found
removal p (some bytes) w = removed (remove p w)

size_of-removal :
    (p : String) (o : Option Bytes) (w w' : Dict String Bytes)
    → removal p o w ≡ removed w'
    → lookup p w' ≡ none
size_of-removal p none w w' h = cc
size_of-removal p (some bytes) w w' h =
    let same : remove p w ≡ w' = cc h in
    rw (← same) (rw (lookup-remove p p w) (rw (=?_self p) refl))

size_of-not_found :
    (p : String) (o : Option Bytes) (w : Dict String Bytes)
    → removal p o w ≡ not_found
    → size_of o ≡ none
size_of-not_found p none w h = refl
size_of-not_found p (some bytes) w h = cc

written-read :
    (p : String) (b : Bytes) (w w' : Dict String Bytes)
    → some (insert p b w) ≡ some w'
    → lookup p w' ≡ some b
written-read p b w w' h =
    let same : insert p b w ≡ w' = cc h in
    rw (← same) (rw (lookup-insert p p b w) (rw (=?_self p) refl))

-- Every operation on this directory succeeds where a file system's can.
abbrev memory : Disk
memory = record {
  W = Dict String Bytes;
  size = λ p w. size_of (lookup p w);
  read = λ p w. lookup p w;
  make_parent = λ p w. w;
  write = λ p b w. some (insert p b w);
  remove_file = λ p w. removal p (lookup p w) w;
  size-read = λ p b w h. ap size_of h;
  read-write = written-read;
  size-removed = λ p w w' h. ap size_of (size_of-removal p (lookup p w) w w' h);
  size-not_found = λ p w h. size_of-not_found p (lookup p w) w h;
}

abbrev kaos : CachedKaos memory
kaos = record { disk = ("/work/a", 1 ∷ 2 ∷ []) ∷ []; mutations = 0; write_history = [] }

abbrev after_writes : CachedKaos memory
after_writes =
    (write_bytes memory "/work/b" (9 ∷ []) (write_bytes memory "/work/a" (7 ∷ []) kaos).0).0

-- Undoing both writes restores the one file and deletes the other.
both_undone : (undo memory 2 after_writes).0.disk ≡ kaos.disk
unfolding undo write_bytes lookup insert remove trim_history
both_undone = refl

trim_history-Trimmed_example :
    Trimmed after_writes.write_history (trim_history after_writes.write_history)
trim_history-Trimmed_example = trim_history-Trimmed after_writes.write_history

undo-report_example :
    let (k', r) = undo memory 5 after_writes in
    let n = min 5 (length after_writes.write_history) in
    (r.steps_available ≡ length after_writes.write_history)
    × (r.steps_applied ≡ n)
    × (r.restored + r.deleted + length r.errors ≡ n)
    × (r.skipped ≤ length r.errors)
    × ((newest : List WriteEntry) × (after_writes.write_history ≡ k'.write_history ++ newest)
        × (length newest ≡ n))
    × (k'.mutations
        ≡ (if ltb 0 n then (after_writes.mutations + 1) % 2 ^ 64 else after_writes.mutations))
undo-report_example = undo-report memory 5 after_writes

undo-restores_example :
    let (k', r) = undo memory 1 (write_bytes memory "/work/a" (7 ∷ []) kaos).0 in
    Restored memory "/work/a" (1 ∷ 2 ∷ []) (k'.disk, r)
unfolding lookup
undo-restores_example = undo-restores memory "/work/a" (7 ∷ []) (1 ∷ 2 ∷ []) kaos refl (omega arith)

undo-deletes_example :
    let (k', r) = undo memory 1 (write_bytes memory "/work/b" (9 ∷ []) kaos).0 in
    Deleted memory "/work/b" (k'.disk, r)
unfolding lookup
undo-deletes_example = undo-deletes memory "/work/b" (9 ∷ []) kaos refl
