-- ===== src/Kaos/Undo.antt =====
-- server/kaos/src/cached.rs: writes that record what they overwrite, and `undo`.
-- The file system is an interface: what tokio::fs and the inner backend do on it.
pub mod Report
pub mod Newest
pub mod Restore
use rusty_kimi.Common.{
  ℕ, zero, suc, ◌+◌, ◌-◌, ◌%◌, ◌^◌, String, ◌≡◌, ◌≢◌, Bool, true, false, List, [], ◌∷◌, ◌++◌,
  Option, none, some, length, min, ltb, if◌then◌else◌,
}
use rusty_kimi.Kaos.History.{
  Bytes, PreWrite, absent, unrecorded, held_bytes, WriteEntry, max_undo_file_bytes, trim_history,
}

-- What `remove_file` answers: `ErrorKind::NotFound` stands apart from other errors.
pub data Removal {ℓ} (W : Type ℓ) : Type ℓ where
  removed : W → Removal W
  not_found failed : Removal W

-- `W` is the state of the file system. `none` is an error; a failed operation may be taken to
-- change nothing that the laws speak of.
pub record Disk : Type 1 where
  pub W : Type 0
  pub size : String → W → Option ℕ
  pub read : String → W → Option Bytes
  pub make_parent : String → W → W
  pub write : String → Bytes → W → Option W
  pub remove_file : String → W → Removal W
  -- `metadata` reports the length of what `read` gives.
  pub size-read : (p : String) (b : Bytes) (w : W) → read p w ≡ some b → size p w ≡ some (length b)
  -- A write that succeeds is read back, also after the directories were made.
  pub read-write : (p : String) (b : Bytes) (w w' : W) → write p b w ≡ some w' → read p w' ≡ some b
  -- A file that was removed, or not found, has no metadata.
  pub size-removed : (p : String) (w w' : W) → remove_file p w ≡ removed w' → size p w' ≡ none
  pub size-not_found : (p : String) (w : W) → remove_file p w ≡ not_found → size p w ≡ none

pub data UndoError : Type 0 where
  write_failed delete_failed not_retained : (path : String) → UndoError

pub record UndoReport : Type 0 where
  pub steps_available : ℕ
  pub steps_applied : ℕ
  pub restored : ℕ
  pub deleted : ℕ
  pub skipped : ℕ
  pub errors : List UndoError

-- `Vec::pop`.
unfoldable pub pop_rest :
    WriteEntry → Option (List WriteEntry × WriteEntry) → List WriteEntry × WriteEntry
pop_rest e none = ([], e)
pop_rest e (some (rest, last)) = (e ∷ rest, last)

unfoldable pub pop : List WriteEntry → Option (List WriteEntry × WriteEntry)
unfolding pop_rest
pop [] = none
pop (e ∷ es) = some (pop_rest e (pop es))

module _ (d : Disk) where
  open d use {W, size, read, make_parent, write, remove_file}

  pub record CachedKaos : Type 0 where
    pub disk : W
    pub mutations : ℕ
    pub write_history : List WriteEntry

  unfoldable pub mark_dirty : CachedKaos → CachedKaos
  mark_dirty k = record k { mutations = (k.mutations + 1) % 2 ^ 64 }

  unfoldable pub read_original : Option Bytes → PreWrite
  read_original (some bytes) = held_bytes bytes
  read_original none = unrecorded

  -- `none`: the metadata could not be read.
  unfoldable pub original_of : Option ℕ → String → W → PreWrite
  unfolding read_original
  original_of none path w = absent
  original_of (some len) path w =
      if ltb max_undo_file_bytes len then unrecorded else read_original (read path w)

  unfoldable pub record_write : String → CachedKaos → CachedKaos
  unfolding original_of
  record_write path k = record k {
    write_history = trim_history (
        k.write_history
        ++ record { path = path; original = original_of (size path k.disk) path k.disk } ∷ []);
  }

  -- `false`: the inner backend's write failed.
  unfoldable pub written : Option W → CachedKaos → CachedKaos × Bool
  written none k = (k, false)
  written (some w) k = (record k { disk = w }, true)

  unfoldable pub write_bytes : String → Bytes → CachedKaos → CachedKaos × Bool
  unfolding record_write mark_dirty written
  write_bytes path bytes k =
      let marked = mark_dirty (record_write path k) in
      let (k', done) = written (write path bytes marked.disk) marked in (mark_dirty k', done)

  -- One round of `undo`: its entry is consumed, whatever becomes of the file.
  unfoldable pub restore : String → Option W → W → UndoReport → W × UndoReport
  restore path (some w') w r = (w', record r { restored = r.restored + 1 })
  restore path none w r = (w, record r { errors = r.errors ++ write_failed path ∷ [] })

  unfoldable pub delete : String → Removal W → W → UndoReport → W × UndoReport
  delete path (removed w') w r = (w', record r { deleted = r.deleted + 1 })
  delete path not_found w r = (w, record r { deleted = r.deleted + 1 })
  delete path failed w r = (w, record r { errors = r.errors ++ delete_failed path ∷ [] })

  unfoldable pub undo_original : PreWrite → String → W → UndoReport → W × UndoReport
  unfolding restore delete
  undo_original (held_bytes bytes) path w r =
      let w' = make_parent path w in restore path (write path bytes w') w' r
  undo_original absent path w r = delete path (remove_file path w) w r
  undo_original unrecorded path w r =
      (w, record r { skipped = r.skipped + 1; errors = r.errors ++ not_retained path ∷ [] })

  unfoldable pub undo_entry : WriteEntry → W → UndoReport → W × UndoReport
  unfolding undo_original
  undo_entry e w r =
      undo_original e.original e.path w (record r { steps_applied = r.steps_applied + 1 })

  unfoldable pub undo_loop : ℕ → CachedKaos → UndoReport → CachedKaos × UndoReport
  unfolding undo_entry pop
  undo_loop zero k r = (k, r)
  undo_loop (suc n) k r = elim (pop k.write_history) [
    | none ↦ (k, r)
    | some (rest, e) ↦
        let (w, r') = undo_entry e k.disk r in
        undo_loop n (record k { disk = w; write_history = rest }) r'
  ]

  unfoldable pub undo : ℕ → CachedKaos → CachedKaos × UndoReport
  unfolding undo_loop mark_dirty
  undo steps k =
      let available = length k.write_history in
      let report : UndoReport = record {
        steps_available = available;
        steps_applied = 0;
        restored = 0;
        deleted = 0;
        skipped = 0;
        errors = [];
      } in
      let (k', r) = undo_loop (min steps available) k report in
      (if ltb 0 r.steps_applied then mark_dirty k' else k', r)
