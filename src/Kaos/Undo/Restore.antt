-- ===== src/Kaos/Undo/Restore.antt =====
-- A write and the undo of it: the file is back as it was.
use rusty_kimi.Common.{
  ℕ, ◌≤◌, ◌≡◌, ◌⊎◌, String, Bool, true, false, refl, sym, ◌∙◌, ap, List, [], ◌∷◌, ◌++◌, Option,
  none, some, arith, length, length-append, min, inl, inr, ltb, if◌then◌else◌, subst,
}
use rusty_kimi.Kaos.History.{
  Bytes, WriteEntry, held_bytes, max_undo_bytes, max_undo_file_bytes, retained_bytes,
}
use rusty_kimi.Kaos.Undo.{
  Disk, Removal, removed, not_found, failed, write_failed, delete_failed, UndoReport, CachedKaos,
  mark_dirty, restore, delete, undo_original, undo_entry, pop, undo_loop, undo, original_of,
  read_original, record_write, written, write_bytes,
}
use rusty_kimi.Kaos.Undo.Report.{pop-snoc}
use rusty_kimi.Kaos.Undo.Newest.{
  trim_history-last, original_of-small, last_of-snoc, last_of_nil, last_of,
}

module _ (d : Disk) where
  -- What `record_write` records of a path.
  abbrev recorded : String → d.W → WriteEntry
  recorded path w = record { path = path; original = original_of d (d.size path w) path w }

  recorded-small : (path : String) (w : d.W) → retained_bytes (recorded path w) ≤ max_undo_bytes
  unfolding retained_bytes
  recorded-small path w = original_of-small d path w (d.size path w) refl

  abbrev fresh_report : ℕ → UndoReport
  fresh_report n = record {
    steps_available = n;
    steps_applied = 0;
    restored = 0;
    deleted = 0;
    skipped = 0;
    errors = [];
  }

  written-history :
      (o : Option d.W) (k : CachedKaos d) → (written d o k).0.write_history ≡ k.write_history
  unfolding written
  written-history none k = refl
  written-history (some w) k = refl

  -- The entry of a write ends the history that the write leaves.
  write_bytes-recorded :
      (path : String) (bytes : Bytes) (k : CachedKaos d)
      → (rest : List WriteEntry) × ((write_bytes d path bytes k).0.write_history
          ≡ rest ++ recorded path k.disk ∷ [])
  unfolding write_bytes mark_dirty record_write
  write_bytes-recorded path bytes k =
      let (rest, split) =
        trim_history-last k.write_history (recorded path k.disk) (recorded-small path k.disk) in
      let marked = mark_dirty d (record_write d path k) in
      (rest, written-history (d.write path bytes marked.disk) marked ∙ split)

  marked-disk : (b : Bool) (k : CachedKaos d) → (if b then mark_dirty d k else k).disk ≡ k.disk
  unfolding mark_dirty
  marked-disk true k = refl
  marked-disk false k = refl

  undo_loop-once :
      (k : CachedKaos d) (r : UndoReport) (rest : List WriteEntry) (e : WriteEntry)
      → pop k.write_history ≡ some (rest, e)
      → let step = undo_entry d e k.disk r in
        ((undo_loop d 1 k r).0.disk ≡ step.0) × ((undo_loop d 1 k r).1 ≡ step.1)
  unfolding undo_loop
  undo_loop-once k r rest e found = rw (found, undo_loop) (refl, refl)

  undo-snoc :
      (k : CachedKaos d) (rest : List WriteEntry) (e : WriteEntry)
      → k.write_history ≡ rest ++ e ∷ []
      → let step = undo_entry d e k.disk (fresh_report (length k.write_history)) in
        ((undo d 1 k).0.disk ≡ step.0) × ((undo d 1 k).1 ≡ step.1)
  unfolding undo
  undo-snoc k rest e split = elim (pop-snoc k.write_history) [
    | inl (empty, found) ↦
        cc (ap last_of (sym split), ap last_of empty, last_of-snoc rest e, last_of_nil)
    | inr (rest', e', split', found) ↦
        let same : some e ≡ some e' =
          sym (last_of-snoc rest e) ∙ ap last_of (sym split ∙ split') ∙ last_of-snoc rest' e' in
        let one : min 1 (length k.write_history) ≡ 1 =
          omega (arith, ap length split, length-append rest (e ∷ [])) in
        let looped = undo_loop-once k (fresh_report (length k.write_history)) rest' e' found in
        let marked =
          marked-disk
            (ltb 0 (undo_loop d 1 k (fresh_report (length k.write_history))).1.steps_applied)
            (undo_loop d 1 k (fresh_report (length k.write_history))).0 in
        let back : e' ≡ e = cc same in
        rw (one) (
          marked
              ∙ looped.0
              ∙ ap (λ x. (undo_entry d x k.disk (fresh_report (length k.write_history))).0) back,
          looped.1
              ∙ ap (λ x. (undo_entry d x k.disk (fresh_report (length k.write_history))).1) back,
        )
  ]

  -- What the step of an entry leaves when the entry holds `bytes`: the file back, or an error.
  abbrev pub Restored : String → Bytes → d.W × UndoReport → Type 0
  Restored path bytes (w, r) =
      ((r.restored ≡ 1) × (r.errors ≡ []) × (d.read path w ≡ some bytes))
      ⊎ ((r.restored ≡ 0) × (r.errors ≡ write_failed path ∷ []))

  restore-Restored :
      (path : String) (bytes : Bytes) (w' : d.W) (o : Option d.W) (n : ℕ)
      → d.write path bytes w' ≡ o
      → Restored path bytes (restore d path o w' (record (fresh_report n) { steps_applied = 1 }))
  unfolding restore
  restore-Restored path bytes w' none n h = inr (refl, refl)
  restore-Restored path bytes w' (some w) n h = inl (refl, refl, d.read-write path bytes w' w h)

  -- Likewise of an entry for a file that the write created.
  abbrev pub Deleted : String → d.W × UndoReport → Type 0
  Deleted path (w, r) =
      ((r.deleted ≡ 1) × (r.errors ≡ []) × (d.size path w ≡ none))
      ⊎ ((r.deleted ≡ 0) × (r.errors ≡ delete_failed path ∷ []))

  delete-Deleted :
      (path : String) (w : d.W) (o : Removal d.W) (n : ℕ)
      → d.remove_file path w ≡ o
      → Deleted path (delete d path o w (record (fresh_report n) { steps_applied = 1 }))
  unfolding delete
  delete-Deleted path w (removed w') n h = inl (refl, refl, d.size-removed path w w' h)
  delete-Deleted path w not_found n h = inl (refl, refl, d.size-not_found path w h)
  delete-Deleted path w failed n h = inr (refl, refl)

  -- What `undo 1` leaves after a write, by what the step of the write's entry leaves.
  undo-written :
      (path : String) (bytes : Bytes) (k : CachedKaos d) (P : d.W × UndoReport → Type 0)
      → ((w : d.W) (n : ℕ) → P (undo_entry d (recorded path k.disk) w (fresh_report n)))
      → let (k', r) = undo d 1 (write_bytes d path bytes k).0 in P (k'.disk, r)
  undo-written path bytes k P holds =
      let k1 = (write_bytes d path bytes k).0 in
      let (rest, split) = write_bytes-recorded path bytes k in
      let (same_disk, same_report) = undo-snoc k1 rest (recorded path k.disk) split in
      subst P (cc (same_disk, same_report)) (holds k1.disk (length k1.write_history))

  recorded-held :
      (path : String) (original : Bytes) (w : d.W)
      → d.read path w ≡ some original
      → length original ≤ max_undo_file_bytes
      → recorded path w ≡ record { path = path; original = held_bytes original }
  unfolding original_of read_original
  recorded-held path original w found small =
      let sized = d.size-read path original w found in
      let fits : ltb max_undo_file_bytes (length original) ≡ false = ground (arith, small) in
      rw (sized) (rw (fits) (rw (found) refl))

  -- A write to a file that could be read and holds at most `max_undo_file_bytes` bytes, and then
  -- `undo 1`, whether or not the write succeeded: the file is read as before the write, or the
  -- report names the write that failed.
  pub undo-restores :
      (path : String) (bytes original : Bytes) (k : CachedKaos d)
      → d.read path k.disk ≡ some original
      → length original ≤ max_undo_file_bytes
      → let (k', r) = undo d 1 (write_bytes d path bytes k).0 in Restored path original (k'.disk, r)
  undo-restores path bytes original k found small =
      undo-written path bytes k (Restored path original) (λ w n.
        rw (recorded-held path original k.disk found small) (
          unfold undo_entry undo_original in
          let w' = d.make_parent path w in
          restore-Restored path original w' (d.write path original w') n refl))

  -- A write to a path without a file, and then `undo 1`: there is no file again, or the report
  -- names the removal that failed.
  pub undo-deletes :
      (path : String) (bytes : Bytes) (k : CachedKaos d)
      → d.size path k.disk ≡ none
      → let (k', r) = undo d 1 (write_bytes d path bytes k).0 in Deleted path (k'.disk, r)
  undo-deletes path bytes k missing = undo-written path bytes k (Deleted path) (λ w n.
      rw (missing) (
        unfold undo_entry undo_original original_of in
        delete-Deleted path w (d.remove_file path w) n refl))
