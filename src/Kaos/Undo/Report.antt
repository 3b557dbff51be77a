-- ===== src/Kaos/Undo/Report.antt =====
-- What `undo` reports, and what it leaves of the history.
use rusty_kimi.Common.{
  ℕ, zero, suc, ◌+◌, ◌≤◌, ◌%◌, ◌^◌, ◌≡◌, ◌⊎◌, String, refl, sym, ◌∙◌, ap, List, [], ◌∷◌, ◌++◌,
  Option, none, some, arith, length, length-append, min, append_assoc, append-nil, inl, inr, ltb,
  if◌then◌else◌,
}
use rusty_kimi.Kaos.History.{WriteEntry, PreWrite, absent, unrecorded, held_bytes}
use rusty_kimi.Kaos.Undo.{
  Disk, Removal, removed, not_found, failed, write_failed, delete_failed, not_retained, UndoReport,
  CachedKaos, mark_dirty, restore, delete, undo_original, undo_entry, pop, undo_loop, undo,
}

-- `pop` takes the newest entry, and finds none only in the empty history.
pub pop-snoc :
    (h : List WriteEntry)
    → ((h ≡ []) × (pop h ≡ none))
      ⊎ ((rest : List WriteEntry) × (e : WriteEntry) × (h ≡ rest ++ e ∷ [])
          × (pop h ≡ some (rest, e)))
unfolding pop
pop-snoc [] = inl (refl, refl)
pop-snoc (x ∷ xs) = elim (pop-snoc xs) [
  | inl (empty, found) ↦ inr ([], x, ap (◌∷◌ x) empty, ground (arith, found))
  | inr (rest, e, split, found) ↦ inr (x ∷ rest, e, ap (◌∷◌ x) split, ground (arith, found))
]

-- Every entry consumed was restored, deleted or named in an error, and a skipped one is named too.
pub record Balanced (r : UndoReport) : Type 0 where
  pub every : r.restored + r.deleted + length r.errors ≡ r.steps_applied
  pub named : r.skipped ≤ length r.errors

module _ (d : Disk) where
  -- One entry's step of the report: still balanced, and one step more.
  abbrev Advanced : UndoReport → UndoReport → Type 0
  Advanced r r' =
      Balanced r'
      × (r'.steps_applied ≡ r.steps_applied + 1)
      × (r'.steps_available ≡ r.steps_available)

  restore-Advanced :
      (path : String) (o : Option d.W) (w : d.W) (r : UndoReport)
      → Balanced r
      → Advanced r (restore d path o w (record r { steps_applied = r.steps_applied + 1 })).1
  unfolding restore
  restore-Advanced path (some w') w r b = ground arith
  restore-Advanced path none w r b = ground (arith, length-append r.errors (write_failed path ∷ []))

  delete-Advanced :
      (path : String) (o : Removal d.W) (w : d.W) (r : UndoReport)
      → Balanced r
      → Advanced r (delete d path o w (record r { steps_applied = r.steps_applied + 1 })).1
  unfolding delete
  delete-Advanced path (removed w') w r b = ground arith
  delete-Advanced path not_found w r b = ground arith
  delete-Advanced path failed w r b =
      ground (arith, length-append r.errors (delete_failed path ∷ []))

  undo_original-Advanced :
      (o : PreWrite) (path : String) (w : d.W) (r : UndoReport)
      → Balanced r
      → Advanced r (undo_original d o path w (record r { steps_applied = r.steps_applied + 1 })).1
  unfolding undo_original
  undo_original-Advanced (held_bytes bytes) path w r b =
      let w' = d.make_parent path w in restore-Advanced path (d.write path bytes w') w' r b
  undo_original-Advanced absent path w r b = delete-Advanced path (d.remove_file path w) w r b
  undo_original-Advanced unrecorded path w r b =
      ground (arith, length-append r.errors (not_retained path ∷ []))

  -- What `n` rounds over a history of at least `n` entries leave.
  record Undone (n : ℕ) (k k' : CachedKaos d) (r r' : UndoReport) : Type 0 where
    balanced : Balanced r'
    applied : r'.steps_applied ≡ r.steps_applied + n
    available : r'.steps_available ≡ r.steps_available
    unmarked : k'.mutations ≡ k.mutations
    newest : List WriteEntry
    split : k.write_history ≡ k'.write_history ++ newest
    consumed : length newest ≡ n

  undo_loop-Undone :
      (n : ℕ) (k : CachedKaos d) (r : UndoReport)
      → n ≤ length k.write_history
      → Balanced r
      → Undone n k (undo_loop d n k r).0 r (undo_loop d n k r).1
  unfolding undo_loop
  undo_loop-Undone zero k r h b = record {
    balanced = b;
    applied = omega arith;
    available = refl;
    unmarked = refl;
    newest = [];
    split = sym (append-nil k.write_history);
    consumed = refl;
  }
  undo_loop-Undone (suc n) k r h b = elim (pop-snoc k.write_history) [
    | inl (empty, found) ↦ absurd (omega (arith, ap length empty))
    | inr (rest, e, split, found) ↦
        let (w, r1) = undo_entry d e k.disk r in
        let k1 : CachedKaos d = record k { disk = w; write_history = rest } in
        let step : Advanced r r1 =
          unfold undo_entry in undo_original-Advanced e.original e.path k.disk r b in
        let u =
          undo_loop-Undone n k1 r1 (omega (arith, ap length split, length-append rest (e ∷ [])))
            step.0 in
        rw (found, undo_loop)
          (record {
            balanced = u.balanced;
            applied = omega (arith, u.applied, step.1);
            available = u.available ∙ step.2;
            unmarked = u.unmarked;
            newest = u.newest ++ e ∷ [];
            split =
                split
                ∙ ap (λ l. l ++ e ∷ []) u.split
                ∙ append_assoc (undo_loop d n k1 r1).0.write_history u.newest (e ∷ []);
            consumed = omega (arith, u.consumed, length-append u.newest (e ∷ []));
          })
  ]

  -- `undo steps` consumes the newest entries, as many as asked for or as there are, and leaves the
  -- others in place. Its report counts each consumed entry once, as restored, as deleted or by an
  -- error; a skipped one has an error. The index is invalidated just when something was consumed.
  pub undo-report :
      (steps : ℕ) (k : CachedKaos d)
      → let (k', r) = undo d steps k in
        let n = min steps (length k.write_history) in
        (r.steps_available ≡ length k.write_history)
        × (r.steps_applied ≡ n)
        × (r.restored + r.deleted + length r.errors ≡ n)
        × (r.skipped ≤ length r.errors)
        × ((newest : List WriteEntry) × (k.write_history ≡ k'.write_history ++ newest)
            × (length newest ≡ n))
        × (k'.mutations ≡ (if ltb 0 n then (k.mutations + 1) % 2 ^ 64 else k.mutations))
  unfolding undo mark_dirty
  undo-report steps k =
      let n = min steps (length k.write_history) in
      let r0 : UndoReport = record {
        steps_available = length k.write_history;
        steps_applied = 0;
        restored = 0;
        deleted = 0;
        skipped = 0;
        errors = [];
      } in
      let (k', r) = undo_loop d n k r0 in
      let u =
        undo_loop-Undone n k r0 (omega arith) (record { every = refl; named = omega arith }) in
      (
        u.available,
        omega (arith, u.applied),
        omega (arith, u.applied, u.balanced.every),
        u.balanced.named,
        (u.newest, ground (arith, u.split), u.consumed),
        ground (arith, u.applied, u.unmarked),
      )
