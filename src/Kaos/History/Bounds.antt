-- ===== src/Kaos/History/Bounds.antt =====
-- What trimming keeps: a suffix within both caps, and no shorter than the caps demand.
use rusty_kimi.Common.{
  ℕ, zero, suc, ◌+◌, ◌-◌, ◌≤◌, ◌<◌, ◌≡◌, refl, ap, ◌⊎◌, inl, inr, List, [], ◌∷◌, ◌++◌, arith,
  length, take, drop, take-append-drop, length-drop, append_assoc, subst, Bool-cases, ltb→lt, ltb,
}
use rusty_kimi.Kaos.History.{
  WriteEntry, max_undo_entries, max_undo_bytes, retained_bytes, total_bytes, drop_excess,
  trim_history,
}

-- What was dropped before `kept`: nothing, or keeping the last dropped entry too would break a cap.
pub data Forced (kept : List WriteEntry) : List WriteEntry → Type 0 where
  all_kept : Forced kept []
  dropped :
      (before : List WriteEntry) (last : WriteEntry) (gone : List WriteEntry)
      → gone ≡ before ++ last ∷ []
      → (max_undo_entries < length (last ∷ kept)) ⊎ (max_undo_bytes < total_bytes (last ∷ kept))
      → Forced kept gone

-- `history` is `gone` followed by `kept`, which is within the caps.
pub record Trimmed (history kept : List WriteEntry) : Type 0 where
  pub gone : List WriteEntry
  pub split : history ≡ gone ++ kept
  pub few : length kept ≤ max_undo_entries
  pub small : total_bytes kept ≤ max_undo_bytes
  pub forced : Forced kept gone

drop_excess_lem :
    (before kept : List WriteEntry)
    → length kept ≤ max_undo_entries
    → Forced kept before
    → Trimmed (before ++ kept) (drop_excess (total_bytes kept) kept)
unfolding drop_excess total_bytes
drop_excess_lem before [] h f = record {
  gone = before;
  split = refl;
  few = omega arith;
  small = omega arith;
  forced = f;
}
drop_excess_lem before (e ∷ es) h f =
    elim (Bool-cases (ltb max_undo_bytes (total_bytes (e ∷ es)))) [
      | inl over ↦
          let less : retained_bytes e + total_bytes es - retained_bytes e ≡ total_bytes es =
            omega arith in
          rw (over, less)
            (subst (λ l. Trimmed l (drop_excess (total_bytes es) es))
              (append_assoc before (e ∷ []) es)
              (drop_excess_lem (before ++ e ∷ []) es (omega arith)
                (dropped before e (before ++ e ∷ []) refl (inr (ltb→lt _ _ over)))))
      | inr fits ↦
          rw fits
            (record { gone = before; split = refl; few = h; small = ground arith; forced = f })
    ]

take-snoc :
    (n : ℕ) (xs : List WriteEntry)
    → n < length xs
    → (before : List WriteEntry) × (last : WriteEntry) × (take (suc n) xs ≡ before ++ last ∷ [])
take-snoc n [] h = elim h [ ]
take-snoc zero (x ∷ xs) h = ([], x, refl)
take-snoc (suc n) (x ∷ xs) h =
    let (before, last, e) = take-snoc n xs (omega arith) in (x ∷ before, last, ap (◌∷◌ x) e)

first_drop :
    (n : ℕ) (history : List WriteEntry)
    → length history - max_undo_entries ≡ n
    → Forced (drop n history) (take n history)
first_drop zero history e = all_kept
first_drop (suc n) history e =
    let (before, last, split) = take-snoc n history (omega arith) in
    dropped before last (take (suc n) history) split
      (inl (omega (arith, length-drop (suc n) history)))

-- Trimming keeps a suffix of the history, so the newest writes, of at most 64 entries that retain
-- at most 32 MiB; and the suffix is the longest: if anything was dropped, the last entry dropped
-- could not have been kept with the rest within both caps.
pub trim_history-Trimmed : (history : List WriteEntry) → Trimmed history (trim_history history)
unfolding trim_history
trim_history-Trimmed history =
    let n = length history - max_undo_entries in
    subst (λ l. Trimmed l (trim_history history)) (take-append-drop n history)
      (drop_excess_lem (take n history) (drop n history) (omega (arith, length-drop n history))
        (first_drop n history refl))
