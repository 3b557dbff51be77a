-- ===== src/Kaos/Undo/Newest.antt =====
-- The newest entry of the history outlives the trimming that its own push sets off.
use rusty_kimi.Common.{
  ℕ, ◌≤◌, ◌<◌, ◌≡◌, String, refl, sym, ◌∙◌, ap, List, [], ◌∷◌, ◌++◌, Option, none, some, arith,
  length, append-nil, Bool-cases, inl, inr, ltb,
}
use rusty_kimi.Kaos.History.{
  Bytes, WriteEntry, max_undo_bytes, max_undo_file_bytes, bytes_of, retained_bytes, total_bytes,
  trim_history,
}
use rusty_kimi.Kaos.History.Bounds.{Forced, all_kept, dropped, trim_history-Trimmed}
use rusty_kimi.Kaos.Undo.{Disk, original_of, read_original}

pub last_of : List WriteEntry → Option WriteEntry
last_of [] = none
last_of (e ∷ []) = some e
last_of (_ ∷ e ∷ es) = last_of (e ∷ es)

pub last_of-snoc : (es : List WriteEntry) (e : WriteEntry) → last_of (es ++ e ∷ []) ≡ some e
unfolding last_of
last_of-snoc [] e = refl
last_of-snoc (x ∷ []) e = refl
last_of-snoc (x ∷ y ∷ es) e = last_of-snoc (y ∷ es) e

last_of-append :
    (xs : List WriteEntry) (y : WriteEntry) (ys : List WriteEntry)
    → last_of (xs ++ y ∷ ys) ≡ last_of (y ∷ ys)
unfolding last_of
last_of-append [] y ys = refl
last_of-append (x ∷ []) y ys = refl
last_of-append (x ∷ x' ∷ xs) y ys = last_of-append (x' ∷ xs) y ys

last_of-snoc_of :
    (es : List WriteEntry) (e : WriteEntry)
    → last_of es ≡ some e
    → (rest : List WriteEntry) × (es ≡ rest ++ e ∷ [])
unfolding last_of
last_of-snoc_of [] e h = cc
last_of-snoc_of (x ∷ []) e h = ([], cc)
last_of-snoc_of (x ∷ y ∷ es) e h =
    let (rest, split) = last_of-snoc_of (y ∷ es) e h in (x ∷ rest, ap (◌∷◌ x) split)

pub last_of_nil : last_of [] ≡ none
unfolding last_of
last_of_nil = refl

oversized :
    (e last : WriteEntry)
    → some e ≡ some last
    → retained_bytes e ≤ max_undo_bytes
    → max_undo_bytes < total_bytes (last ∷ [])
    → ⊥
unfolding total_bytes
oversized e last same small large = ground (arith, same)

kept-last :
    (gone kept history : List WriteEntry) (e : WriteEntry)
    → history ++ e ∷ [] ≡ gone ++ kept
    → Forced kept gone
    → retained_bytes e ≤ max_undo_bytes
    → (rest : List WriteEntry) × (kept ≡ rest ++ e ∷ [])
kept-last gone [] history e split all_kept small =
    cc (ap last_of split, last_of-snoc history e, last_of_nil)
kept-last gone [] history e split (dropped before last _ g (inl many)) small = absurd (omega arith)
kept-last gone [] history e split (dropped before last _ g (inr large)) small =
    let same : some e ≡ some last =
      sym (last_of-snoc history e)
      ∙ ap last_of (split ∙ append-nil gone ∙ g)
      ∙ last_of-snoc before last in
    absurd (oversized e last same small large)
kept-last gone (x ∷ kept) history e split f small =
    last_of-snoc_of (x ∷ kept) e
      (sym (last_of-append gone x kept) ∙ ap last_of (sym split) ∙ last_of-snoc history e)

-- The entry pushed last is never trimmed away, if it retains no more than the cap.
pub trim_history-last :
    (history : List WriteEntry) (e : WriteEntry)
    → retained_bytes e ≤ max_undo_bytes
    → (rest : List WriteEntry) × (trim_history (history ++ e ∷ []) ≡ rest ++ e ∷ [])
trim_history-last history e small =
    let t = trim_history-Trimmed (history ++ e ∷ []) in
    kept-last t.gone (trim_history (history ++ e ∷ [])) history e t.split t.forced small

read_original-small :
    (d : Disk) (b : Option Bytes)
    → (n : ℕ) → ((bytes : Bytes) → b ≡ some bytes → n ≡ length bytes)
    → n ≤ max_undo_file_bytes
    → bytes_of (read_original d b) ≤ max_undo_bytes
unfolding bytes_of read_original
read_original-small d none n h le = omega arith
read_original-small d (some bytes) n h le = ground (arith, h bytes refl)

same-size :
    (d : Disk) (path : String) (w : d.W) (n : ℕ)
    → d.size path w ≡ some n
    → (bytes : Bytes) → d.read path w ≡ some bytes
    → n ≡ length bytes
same-size d path w n sized bytes found = cc (sized, d.size-read path bytes w found)

pub original_of-small :
    (d : Disk) (path : String) (w : d.W) (s : Option ℕ)
    → d.size path w ≡ s
    → bytes_of (original_of d s path w) ≤ max_undo_bytes
unfolding bytes_of original_of
original_of-small d path w none sized = omega arith
original_of-small d path w (some n) sized = elim (Bool-cases (ltb max_undo_file_bytes n)) [
  | inl big ↦ ground (arith, big)
  | inr small ↦
      let le : n ≤ max_undo_file_bytes = ground (arith, small) in
      let bound = read_original-small d (d.read path w) n (same-size d path w n sized) le in
      ground (arith, small, bound)
]
