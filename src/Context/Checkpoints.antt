-- ===== src/Context/Checkpoints.antt =====
-- A checkpoint, whatever is recorded after it, and the revert to it.
use rusty_kimi.Common.{
  ℕ, ◌+◌, ◌≤◌, ◌≡◌, refl, sym, ◌∙◌, ap, Bool, true, false, List, [], ◌∷◌, ◌++◌, map, Option, none,
  some, arith, leb, append_assoc, append-nil, All,
}
use rusty_kimi.Context.{
  Codec, Loaded, cleared, Context, new, lines, append_messages, checkpoint_message, checkpoint,
  update_token_count, copy_lines, rotate_and_copy, revert_to,
}
use rusty_kimi.Context.Replay.{Log}
use rusty_kimi.Context.Revert.{
  Op, appends, checkpoints, counts, reverts, clears, call, run, ReadableOp, run-Synced, new-Synced,
  copy_lines-before, copy_lines-marker,
}

module _ {J : Type 0} (c : Codec J) where
  open c use {L, usage_line, marker_line, message_line}

  -- The operation only adds to the log.
  abbrev pub Onward : Op J → Type 0
  Onward (reverts id) = ⊥
  Onward clears = ⊥
  Onward _ = Unit

  record Extends (k k' : Context c) : Type 0 where
    more : List L
    split : lines c k'.file ≡ lines c k.file ++ more
    later : k.loaded.next_checkpoint_id ≤ k'.loaded.next_checkpoint_id

  Extends-trans : (a b d : Context c) → Extends a b → Extends b d → Extends a d
  Extends-trans a b d x y = record {
    more = x.more ++ y.more;
    split = y.split ∙ ap (λ l. l ++ y.more) x.split ∙ append_assoc (lines c a.file) x.more y.more;
    later = omega (arith, x.later, y.later);
  }

  checkpoint-Extends :
      (add : Bool) (k : Context c)
      → let id = k.loaded.next_checkpoint_id in
        (rest : List L) × (lines c (checkpoint c true add k).0.file
          ≡ lines c k.file ++ marker_line id ∷ rest)
        × ((checkpoint c true add k).0.loaded.next_checkpoint_id ≡ id + 1)
  unfolding checkpoint append_messages
  checkpoint-Extends false k = ([], refl, refl)
  checkpoint-Extends true k =
      let id = k.loaded.next_checkpoint_id in
      let m = message_line (checkpoint_message c id) in
      (m ∷ [], append_assoc (lines c k.file) (marker_line id ∷ []) (m ∷ []), refl)

  call-Extends : (o : Op J) (k : Context c) → Onward o → Extends k (call c o k)
  unfolding call append_messages update_token_count
  call-Extends (appends ms) k h = record {
    more = map message_line ms;
    split = refl;
    later = omega arith;
  }
  call-Extends (checkpoints add) k h =
      let (rest, split, next) = checkpoint-Extends add k in
      record { more = _; split = split; later = omega (arith, next) }
  call-Extends (counts n) k h = record {
    more = usage_line n ∷ [];
    split = refl;
    later = omega arith;
  }
  call-Extends (reverts _) k h = elim h [ ]
  call-Extends clears k h = elim h [ ]

  run-Extends : (os : List (Op J)) (k : Context c) → All Onward os → Extends k (run c os k)
  unfolding run
  run-Extends [] k h = record {
    more = [];
    split = sym (append-nil (lines c k.file));
    later = omega arith;
  }
  run-Extends (o ∷ os) k (h, hs) =
      Extends-trans k (call c o k) (run c os (call c o k)) (call-Extends o k h)
        (run-Extends os (call c o k) hs)

  -- The copying stops at the checkpoint, with the log before it.
  rotate-marker :
      (id : ℕ) (file : Option (List L)) (ls rest : List L) (l : Loaded J) (k : Context c)
      → lines c file ≡ ls ++ marker_line id ∷ rest
      → Log c ls cleared l
      → l.next_checkpoint_id ≤ id
      → rotate_and_copy c true id file k ≡ (record { file = some ls; loaded = l }, true)
  unfolding rotate_and_copy
  rotate-marker id none [] rest l k split log le = cc split
  rotate-marker id none (x ∷ ls) rest l k split log le = cc split
  rotate-marker id (some old) ls rest l k split log le =
      let copied : copy_lines c id old [] cleared ≡ ((ls, l), true) =
        ap (λ x. copy_lines c id x [] cleared) split
        ∙ copy_lines-before c id ls (marker_line id ∷ rest) [] cleared l log le
        ∙ copy_lines-marker c id rest ls l in
      rw (copied) refl

  -- Reverting to a checkpoint undoes all that was recorded since, the checkpoint included: for a
  -- context reached from a new one by operations whose file operations succeed and whose messages
  -- are read back as written, and any appends, checkpoints and token counts after the checkpoint,
  -- the revert succeeds, what is loaded is what was loaded, and the file holds the log it held.
  pub checkpoint-revert_to :
      (before after : List (Op J)) (add_user_message : Bool)
      → All (ReadableOp c) before
      → All Onward after
      → let k = run c before (new c none) in
        let k' = run c after (checkpoint c true add_user_message k).0 in
        revert_to c true k.loaded.next_checkpoint_id k'
        ≡ (record { file = some (lines c k.file); loaded = k.loaded }, true)
  unfolding revert_to
  checkpoint-revert_to before after add r h =
      let k = run c before (new c none) in
      let id = k.loaded.next_checkpoint_id in
      let k1 = (checkpoint c true add k).0 in
      let k2 = run c after k1 in
      let s = run-Synced c before (new c none) r (new-Synced c) in
      let (rest, split, next) = checkpoint-Extends add k in
      let e = run-Extends after k1 h in
      let known : leb k2.loaded.next_checkpoint_id id ≡ false = ground (arith, next, e.later) in
      let all =
        e.split
        ∙ ap (λ l. l ++ e.more) split
        ∙ append_assoc (lines c k.file) (marker_line id ∷ rest) e.more in
      rw (known) (
        rotate-marker id k2.file (lines c k.file) (rest ++ e.more) k.loaded k2 all s.log
          (omega arith))
