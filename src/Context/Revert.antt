-- ===== src/Context/Revert.antt =====
-- Reverting: what is kept is a log again, and a revert to a checkpoint undoes what came after it.
use rusty_kimi.Common.{
  ℕ, ◌≤◌, ◌≡◌, ◌≢◌, refl, sym, ◌∙◌, ap, Bool, true, false, List, [], ◌∷◌, ◌++◌, Option, none, some,
  arith, leb, append_assoc, append-nil, All, Bool-cases, inl, inr, subst,
}
use rusty_kimi.Common.Int.{ℤ}
use rusty_kimi.Message.{Message}
use rusty_kimi.Context.{
  Codec, Parsed, malformed, foreign, usage, marker, message, Loaded, cleared, Context, new, lines,
  read_record, restore, append_messages, checkpoint_message, checkpoint, update_token_count,
  is_marker, is_malformed, copy_lines, rotate_and_copy, revert_to, clear, clear_file,
}
use rusty_kimi.Context.Replay.{
  Readable, Log, Log-append, Log-next, restore_lines-Log, Synced, append_messages-Synced,
  update_token_count-Synced, checkpoint-Synced,
}

pub data Op (J : Type 0) : Type 0 where
  appends : List (Message J) → Op J
  checkpoints : (add_user_message : Bool) → Op J
  counts : ℤ → Op J
  reverts : ℕ → Op J
  clears : Op J

module _ {J : Type 0} (c : Codec J) where
  open c use {L, blank, parse, usage_line, marker_line, message_line}

  pub not_malformed :
      (p : Parsed J) (l l' : Loaded J) → read_record c p l ≡ some l' → is_malformed c p ≡ false
  unfolding read_record
  not_malformed malformed l l' h = cc h
  not_malformed foreign l l' h = refl
  not_malformed (usage n) l l' h = refl
  not_malformed (marker id) l l' h = refl
  not_malformed (message m) l l' h = refl

  -- What is copied is a log too.
  pub copy_lines-Log :
      (id : ℕ) (rest kept : List L) (l n : Loaded J)
      → Log c rest l n
      → Log c kept cleared l
      → let ((kept', m), done) = copy_lines c id rest kept l in
        Log c kept' cleared m × (done ≡ true)
  unfolding copy_lines
  copy_lines-Log id [] kept l n h g = (g, refl)
  copy_lines-Log id (x ∷ xs) kept l n (l', solid, read, fresh, h) g =
      let fine = not_malformed (parse x) l l' read in
      elim (Bool-cases (is_marker c id (parse x))) [
        | inl here ↦ rw (solid, copy_lines) (rw (fine) (rw (here) (g, refl)))
        | inr not_here ↦
            let longer : Log c (kept ++ x ∷ []) cleared l' =
              Log-append c kept (x ∷ []) cleared l l' g (l', solid, read, fresh, refl) in
            rw (solid, copy_lines)
              (rw (fine)
                (rw (not_here) (rw (read) (copy_lines-Log id xs (kept ++ x ∷ []) l' n h longer))))
      ]

  before_marker :
      (p : Parsed J) (id : ℕ) (l l' : Loaded J)
      → read_record c p l ≡ some l'
      → l'.next_checkpoint_id ≤ id
      → is_marker c id p ≡ false
  unfolding read_record is_marker
  before_marker (marker (some i)) id l l' h le = ground (arith, h)
  before_marker (marker none) id l l' h le = refl
  before_marker malformed id l l' h le = refl
  before_marker foreign id l l' h le = refl
  before_marker (usage n) id l l' h le = refl
  before_marker (message m) id l l' h le = refl

  -- A log whose checkpoints are all older is copied whole.
  pub copy_lines-before :
      (id : ℕ) (ls more kept : List L) (l m : Loaded J)
      → Log c ls l m
      → m.next_checkpoint_id ≤ id
      → copy_lines c id (ls ++ more) kept l ≡ copy_lines c id more (kept ++ ls) m
  unfolding copy_lines
  copy_lines-before id [] more kept l m h le =
      subst (λ k. copy_lines c id more kept l ≡ copy_lines c id more k m) (sym (append-nil kept))
        (ap (copy_lines c id more kept) h)
  copy_lines-before id (x ∷ xs) more kept l m (l', solid, read, fresh, h) le =
      let fine = not_malformed (parse x) l l' read in
      let older = before_marker (parse x) id l l' read (omega (arith, Log-next c xs l' m h)) in
      let rest = copy_lines-before id xs more (kept ++ x ∷ []) l' m h le in
      rw (solid, copy_lines)
        (rw (fine) (
          rw (older) (
            rw (read) (rest ∙ ap (λ k. copy_lines c id more k m) (append_assoc kept (x ∷ []) xs)))))

  pub copy_lines-marker :
      (id : ℕ) (rest kept : List L) (l : Loaded J)
      → copy_lines c id (marker_line id ∷ rest) kept l ≡ ((kept, l), true)
  unfolding copy_lines
  copy_lines-marker id rest kept l =
      let found : is_marker c id (marker (some id)) ≡ true = unfold is_marker in ground arith in
      rw (c.blank-marker_line id, copy_lines) (rw (c.parse-marker_line id) (rw (found) refl))

  rotate-Synced :
      (id : ℕ) (file : Option (List L)) (k : Context c)
      → k.file ≡ file
      → Synced c k
      → Synced c (rotate_and_copy c true id file k).0
  unfolding rotate_and_copy
  rotate-Synced id none k e s = s
  rotate-Synced id (some old) k e s =
      let log : Log c old cleared k.loaded =
        subst (λ f. Log c (lines c f) cleared k.loaded) e s.log in
      record { log = (copy_lines-Log id old [] cleared k.loaded log refl).0 }

  revert_to-Synced : (id : ℕ) (k : Context c) → Synced c k → Synced c (revert_to c true id k).0
  unfolding revert_to
  revert_to-Synced id k s = elim (Bool-cases (leb k.loaded.next_checkpoint_id id)) [
    | inl beyond ↦ rw (beyond) s
    | inr within ↦ rw (within) (rotate-Synced id k.file k refl s)
  ]

  clear_file-Synced :
      (file : Option (List L)) (k : Context c) → Synced c k → Synced c (clear_file c true file k).0
  unfolding clear_file
  clear_file-Synced none k s = s
  clear_file-Synced (some ls) k s = record { log = refl }

  -- The operation, when its file operations succeed.
  unfoldable pub call : Op J → Context c → Context c
  unfolding clear
  call (appends ms) k = (append_messages c true ms k).0
  call (checkpoints add) k = (checkpoint c true add k).0
  call (counts n) k = (update_token_count c true n k).0
  call (reverts id) k = (revert_to c true id k).0
  call clears k = (clear c true k).0

  unfoldable pub run : List (Op J) → Context c → Context c
  unfolding call
  run [] k = k
  run (o ∷ os) k = run os (call o k)

  -- The messages that the operation writes are read back as written.
  abbrev pub ReadableOp : Op J → Type 0
  ReadableOp (appends ms) = All (Readable c) ms
  ReadableOp (checkpoints add) = (id : ℕ) → Readable c (checkpoint_message c id)
  ReadableOp _ = Unit

  call-Synced : (o : Op J) (k : Context c) → ReadableOp o → Synced c k → Synced c (call o k)
  unfolding call clear
  call-Synced (appends ms) k r s = append_messages-Synced c ms k r s
  call-Synced (checkpoints add) k r s = checkpoint-Synced c add k (r k.loaded.next_checkpoint_id) s
  call-Synced (counts n) k r s = update_token_count-Synced c n k s
  call-Synced (reverts id) k r s = revert_to-Synced id k s
  call-Synced clears k r s = clear_file-Synced k.file k s

  pub run-Synced :
      (os : List (Op J)) (k : Context c) → All ReadableOp os → Synced c k → Synced c (run os k)
  unfolding run
  run-Synced [] k r s = s
  run-Synced (o ∷ os) k (r, rs) s = run-Synced os (call o k) rs (call-Synced o k r s)

  pub new-Synced : Synced c (new c none)
  unfolding new
  new-Synced = record { log = refl }

  restore-Synced :
      (file : Option (List L)) (l : Loaded J)
      → Log c (lines c file) cleared l
      → ((restore c (new c file)).0 ≡ record { file = file; loaded = l })
        × ((restore c (new c file)).1 ≢ none)
  unfolding restore new
  restore-Synced none l h = (ap (λ x. record { file = none; loaded = x }) h, λ e. cc e)
  restore-Synced (some []) l h = (ap (λ x. record { file = some []; loaded = x }) h, λ e. cc e)
  restore-Synced (some (x ∷ xs)) l h =
      rw (restore_lines-Log c (x ∷ xs) cleared l h) (refl, λ e. cc e)

  -- After any operations on a new context, whose file operations succeed and whose messages are
  -- read back as written, a context restored from the file alone is the one in memory: the same
  -- history, token count and next checkpoint, and restoring is no error.
  pub run-restore :
      (os : List (Op J))
      → All ReadableOp os
      → let k = run os (new c none) in
        ((restore c (new c k.file)).0 ≡ k) × ((restore c (new c k.file)).1 ≢ none)
  run-restore os r =
      let k = run os (new c none) in
      let s = run-Synced os (new c none) r new-Synced in restore-Synced k.file k.loaded s.log
