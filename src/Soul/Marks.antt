-- ===== src/Soul/Marks.antt =====
-- A context in which each tool call is answered, also where a checkpoint was made, so that going
-- back to one keeps it so.
use rusty_kimi.Common.{
  ℕ, ◌<◌, ◌≡◌, refl, sym, subst, Bool, true, false, List, [], ◌∷◌, ◌++◌, map, Option, none, some,
  is_some, arith, leb, All, Bool-cases, inl, inr,
}
use rusty_kimi.Common.Int.{ℤ}
use rusty_kimi.Message.{Message, new as new_message}
use rusty_kimi.Context.{
  Codec, Parsed, malformed, foreign, usage, marker, message, Loaded, cleared, Context, lines,
  read_record, append_messages, checkpoint_message, checkpoint, update_token_count, is_marker,
  copy_lines, rotate_and_copy, revert_to, clear, clear_file,
}
use rusty_kimi.Context.Replay.{
  Readable, Log, Log-append, Synced, append_messages-Synced, update_token_count-Synced,
  checkpoint-Synced,
}
use rusty_kimi.Context.Revert.{copy_lines-Log, not_malformed}
use rusty_kimi.Soul.Answers.{Answered, append-Answered, users-Answered, wanted}

module _ {J : Type 0} (c : Codec J) where
  open c use {L, blank, parse, usage_line, marker_line, message_line}

  abbrev AtMarker : Parsed J → Loaded J → Type 0
  AtMarker (marker (some id)) l = Answered l.history
  AtMarker _ l = Unit

  -- What is loaded when a checkpoint's line is read has every call answered.
  abbrev pub Marked : List L → Loaded J → Type 0
  Marked [] l = Unit
  Marked (x ∷ xs) l =
      AtMarker (parse x) l × ((l' : Loaded J) → read_record c (parse x) l ≡ some l' → Marked xs l')

  Marked-append :
      (xs ys : List L) (l m : Loaded J)
      → Log c xs l m
      → Marked xs l
      → Marked ys m
      → Marked (xs ++ ys) l
  Marked-append [] ys l m g f h = subst (Marked ys) (sym g) h
  Marked-append (x ∷ xs) ys l m (l', solid, read, fresh, g) (a, f) h = (
    a,
    λ l'' e.
        let same : l' ≡ l'' = cc (read, e) in
        Marked-append xs ys l'' m (subst (λ z. Log c xs z m) same g) (f l'' e) h,
  )

  messages-Marked :
      (ms : List (Message J)) (l : Loaded J) → All (Readable c) ms → Marked (map message_line ms) l
  messages-Marked [] l r = tt
  messages-Marked (m ∷ ms) l (r, rs) = (rw (r) tt, λ l' e. messages-Marked ms l' rs)

  -- The log says what is in memory, and every call was answered at each checkpoint.
  pub record Logged (k : Context c) : Type 0 where
    pub synced : Synced c k
    pub marks : Marked (lines c k.file) cleared

  -- And now too.
  pub record Sound (k : Context c) : Type 0 where
    pub synced : Synced c k
    pub marks : Marked (lines c k.file) cleared
    pub now : Answered k.loaded.history

  pub append_messages-Logged :
      (ms : List (Message J)) (k : Context c)
      → All (Readable c) ms
      → Logged k
      → Logged (append_messages c true ms k).0
  unfolding append_messages
  append_messages-Logged ms k r s = record {
    synced = append_messages-Synced c ms k r s.synced;
    marks =
        Marked-append (lines c k.file) (map message_line ms) cleared k.loaded s.synced.log s.marks
          (messages-Marked ms k.loaded r);
  }

  pub append_messages-Sound :
      (ms : List (Message J)) (k : Context c)
      → All (Readable c) ms
      → Sound k
      → Answered ms
      → Sound (append_messages c true ms k).0
  unfolding append_messages
  append_messages-Sound ms k r s a =
      let g = append_messages-Logged ms k r (record { synced = s.synced; marks = s.marks }) in
      record {
        synced = g.synced;
        marks = g.marks;
        now = append-Answered k.loaded.history ms s.now a;
      }

  pub update_token_count-Logged :
      (n : ℤ) (k : Context c) → Logged k → Logged (update_token_count c true n k).0
  unfolding update_token_count
  update_token_count-Logged n k s = record {
    synced = update_token_count-Synced c n k s.synced;
    marks =
        Marked-append (lines c k.file) (usage_line n ∷ []) cleared k.loaded s.synced.log s.marks
          (rw (c.parse-usage_line n) tt, λ l' e. tt);
  }

  marker-Marked :
      (k : Context c)
      → Sound k
      → Marked (lines c k.file ++ marker_line k.loaded.next_checkpoint_id ∷ []) cleared
  marker-Marked k s =
      Marked-append (lines c k.file) (marker_line k.loaded.next_checkpoint_id ∷ []) cleared k.loaded
        s.synced.log s.marks
        (rw (c.parse-marker_line k.loaded.next_checkpoint_id) s.now, λ l' e. tt)

  checkpoint_message-Answered : (id : ℕ) → Answered (checkpoint_message c id ∷ [])
  unfolding checkpoint_message new_message
  checkpoint_message-Answered id = users-Answered (checkpoint_message c id) refl

  marker-Sound :
      (k : Context c)
      → ((m : Message J) → Readable c m)
      → Sound k
      → Sound (checkpoint c true false k).0
  unfolding checkpoint
  marker-Sound k r s = record {
    synced = checkpoint-Synced c false k (r _) s.synced;
    marks = marker-Marked k s;
    now = s.now;
  }

  pub checkpoint-Sound :
      (add : Bool) (k : Context c)
      → ((m : Message J) → Readable c m)
      → Sound k
      → Sound (checkpoint c true add k).0
  unfolding checkpoint
  checkpoint-Sound false k r s = marker-Sound k r s
  checkpoint-Sound true k r s =
      append_messages-Sound _ _ (r _, tt) (marker-Sound k r s)
        (checkpoint_message-Answered k.loaded.next_checkpoint_id)

  clear_file-Sound :
      (file : Option (List L)) (k : Context c)
      → is_some file ≡ true
      → Sound (clear_file c true file k).0
        × ((clear_file c true file k).1 ≡ true)
        × (is_some (clear_file c true file k).0.file ≡ true)
  unfolding clear_file wanted
  clear_file-Sound none k h = cc h
  clear_file-Sound (some ls) k h =
      (record { synced = record { log = refl }; marks = tt; now = refl }, refl, refl)

  pub clear-Sound :
      (k : Context c)
      → is_some k.file ≡ true
      → Sound (clear c true k).0
        × ((clear c true k).1 ≡ true)
        × (is_some (clear c true k).0.file ≡ true)
  unfolding clear
  clear-Sound k h = clear_file-Sound k.file k h

  is_marker-Answered :
      (id : ℕ) (p : Parsed J) (l : Loaded J)
      → is_marker c id p ≡ true
      → AtMarker p l
      → Answered l.history
  unfolding is_marker
  is_marker-Answered id (marker (some i)) l h a = a
  is_marker-Answered id (marker none) l h a = cc h
  is_marker-Answered id malformed l h a = cc h
  is_marker-Answered id foreign l h a = cc h
  is_marker-Answered id (usage n) l h a = cc h
  is_marker-Answered id (message m) l h a = cc h

  copy_lines-Marked :
      (id : ℕ) (rest kept : List L) (l n : Loaded J)
      → Log c rest l n
      → Marked rest l
      → Answered n.history
      → Log c kept cleared l
      → Marked kept cleared
      → let ((kept', m), done) = copy_lines c id rest kept l in
        Marked kept' cleared × Answered m.history
  unfolding copy_lines
  copy_lines-Marked id [] kept l n h f a g b = (b, subst (λ x. Answered x.history) (sym h) a)
  copy_lines-Marked id (x ∷ xs) kept l n (l', solid, read, fresh, h) (at, f) a g b =
      let fine = not_malformed c (parse x) l l' read in
      elim (Bool-cases (is_marker c id (parse x))) [
        | inl here ↦
            rw (solid, copy_lines)
              (rw (fine) (rw (here) (b, is_marker-Answered id (parse x) l here at)))
        | inr not_here ↦
            let longer : Log c (kept ++ x ∷ []) cleared l' =
              Log-append c kept (x ∷ []) cleared l l' g (l', solid, read, fresh, refl) in
            let marked : Marked (kept ++ x ∷ []) cleared =
              Marked-append kept (x ∷ []) cleared l g b (at, λ z e. tt) in
            rw (solid, copy_lines)
              (rw (fine) (
                rw (not_here) (
                  rw (read)
                    (copy_lines-Marked id xs (kept ++ x ∷ []) l' n h (f l' read) a longer marked))))
      ]

  rotate-Sound :
      (id : ℕ) (file : Option (List L)) (k : Context c)
      → k.file ≡ file
      → is_some file ≡ true
      → Sound k
      → Sound (rotate_and_copy c true id file k).0
        × ((rotate_and_copy c true id file k).1 ≡ true)
        × (is_some (rotate_and_copy c true id file k).0.file ≡ true)
  unfolding rotate_and_copy
  rotate-Sound id none k e h s = cc h
  rotate-Sound id (some old) k e h s =
      let log : Log c old cleared k.loaded =
        subst (λ f. Log c (lines c f) cleared k.loaded) e s.synced.log in
      let marks : Marked old cleared = subst (λ f. Marked (lines c f) cleared) e s.marks in
      let (log', done) = copy_lines-Log c id old [] cleared k.loaded log refl in
      let (marks', now) = copy_lines-Marked id old [] cleared k.loaded log marks s.now refl tt in
      (record { synced = record { log = log' }; marks = marks'; now = now }, done, refl)

  -- Going back to a checkpoint that was made succeeds.
  pub revert_to-Sound :
      (id : ℕ) (k : Context c)
      → id < k.loaded.next_checkpoint_id
      → is_some k.file ≡ true
      → Sound k
      → Sound (revert_to c true id k).0
        × ((revert_to c true id k).1 ≡ true)
        × (is_some (revert_to c true id k).0.file ≡ true)
  unfolding revert_to
  revert_to-Sound id k lt h s =
      let known : leb k.loaded.next_checkpoint_id id ≡ false = ground (arith, lt) in
      rw (known) (rotate-Sound id k.file k refl h s)
