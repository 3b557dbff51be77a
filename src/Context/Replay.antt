-- ===== src/Context/Replay.antt =====
-- The log on disk and the conversation in memory say the same.
use rusty_kimi.Common.{
  ◌+◌, ◌≤◌, ◌≡◌, refl, sym, ap, Bool, true, false, List, [], ◌∷◌, ◌++◌, map, none, some, arith,
  append_assoc, append-nil, subst, All,
}
use rusty_kimi.Common.Int.{ℤ}
use rusty_kimi.Message.{Message}
use rusty_kimi.Context.{
  Codec, Parsed, malformed, foreign, usage, marker, message, Loaded, cleared, Context, lines,
  read_record, restore_lines, append_messages, checkpoint_message, checkpoint, update_token_count,
}

module _ {J : Type 0} (c : Codec J) where
  open c use {L, blank, parse, usage_line, marker_line, message_line}

  -- The message is read back as it was written.
  abbrev pub Readable : Message J → Type 0
  Readable m = parse (message_line m) ≡ message m

  -- A checkpoint's id is none of those before it.
  abbrev pub Fresh : Parsed J → Loaded J → Type 0
  Fresh (marker (some id)) l = l.next_checkpoint_id ≤ id
  Fresh _ l = Unit

  -- A log that takes what is loaded from `l` to `l''`, line by line.
  abbrev pub Log : List L → Loaded J → Loaded J → Type 0
  Log [] l l'' = l ≡ l''
  Log (line ∷ rest) l l'' =
      (l' : Loaded J) × (blank line ≡ false)
      × (read_record c (parse line) l ≡ some l')
      × Fresh (parse line) l
      × Log rest l' l''

  pub Log-append :
      (xs ys : List L) (l m n : Loaded J) → Log xs l m → Log ys m n → Log (xs ++ ys) l n
  Log-append [] ys l m n g h = subst (λ x. Log ys x n) (sym g) h
  Log-append (x ∷ xs) ys l m n (l', solid, read, fresh, g) h =
      (l', solid, read, fresh, Log-append xs ys l' m n g h)

  pub restore_lines-Log :
      (ls : List L) (l m : Loaded J) → Log ls l m → restore_lines c ls l ≡ (m, true)
  unfolding restore_lines
  restore_lines-Log [] l m h = ap (λ x. (x, true)) h
  restore_lines-Log (x ∷ xs) l m (l', solid, read, fresh, g) =
      rw (solid, restore_lines) (rw (read) (restore_lines-Log xs l' m g))

  read_record-next :
      (p : Parsed J) (l l' : Loaded J)
      → read_record c p l ≡ some l'
      → Fresh p l
      → l.next_checkpoint_id ≤ l'.next_checkpoint_id
  unfolding read_record
  read_record-next malformed l l' h f = cc h
  read_record-next foreign l l' h f = cc h
  read_record-next (usage none) l l' h f = ground (arith, h)
  read_record-next (usage (some n)) l l' h f = ground (arith, h)
  read_record-next (marker none) l l' h f = ground (arith, h)
  read_record-next (marker (some id)) l l' h f = ground (arith, h, f)
  read_record-next (message m) l l' h f = ground (arith, h)

  pub Log-next :
      (ls : List L) (l m : Loaded J) → Log ls l m → l.next_checkpoint_id ≤ m.next_checkpoint_id
  Log-next [] l m h = omega (arith, ap (λ x. x.next_checkpoint_id) h)
  Log-next (x ∷ xs) l m (l', solid, read, fresh, g) =
      omega (arith, read_record-next (parse x) l l' read fresh, Log-next xs l' m g)

  messages-Log :
      (ms : List (Message J)) (l : Loaded J)
      → All Readable ms
      → Log (map message_line ms) l (record l { history = l.history ++ ms })
  unfolding read_record
  messages-Log [] l r = ap (λ h. record l { history = h }) (sym (append-nil l.history))
  messages-Log (m ∷ ms) l (r, rs) =
      let l' = record l { history = l.history ++ m ∷ [] } in
      (
        l',
        c.blank-message_line m,
        rw (r) refl,
        rw (r) tt,
        subst (λ h. Log (map message_line ms) l' (record l { history = h }))
            (append_assoc l.history (m ∷ []) ms) (messages-Log ms l' rs),
      )

  -- A context whose log, read from nothing, gives what it holds.
  pub record Synced (k : Context c) : Type 0 where
    pub log : Log (lines c k.file) cleared k.loaded

  append_lines-Synced :
      (k : Context c) (ls : List L) (l : Loaded J)
      → Synced k
      → Log ls k.loaded l
      → Synced (record { file = some (lines c k.file ++ ls); loaded = l })
  append_lines-Synced k ls l s g = record {
    log = Log-append (lines c k.file) ls cleared k.loaded l s.log g;
  }

  pub append_messages-Synced :
      (ms : List (Message J)) (k : Context c)
      → All Readable ms
      → Synced k
      → Synced (append_messages c true ms k).0
  unfolding append_messages
  append_messages-Synced ms k r s =
      append_lines-Synced k (map message_line ms)
        (record k.loaded { history = k.loaded.history ++ ms }) s (messages-Log ms k.loaded r)

  pub update_token_count-Synced :
      (n : ℤ) (k : Context c) → Synced k → Synced (update_token_count c true n k).0
  unfolding update_token_count read_record
  update_token_count-Synced n k s =
      let l = record k.loaded { token_count = n } in
      append_lines-Synced k (usage_line n ∷ []) l s (
        l,
        c.blank-usage_line n,
        rw (c.parse-usage_line n) refl,
        rw (c.parse-usage_line n) tt,
        refl,
      )

  marked-Synced :
      (k : Context c)
      → Synced k
      → let id = k.loaded.next_checkpoint_id in
        Synced (record {
          file = some (lines c k.file ++ marker_line id ∷ []);
          loaded = record k.loaded { next_checkpoint_id = id + 1 };
        })
  unfolding read_record
  marked-Synced k s =
      let id = k.loaded.next_checkpoint_id in
      let l = record k.loaded { next_checkpoint_id = id + 1 } in
      append_lines-Synced k (marker_line id ∷ []) l s (
        l,
        c.blank-marker_line id,
        rw (c.parse-marker_line id) refl,
        rw (c.parse-marker_line id) (omega arith),
        refl,
      )

  pub checkpoint-Synced :
      (add_user_message : Bool) (k : Context c)
      → Readable (checkpoint_message c k.loaded.next_checkpoint_id)
      → Synced k
      → Synced (checkpoint c true add_user_message k).0
  unfolding checkpoint
  checkpoint-Synced false k r s = marked-Synced k s
  checkpoint-Synced true k r s =
      append_messages-Synced (checkpoint_message c k.loaded.next_checkpoint_id ∷ [])
        (record {
          file = some (lines c k.file ++ marker_line k.loaded.next_checkpoint_id ∷ []);
          loaded = record k.loaded { next_checkpoint_id = k.loaded.next_checkpoint_id + 1 };
        })
        (r, tt) (marked-Synced k s)
