-- ===== src/Context.antt =====
-- server/dvadva-agent/src/soul/context.rs: the conversation in memory and its log on disk.
-- The file is its lines. What serde_json and the serializers of message.rs make of a line is an
-- interface (`Codec`). An operation's `Bool` says whether its file operations succeed. Ids of
-- checkpoints count from 0 and stay below 2^63.
pub mod Replay
pub mod Revert
pub mod Checkpoints
use rusty_kimi.Common.{
  ℕ, zero, suc, ◌+◌, ◌/◌, ◌%◌, ◌≡◌, Bool, true, false, List, [], ◌∷◌, ◌++◌, map, Option, none, some,
  ltb, leb, ◌==◌, if◌then◌else◌,
}
use rusty_kimi.Common.Int.{ℤ, pos}
use rusty_kimi.Message.{Text, ContentPart, text, Message, user, new as new_message}

-- A line as JSON: not JSON, a usage or checkpoint record, a message, or JSON that is no message.
pub data Parsed (J : Type 0) : Type 0 where
  malformed foreign : Parsed J
  usage : (token_count : Option ℤ) → Parsed J
  marker : (id : Option ℕ) → Parsed J
  message : Message J → Parsed J

pub record Codec (J : Type 0) : Type 1 where
  pub L : Type 0
  pub blank : L → Bool
  pub parse : L → Parsed J
  pub usage_line : ℤ → L
  pub marker_line : ℕ → L
  pub message_line : Message J → L
  -- The printed records are read back, and what is printed is no blank line.
  pub parse-usage_line : (n : ℤ) → parse (usage_line n) ≡ usage (some n)
  pub parse-marker_line : (n : ℕ) → parse (marker_line n) ≡ marker (some n)
  pub blank-usage_line : (n : ℤ) → blank (usage_line n) ≡ false
  pub blank-marker_line : (n : ℕ) → blank (marker_line n) ≡ false
  pub blank-message_line : (m : Message J) → blank (message_line m) ≡ false

pub record Loaded (J : Type 0) : Type 0 where
  pub history : List (Message J)
  pub token_count : ℤ
  pub next_checkpoint_id : ℕ

abbrev pub cleared : {J : Type 0} → Loaded J
cleared = record { history = []; token_count = pos 0; next_checkpoint_id = 0 }

-- The decimal digits of a number, given fuel for as many.
unfoldable pub digits : ℕ → ℕ → Text
digits zero n = []
digits (suc fuel) n =
    let rest = digits fuel (n / 10) in
    if ltb n 10 then (48 + n) ∷ [] else rest ++ (48 + n % 10) ∷ []

-- `<system>CHECKPOINT {id}</system>`.
unfoldable pub checkpoint_text : ℕ → Text
unfolding digits
checkpoint_text id =
    (60 ∷ 115 ∷ 121 ∷ 115 ∷ 116 ∷ 101 ∷ 109 ∷ 62 ∷ [])
    ++ ((67 ∷ 72 ∷ 69 ∷ 67 ∷ 75 ∷ 80 ∷ 79 ∷ 73 ∷ 78 ∷ 84 ∷ 32 ∷ [])
        ++ (digits (id + 1) id ++ (60 ∷ 47 ∷ 115 ∷ 121 ∷ 115 ∷ 116 ∷ 101 ∷ 109 ∷ 62 ∷ [])))

module _ {J : Type 0} (c : Codec J) where
  open c use {L, blank, parse, usage_line, marker_line, message_line}

  -- `file`: `none` if there is no file.
  pub record Context : Type 0 where
    pub file : Option (List L)
    pub loaded : Loaded J

  unfoldable pub new : Option (List L) → Context
  new file = record { file = file; loaded = cleared }

  abbrev pub lines : Option (List L) → List L
  lines none = []
  lines (some ls) = ls

  -- What one line does to what is loaded; `none` is an error.
  unfoldable pub read_record : Parsed J → Loaded J → Option (Loaded J)
  read_record malformed l = none
  read_record foreign l = none
  read_record (usage none) l = some l
  read_record (usage (some n)) l = some (record l { token_count = n })
  read_record (marker none) l = some l
  read_record (marker (some id)) l = some (record l { next_checkpoint_id = id + 1 })
  read_record (message m) l = some (record l { history = l.history ++ m ∷ [] })

  -- The loop of `restore`; `false`: it ended in an error, with what was loaded by then.
  unfoldable pub restore_lines : List L → Loaded J → Loaded J × Bool
  unfolding read_record
  restore_lines [] l = (l, true)
  restore_lines (line ∷ rest) l =
      if blank line
      then restore_lines rest l
      else elim (read_record (parse line) l) [ none ↦ (l, false) | some l' ↦ restore_lines rest l' ]

  unfoldable pub restore_file : List (Message J) → Option (List L) → Context → Context × Option Bool
  unfolding restore_lines
  restore_file (_ ∷ _) file k = (k, none)
  restore_file [] none k = (k, some false)
  restore_file [] (some []) k = (k, some false)
  restore_file [] (some (line ∷ rest)) k =
      let (l, done) = restore_lines (line ∷ rest) k.loaded in
      (record k { loaded = l }, if done then some true else none)

  -- `none`: an error; `some false`: there was nothing to restore.
  unfoldable pub restore : Context → Context × Option Bool
  unfolding restore_file
  restore k = restore_file k.loaded.history k.file k

  abbrev pub append_lines : List L → Context → Context
  append_lines ls k = record k { file = some (lines k.file ++ ls) }

  unfoldable pub append_messages : Bool → List (Message J) → Context → Context × Bool
  append_messages io ms k =
      let k' = record k { loaded = record k.loaded { history = k.loaded.history ++ ms } } in
      if io then (append_lines (map message_line ms) k', true) else (k', false)

  unfoldable pub checkpoint_message : ℕ → Message J
  unfolding checkpoint_text new_message
  checkpoint_message id = new_message user (text (checkpoint_text id) ∷ [])

  unfoldable pub checkpoint : Bool → Bool → Context → Context × Bool
  unfolding append_messages checkpoint_message
  checkpoint io add_user_message k =
      let id = k.loaded.next_checkpoint_id in
      let k1 = record k { loaded = record k.loaded { next_checkpoint_id = id + 1 } } in
      let k2 = append_lines (marker_line id ∷ []) k1 in
      let k3 = append_messages io (checkpoint_message id ∷ []) k2 in
      if io then if add_user_message then k3 else (k2, true) else (k1, false)

  unfoldable pub update_token_count : Bool → ℤ → Context → Context × Bool
  update_token_count io n k =
      let k' = record k { loaded = record k.loaded { token_count = n } } in
      if io then (append_lines (usage_line n ∷ []) k', true) else (k', false)

  unfoldable pub is_marker : ℕ → Parsed J → Bool
  is_marker id (marker (some i)) = i == id
  is_marker id _ = false

  abbrev pub is_malformed : Parsed J → Bool
  is_malformed malformed = true
  is_malformed _ = false

  -- The loop of `revert_to`, with the lines written to the new file so far.
  unfoldable pub copy_lines : ℕ → List L → List L → Loaded J → (List L × Loaded J) × Bool
  unfolding read_record is_marker
  copy_lines id [] new l = ((new, l), true)
  copy_lines id (line ∷ rest) new l =
      if blank line
      then copy_lines id rest new l
      else if is_malformed (parse line)
      then ((new, l), false)
      else if is_marker id (parse line)
      then ((new, l), true)
      else elim (read_record (parse line) l) [
        | none ↦ ((new ++ line ∷ [], l), false)
        | some l' ↦ copy_lines id rest (new ++ line ∷ []) l'
      ]

  -- Without a file there is nothing to rotate.
  unfoldable pub rotate_and_copy : Bool → ℕ → Option (List L) → Context → Context × Bool
  unfolding copy_lines
  rotate_and_copy true id (some old) k =
      let ((new, l), done) = copy_lines id old [] cleared in
      (record { file = some new; loaded = l }, done)
  rotate_and_copy _ id _ k = (k, false)

  unfoldable pub revert_to : Bool → ℕ → Context → Context × Bool
  unfolding rotate_and_copy
  revert_to io id k =
      if leb k.loaded.next_checkpoint_id id then (k, false) else rotate_and_copy io id k.file k

  unfoldable pub clear_file : Bool → Option (List L) → Context → Context × Bool
  clear_file true (some _) k = (record { file = some []; loaded = cleared }, true)
  clear_file _ _ k = (k, false)

  unfoldable pub clear : Bool → Context → Context × Bool
  unfolding clear_file
  clear io k = clear_file io k.file k
