-- ===== src/Kaos/Index.antt =====
-- server/kaos/src/cached.rs: the listing that `get_paths` caches, and the counter that dates it.
-- Calls interleave: a step is one stretch of a call that nothing interrupts, and `L` is a listing
-- of the working directory. The directory changes only while a call that changes it is under way;
-- `changing` counts these, which the code does not, and `listing` is what a walk finds that nothing
-- disturbs. Out of the model: programs that change the directory by themselves, calls that are
-- dropped halfway, and a `restore_snapshot` that fails after it wrote files.
pub mod Invariant
pub mod Fresh
use rusty_kimi.Common.{
  ℕ, ◌+◌, ◌-◌, ◌%◌, ◌^◌, ◌<◌, ◌≡◌, Bool, true, false, List, [], ◌∷◌, ◌++◌, Option, none, some, ltb,
  ◌==◌, if◌then◌else◌,
}

module _ (L : Type 0) where
  pub record Index : Type 0 where
    pub paths : L
    pub generation : ℕ

  -- How far a call of `get_paths` is past its fast path. A walk is disturbed once the directory
  -- changed under it.
  pub data Phase : Type 0 where
    walking : (disturbed : Bool) → Phase
    walked : (paths : L) → Phase
    current : (paths : L) → Phase

  pub record Scan : Type 0 where
    pub generation : ℕ
    pub phase : Phase

  pub record State : Type 0 where
    pub index : Option Index
    pub mutations : ℕ
    pub listing : L
    pub changing : ℕ
    pub scans : List Scan

  unfoldable pub mark_dirty : State → State
  mark_dirty s = record s { mutations = (s.mutations + 1) % 2 ^ 64 }

  -- The constructors: the first scan, if there is one and it succeeds, has generation 0.
  unfoldable pub first_index : Option L → Option Index
  first_index none = none
  first_index (some paths) = some (record { paths = paths; generation = 0 })

  unfoldable pub with_index : L → Option Index → State
  with_index listing index = record {
    index = index;
    mutations = 0;
    listing = listing;
    changing = 0;
    scans = [];
  }

  -- What the fast path of `get_paths` returns, if it is taken.
  unfoldable pub if_current : Option Index → ℕ → Option L
  if_current none m = none
  if_current (some index) m = if index.generation == m then some index.paths else none

  unfoldable pub cached : State → Option L
  unfolding if_current
  cached s = if_current s.index s.mutations

  abbrev pub is_newer : Option Index → ℕ → Bool
  is_newer none generation = false
  is_newer (some index) generation = ltb generation index.generation

  unfoldable pub publish : ℕ → L → Option Index → Option Index
  publish generation paths index =
      if is_newer index generation
      then index
      else some (record { paths = paths; generation = generation })

  -- A call of `get_paths` that nothing else runs beside.
  unfoldable pub scan_alone : State → Option L → State × L
  unfolding publish
  scan_alone s (some paths) = (s, paths)
  scan_alone s none = (record s { index = publish s.mutations s.listing s.index }, s.listing)

  unfoldable pub get_paths : State → State × L
  unfolding scan_alone cached
  get_paths s = scan_alone s (cached s)

  abbrev pub disturb_phase : Phase → Phase
  disturb_phase (walking _) = walking true
  disturb_phase (walked paths) = walked paths
  disturb_phase (current paths) = current paths

  unfoldable pub disturb : List Scan → List Scan
  disturb [] = []
  disturb (c ∷ cs) = record c { phase = disturb_phase c.phase } ∷ disturb cs

  -- What a walk can find.
  abbrev pub Finds : Bool → L → L → Type 0
  Finds true found listing = Unit
  Finds false found listing = found ≡ listing

  pub data Step (s : State) : State → Type 0 where
    -- `write_bytes`, `write_text`, `mkdir` and `exec` mark first; `undo` and `restore_snapshot` do not.
    begins_marked :
        s.mutations + 1 < 2 ^ 64 → Step s (mark_dirty (record s { changing = s.changing + 1 }))
    begins : Step s (record s { changing = s.changing + 1 })
    changes :
        (listing : L)
        → 0 < s.changing
        → Step s (record s { listing = listing; scans = disturb s.scans })
    -- All of them mark when they are done, `exec` by its handle.
    ends :
        0 < s.changing
        → s.mutations + 1 < 2 ^ 64
        → Step s (mark_dirty (record s { changing = s.changing - 1 }))
    -- A handle marks again when it is dropped, and a command that is not found marked once.
    marks : s.mutations + 1 < 2 ^ 64 → Step s (mark_dirty s)
    -- `get_paths` off its fast path: it reads the counter, walks, compares and publishes.
    starts :
        Step s (record s {
          scans = record { generation = s.mutations; phase = walking false } ∷ s.scans;
        })
    walks :
        (before after : List Scan) (generation : ℕ) (disturbed : Bool) (found : L)
        → s.scans ≡ before ++ record { generation = generation; phase = walking disturbed } ∷ after
        → Finds disturbed found s.listing
        → Step s (record s {
          scans = before ++ record { generation = generation; phase = walked found } ∷ after;
        })
    compares :
        (before after : List Scan) (generation : ℕ) (found : L)
        → s.scans ≡ before ++ record { generation = generation; phase = walked found } ∷ after
        → s.mutations ≡ generation
        → Step s (record s {
          scans = before ++ record { generation = generation; phase = current found } ∷ after;
        })
    publishes :
        (before after : List Scan) (generation : ℕ) (found : L)
        → s.scans ≡ before ++ record { generation = generation; phase = current found } ∷ after
        → Step s (record s { index = publish generation found s.index; scans = before ++ after })
    -- The walk fails, or the counter has moved.
    gives_up :
        (before after : List Scan) (c : Scan)
        → s.scans ≡ before ++ c ∷ after
        → Step s (record s { scans = before ++ after })

  pub data Steps (s : State) : State → Type 0 where
    here : Steps s s
    next : {t u : State} → Steps s t → Step t u → Steps s u
