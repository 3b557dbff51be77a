-- ===== src/Kaos/Index/Invariant.antt =====
-- What stays true of the index and of the scans under way.
use rusty_kimi.Common.{
  ℕ, ◌+◌, ◌-◌, ◌%◌, ◌^◌, ◌≤◌, ◌<◌, ◌≡◌, subst, Bool, true, false, List, [], ◌∷◌, ◌++◌, Option, none,
  some, arith, All, All-append, All-unappend, Bool-cases, inl, inr, ltb,
}
use rusty_kimi.Kaos.Index.{
  Index, Phase, walking, walked, current, Scan, State, mark_dirty, publish, disturb, disturb_phase,
  Finds, Step, begins_marked, begins, changes, ends, marks, starts, walks, compares, publishes,
  gives_up, Steps, here, next,
}

module _ (L : Type 0) where
  -- What was found by a scan of this generation is true while nothing changes.
  abbrev pub Holds : ℕ → L → ℕ → ℕ → L → Type 0
  Holds m listing changing g found = (g ≤ m) × ((g ≡ m) → (changing ≡ 0) → found ≡ listing)

  abbrev pub PhaseOk : ℕ → L → ℕ → ℕ → Phase L → Type 0
  PhaseOk m listing changing g (walking true) = (g ≤ m) × ((g ≡ m) → 0 < changing)
  PhaseOk m listing changing g (walking false) = g ≤ m
  PhaseOk m listing changing g (walked found) = Holds m listing changing g found
  PhaseOk m listing changing g (current found) = Holds m listing changing g found

  abbrev pub ScanOk : ℕ → L → ℕ → Scan L → Type 0
  ScanOk m listing changing c = PhaseOk m listing changing c.generation c.phase

  abbrev pub IndexOk : ℕ → L → ℕ → Option (Index L) → Type 0
  IndexOk m listing changing none = Unit
  IndexOk m listing changing (some i) = Holds m listing changing i.generation i.paths

  abbrev pub Inv : State L → Type 0
  Inv s =
      IndexOk s.mutations s.listing s.changing s.index
      × All (ScanOk s.mutations s.listing s.changing) s.scans

  -- A mark outdates everything.
  index-marked :
      (m c c' : ℕ) (l l' : L) (i : Option (Index L)) → IndexOk m l c i → IndexOk (m + 1) l' c' i
  index-marked m c c' l l' none h = tt
  index-marked m c c' l l' (some i) h = (omega (arith, h.0), λ e z. absurd (omega (arith, h.0, e)))

  phase-marked :
      (m c c' g : ℕ) (l l' : L) (p : Phase L) → PhaseOk m l c g p → PhaseOk (m + 1) l' c' g p
  phase-marked m c c' g l l' (walking true) h =
      (omega (arith, h.0), λ e. absurd (omega (arith, h.0, e)))
  phase-marked m c c' g l l' (walking false) h = omega (arith, h)
  phase-marked m c c' g l l' (walked f) h =
      (omega (arith, h.0), λ e z. absurd (omega (arith, h.0, e)))
  phase-marked m c c' g l l' (current f) h =
      (omega (arith, h.0), λ e z. absurd (omega (arith, h.0, e)))

  scans-marked :
      (m c c' : ℕ) (l l' : L) (cs : List (Scan L))
      → All (ScanOk m l c) cs
      → All (ScanOk (m + 1) l' c') cs
  scans-marked m c c' l l' [] h = tt
  scans-marked m c c' l l' (x ∷ cs) (h, hs) =
      (phase-marked m c c' x.generation l l' x.phase h, scans-marked m c c' l l' cs hs)

  -- While a change is under way nothing has to hold.
  index-busy :
      (m c c' : ℕ) (l l' : L) (i : Option (Index L)) → 0 < c' → IndexOk m l c i → IndexOk m l' c' i
  index-busy m c c' l l' none b h = tt
  index-busy m c c' l l' (some i) b h = (h.0, λ e z. absurd (omega (arith, b, z)))

  phase-busy :
      (m c c' g : ℕ) (l l' : L) (p : Phase L) → 0 < c' → PhaseOk m l c g p → PhaseOk m l' c' g p
  phase-busy m c c' g l l' (walking true) b h = (h.0, λ e. b)
  phase-busy m c c' g l l' (walking false) b h = h
  phase-busy m c c' g l l' (walked f) b h = (h.0, λ e z. absurd (omega (arith, b, z)))
  phase-busy m c c' g l l' (current f) b h = (h.0, λ e z. absurd (omega (arith, b, z)))

  scans-busy :
      (m c c' : ℕ) (l l' : L) (cs : List (Scan L))
      → 0 < c'
      → All (ScanOk m l c) cs
      → All (ScanOk m l' c') cs
  scans-busy m c c' l l' [] b h = tt
  scans-busy m c c' l l' (x ∷ cs) b (h, hs) =
      (phase-busy m c c' x.generation l l' x.phase b h, scans-busy m c c' l l' cs b hs)

  disturb_phase-ok :
      (m c g : ℕ) (l : L) (p : Phase L)
      → 0 < c
      → PhaseOk m l c g p
      → PhaseOk m l c g (disturb_phase L p)
  disturb_phase-ok m c g l (walking true) b h = h
  disturb_phase-ok m c g l (walking false) b h = (h, λ e. b)
  disturb_phase-ok m c g l (walked f) b h = h
  disturb_phase-ok m c g l (current f) b h = h

  disturb-ok :
      (m c : ℕ) (l : L) (cs : List (Scan L))
      → 0 < c
      → All (ScanOk m l c) cs
      → All (ScanOk m l c) (disturb L cs)
  unfolding disturb
  disturb-ok m c l [] b h = tt
  disturb-ok m c l (x ∷ cs) b (h, hs) =
      (disturb_phase-ok m c x.generation l x.phase b h, disturb-ok m c l cs b hs)

  walk-Holds :
      (m c g : ℕ) (l : L) (d : Bool) (found : L)
      → PhaseOk m l c g (walking d)
      → Finds L d found l
      → Holds m l c g found
  walk-Holds m c g l true found h f = (h.0, λ e z. absurd (omega (arith, h.1 e, z)))
  walk-Holds m c g l false found h f = (h, λ e z. f)

  publish-ok :
      (m c g : ℕ) (l found : L) (i : Option (Index L))
      → Holds m l c g found
      → IndexOk m l c i
      → IndexOk m l c (publish L g found i)
  unfolding publish
  publish-ok m c g l found none h i = h
  publish-ok m c g l found (some x) h i = elim (Bool-cases (ltb g x.generation)) [
    | inl newer ↦ rw (newer) i
    | inr older ↦ rw (older) h
  ]

  split-ok :
      (s : State L) (xs : List (Scan L)) (c : Scan L) (ys : List (Scan L))
      → s.scans ≡ xs ++ c ∷ ys
      → Inv s
      → All (ScanOk s.mutations s.listing s.changing) xs
        × (ScanOk s.mutations s.listing s.changing c
            × All (ScanOk s.mutations s.listing s.changing) ys)
  split-ok s xs c ys e i =
      All-unappend (ScanOk s.mutations s.listing s.changing) xs (c ∷ ys)
        (subst (All (ScanOk s.mutations s.listing s.changing)) e i.1)

  join-ok :
      (s : State L) (xs : List (Scan L)) (c : Scan L) (ys : List (Scan L))
      → All (ScanOk s.mutations s.listing s.changing) xs
      → ScanOk s.mutations s.listing s.changing c
      → All (ScanOk s.mutations s.listing s.changing) ys
      → All (ScanOk s.mutations s.listing s.changing) (xs ++ c ∷ ys)
  join-ok s xs c ys hx h hy =
      All-append (ScanOk s.mutations s.listing s.changing) xs (c ∷ ys) hx (h, hy)

  mark_dirty-Inv :
      (s : State L) (c : ℕ)
      → s.mutations + 1 < 2 ^ 64
      → Inv s
      → Inv (mark_dirty L (record s { changing = c }))
  unfolding mark_dirty
  mark_dirty-Inv s c h (i, cs) =
      let no_wrap : (s.mutations + 1) % 2 ^ 64 ≡ s.mutations + 1 = omega (arith, h) in
      rw (no_wrap) (
        index-marked s.mutations s.changing c s.listing s.listing s.index i,
        scans-marked s.mutations s.changing c s.listing s.listing s.scans cs,
      )

  Step-Inv : {s t : State L} → Step L s t → Inv s → Inv t
  Step-Inv {s} (begins_marked h) i = mark_dirty-Inv s (s.changing + 1) h i
  Step-Inv {s} begins (i, cs) = (
    index-busy s.mutations s.changing (s.changing + 1) s.listing s.listing s.index (omega arith) i,
    scans-busy s.mutations s.changing (s.changing + 1) s.listing s.listing s.scans (omega arith) cs,
  )
  Step-Inv {s} (changes l b) (i, cs) = (
    index-busy s.mutations s.changing s.changing s.listing l s.index b i,
    disturb-ok s.mutations s.changing l s.scans b
        (scans-busy s.mutations s.changing s.changing s.listing l s.scans b cs),
  )
  Step-Inv {s} (ends b h) i = mark_dirty-Inv s (s.changing - 1) h i
  Step-Inv {s} (marks h) i = mark_dirty-Inv s s.changing h i
  Step-Inv {s} starts (i, cs) = (i, (omega arith, cs))
  Step-Inv {s} (walks xs ys g d found e f) i =
      let (hx, (h, hy)) = split-ok s xs _ ys e i in
      (i.0, join-ok s xs _ ys hx (walk-Holds s.mutations s.changing g s.listing d found h f) hy)
  Step-Inv {s} (compares xs ys g found e same) i =
      let (hx, (h, hy)) = split-ok s xs _ ys e i in (i.0, join-ok s xs _ ys hx h hy)
  Step-Inv {s} (publishes xs ys g found e) i =
      let (hx, (h, hy)) = split-ok s xs _ ys e i in
      (
        publish-ok s.mutations s.changing g s.listing found s.index h i.0,
        All-append (ScanOk s.mutations s.listing s.changing) xs ys hx hy,
      )
  Step-Inv {s} (gives_up xs ys c e) i =
      let (hx, (h, hy)) = split-ok s xs c ys e i in
      (i.0, All-append (ScanOk s.mutations s.listing s.changing) xs ys hx hy)

  pub Steps-Inv : {s t : State L} → Steps L s t → Inv s → Inv t
  Steps-Inv here i = i
  Steps-Inv (next r st) i = Step-Inv st (Steps-Inv r i)
