-- ===== src/Kaos/Index/Fresh.antt =====
-- When a cached listing can be trusted.
use rusty_kimi.Common.{
  ℕ, ◌≡◌, refl, sym, subst, Option, none, some, arith, Bool-cases, ◌⊎◌, inl, inr, ==_iff,
  Option-cases, ◌==◌,
}
use rusty_kimi.Kaos.Index.{
  Index, State, first_index, with_index, if_current, cached, publish, scan_alone, get_paths, Steps,
}
use rusty_kimi.Kaos.Index.Invariant.{Steps-Inv, IndexOk, Inv}

module _ (L : Type 0) where
  with_index-Inv :
      (l : L) (o : Option L) → (o ≡ none) ⊎ (o ≡ some l) → Inv L (with_index L l (first_index L o))
  unfolding with_index first_index
  with_index-Inv l o (inl e) =
      subst (λ o. Inv L (with_index L l (first_index L o))) (sym e) (tt, tt)
  with_index-Inv l o (inr e) =
      subst (λ o. Inv L (with_index L l (first_index L o))) (sym e) ((omega arith, λ _ _. refl), tt)

  if_current-holds :
      (m c : ℕ) (l found : L) (i : Option (Index L))
      → IndexOk L m l c i
      → c ≡ 0
      → if_current L i m ≡ some found
      → found ≡ l
  unfolding if_current
  if_current-holds m c l found none i z h = absurd (cc h)
  if_current-holds m c l found (some x) i z h = elim (Bool-cases (x.generation == m)) [
    | inl same ↦ cc (same, h, i.1 ((==_iff x.generation m).0 same) z)
    | inr other ↦ absurd (cc (other, h))
  ]

  publish-current :
      (m c : ℕ) (l : L) (i : Option (Index L))
      → IndexOk L m l c i
      → if_current L (publish L m l i) m ≡ some l
  unfolding publish if_current
  publish-current m c l none h = rw ((==_iff m m).1 refl) refl
  publish-current m c l (some x) h = ground (arith, h.0, ==_iff m m)

  scan_alone-listing :
      (s : State L)
      → IndexOk L s.mutations s.listing s.changing s.index
      → ((scan_alone L s none).1 ≡ s.listing) × (cached L (scan_alone L s none).0 ≡ some s.listing)
  unfolding scan_alone cached
  scan_alone-listing s i = (refl, publish-current s.mutations s.changing s.listing s.index i)

  module _ {s : State L} (l : L) (o : Option L) (first : (o ≡ none) ⊎ (o ≡ some l))
      (r : Steps L (with_index L l (first_index L o)) s) (quiet : s.changing ≡ 0) where
    -- What the fast path returns while nothing changes the directory is what a walk would find:
    -- after any interleaving of changes, marks and scans, of which the counter does not wrap, that
    -- starts without an index or with one that is right.
    pub cached-listing : {found : L} → cached L s ≡ some found → found ≡ s.listing
    unfolding cached
    cached-listing {found} h =
        let i = Steps-Inv L r (with_index-Inv l o first) in
        if_current-holds s.mutations s.changing s.listing found s.index i.0 quiet h

    -- A call of `get_paths` that runs alone returns what a walk would find, and leaves an index
    -- that the next call returns at once, under the same conditions.
    pub get_paths-listing :
        ((get_paths L s).1 ≡ s.listing) × (cached L (get_paths L s).0 ≡ some s.listing)
    unfolding get_paths
    get_paths-listing =
        let i = (Steps-Inv L r (with_index-Inv l o first)).0 in
        elim (Option-cases (cached L s)) [
          | inl missed ↦ rw (missed) (scan_alone-listing s i)
          | inr (found, hit) ↦
              rw (hit, scan_alone) (cached-listing hit, cc (hit, cached-listing hit))
        ]
