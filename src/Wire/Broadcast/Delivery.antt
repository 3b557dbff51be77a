-- ===== src/Wire/Broadcast/Delivery.antt =====
-- Who gets a published item.
use rusty_kimi.Common.{
  ℕ, ◌≡◌, refl, ◌∙◌, Bool, true, false, List, [], ◌∷◌, arith, if◌then◌else◌, ◌==◌, ==_iff,
}
use rusty_kimi.Common.Eq.{nat_eq}
use rusty_kimi.Common.Dict.{Dict, lookup, insert, lookup-insert}
use rusty_kimi.Queue.{Queue}
use rusty_kimi.Queue.Store.{held, is_open, grown, put_at-open}
use rusty_kimi.Wire.Broadcast.{Broadcast, publish_each, publish_nowait}

abbrev pub mem : ℕ → List ℕ → Bool
mem h [] = false
mem h (k ∷ ks) = if k == h then true else mem h ks

-- A handle stands once in the list.
abbrev pub Distinct : List ℕ → Type 0
Distinct [] = Unit
Distinct (h ∷ hs) = (mem h hs ≡ false) × Distinct hs

module _ {A : Type 0} where
  abbrev AllOpen : List ℕ → Dict ℕ (Queue A) → Type 0
  AllOpen hs store = (k : ℕ) → mem k hs ≡ true → is_open (lookup k store) ≡ true

  -- What one list of handles leaves in each queue.
  abbrev Delivered : A → List ℕ → Dict ℕ (Queue A) → Dict ℕ (Queue A) × Bool → Type 0
  Delivered x hs store r =
      (r.1 ≡ true)
      × ((k : ℕ) → held (lookup k r.0) ≡ grown (mem k hs) x (held (lookup k store)))
      × ((k : ℕ) → is_open (lookup k r.0) ≡ is_open (lookup k store))

  publish_each-open :
      (x : A) (hs : List ℕ) (store : Dict ℕ (Queue A))
      → Distinct hs
      → AllOpen hs store
      → Delivered x hs store (publish_each x hs store)
  unfolding publish_each
  publish_each-open x [] store d o = (refl, λ k. refl, λ k. refl)
  publish_each-open x (h ∷ hs) store d o =
      let (q, put, items, open_q) = put_at-open x (lookup h store) (o h (ground arith)) in
      let rest =
        publish_each-open x hs (insert h q store) d.1
          (λ k m. ground (arith, lookup-insert h k q store, o k)) in
      rw (put, publish_each)
        (
          rest.0,
          (λ k. ground (arith, rest.1 k, d, lookup-insert h k q store, ==_iff h k, items)),
          (λ k. ground (arith, rest.2 k, lookup-insert h k q store, ==_iff h k, open_q, o h)),
        )

  -- A broadcast whose subscribers can all take an item: each stands once, and no queue is shut.
  pub record Live (b : Broadcast A) : Type 0 where
    pub distinct : Distinct b.subscribers
    pub all_open : (k : ℕ) → mem k b.subscribers ≡ true → is_open (lookup k b.store) ≡ true

  -- While no subscriber's queue is shut down, a publication succeeds, every subscriber's queue
  -- ends in the item, every other queue is as it was, and the same holds for the next one.
  pub publish_nowait-delivers :
      (x : A) (b : Broadcast A)
      → Live b
      → let r = publish_nowait x b in
        (r.1 ≡ true)
        × ((k : ℕ)
            → held (lookup k r.0.store) ≡ grown (mem k b.subscribers) x (held (lookup k b.store)))
        × (r.0.subscribers ≡ b.subscribers)
        × Live r.0
  unfolding publish_nowait
  publish_nowait-delivers x b l =
      let d = publish_each-open x b.subscribers b.store l.distinct l.all_open in
      (d.0, d.1, refl, record { distinct = l.distinct; all_open = λ k m. d.2 k ∙ l.all_open k m })
