-- ===== src/Queue/Store.antt =====
-- Queues behind handles: clones of a `Queue` share one `Arc`, so the queues that several parts of
-- the program hold stand in a store, and each part holds a handle.
use rusty_kimi.Common.{
  ℕ, ◌+◌, ◌%◌, ◌≡◌, refl, Bool, true, false, List, [], ◌∷◌, ◌++◌, Option, none, some, arith,
  if◌then◌else◌, ==_iff,
}
use rusty_kimi.Common.Eq.{nat_eq}
use rusty_kimi.Common.Dict.{Dict, lookup, insert, lookup-insert}
use rusty_kimi.Queue.{Queue, usize_mod, put_nowait, shutdown}

module _ {A : Type 0} where
  -- `put_nowait` on the queue that a handle names; a handle that was given out is in the store.
  unfoldable pub put_at : A → Option (Queue A) → Option (Queue A)
  put_at x none = none
  put_at x (some q) = put_nowait x q

  unfoldable pub shutdown_at : Bool → ℕ → Option (Queue A) → Dict ℕ (Queue A) → Dict ℕ (Queue A)
  shutdown_at immediate h none store = store
  shutdown_at immediate h (some q) store = insert h (shutdown immediate q) store

  -- The items that a handle's queue holds, and whether it takes more.
  abbrev pub held : Option (Queue A) → List A
  held none = []
  held (some q) = q.items

  abbrev pub is_open : Option (Queue A) → Bool
  is_open none = false
  is_open (some q) = if q.shut then false else q.sender_open

  -- The items of a queue after `x` went to it, or to another.
  abbrev pub grown : Bool → A → List A → List A
  grown true x items = items ++ x ∷ []
  grown false x items = items

  pub put_at-open :
      (x : A) (q : Option (Queue A))
      → is_open q ≡ true
      → (q' : Queue A) × (put_at x q ≡ some q')
        × (q'.items ≡ held q ++ x ∷ [])
        × (is_open (some q') ≡ true)
  unfolding put_at put_nowait
  put_at-open x none h = cc
  put_at-open x (some q) h =
      (record q { items = q.items ++ x ∷ []; len = (q.len + 1) % usize_mod }, ground arith, refl, h)

  pub put_at-shut : (x : A) (q : Option (Queue A)) → is_open q ≡ false → put_at x q ≡ none
  unfolding put_at put_nowait
  put_at-shut x none h = refl
  put_at-shut x (some q) h = ground arith

  held-shutdown_found :
      (h k : ℕ) (q : Option (Queue A)) (store : Dict ℕ (Queue A))
      → lookup h store ≡ q
      → held (lookup k (shutdown_at false h q store)) ≡ held (lookup k store)
  unfolding shutdown_at shutdown
  held-shutdown_found h k none store e = refl
  held-shutdown_found h k (some q) store e =
      ground (arith, lookup-insert h k (shutdown false q) store, ==_iff h k)

  -- A graceful shutdown takes no item from any queue.
  pub held-shutdown_at :
      (h k : ℕ) (store : Dict ℕ (Queue A))
      → held (lookup k (shutdown_at false h (lookup h store) store)) ≡ held (lookup k store)
  held-shutdown_at h k store = held-shutdown_found h k (lookup h store) store refl
