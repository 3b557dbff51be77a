-- ===== src/Wire/Broadcast.antt =====
-- server/dvadva-agent/src/utils/broadcast.rs: one publisher, a queue for each subscriber.
-- A subscriber holds the same queue as the publisher (an `Arc`), so the queues stand in a store
-- under their handles, and `subscribers` lists handles. The store outlives a subscription.
pub mod Delivery
use rusty_kimi.Common.{
  ℕ, suc, ◌+◌, Bool, true, false, not, List, [], ◌∷◌, ◌++◌, Option, none, some, if◌then◌else◌, ◌==◌,
  select,
}
use rusty_kimi.Common.Eq.{nat_eq}
use rusty_kimi.Common.Dict.{Dict, lookup, insert}
use rusty_kimi.Queue.{Queue, empty}
use rusty_kimi.Queue.Store.{put_at, shutdown_at}

pub record Broadcast (A : Type 0) : Type 0 where
  pub subscribers : List ℕ
  pub store : Dict ℕ (Queue A)
  pub next_handle : ℕ

module _ {A : Type 0} where
  unfoldable pub new : Broadcast A
  new = record { subscribers = []; store = []; next_handle = 0 }

  -- The new queue's handle is the second component.
  unfoldable pub subscribe : Broadcast A → Broadcast A × ℕ
  unfolding empty
  subscribe b = (
    record {
      subscribers = b.subscribers ++ b.next_handle ∷ [];
      store = insert b.next_handle empty b.store;
      next_handle = b.next_handle + 1;
    },
    b.next_handle,
  )

  unfoldable pub unsubscribe : ℕ → Broadcast A → Broadcast A
  unsubscribe h b = record b { subscribers = select (λ k. not (k == h)) b.subscribers }

  -- The loop stops at the first queue that refuses the item.
  unfoldable pub publish_each : A → List ℕ → Dict ℕ (Queue A) → Dict ℕ (Queue A) × Bool
  unfolding put_at
  publish_each x [] store = (store, true)
  publish_each x (h ∷ hs) store = elim (put_at x (lookup h store)) [
    | none ↦ (store, false)
    | some q ↦ publish_each x hs (insert h q store)
  ]

  unfoldable pub publish_nowait : A → Broadcast A → Broadcast A × Bool
  unfolding publish_each
  publish_nowait x b =
      let (store, done) = publish_each x b.subscribers b.store in (record b { store = store }, done)

  unfoldable pub shutdown_each : Bool → List ℕ → Dict ℕ (Queue A) → Dict ℕ (Queue A)
  unfolding shutdown_at
  shutdown_each immediate [] store = store
  shutdown_each immediate (h ∷ hs) store =
      shutdown_each immediate hs (shutdown_at immediate h (lookup h store) store)

  unfoldable pub shutdown_all : Bool → Broadcast A → Broadcast A
  unfolding shutdown_each
  shutdown_all immediate b = record b {
    subscribers = [];
    store = shutdown_each immediate b.subscribers b.store;
  }
