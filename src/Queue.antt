-- ===== src/Queue.antt =====
-- server/dvadva-agent/src/utils/aioqueue.rs: the unbounded queue between tasks.
-- A call is atomic here. The channel's buffer is `items`, `sender_open` says whether the sender is
-- still held, and `len` is the `AtomicUsize`, with the wrap-around of a 64-bit machine.
pub mod Store
pub mod Fifo
use rusty_kimi.Common.{
  ℕ, ◌+◌, ◌-◌, ◌%◌, ◌^◌, Bool, true, false, List, [], ◌∷◌, ◌++◌, Option, none, some, if◌then◌else◌,
}

abbrev pub usize_mod : ℕ
usize_mod = 2 ^ 64

pub record Queue {ℓ} (A : Type ℓ) : Type ℓ where
  pub sender_open : Bool
  pub items : List A
  pub shut : Bool
  pub len : ℕ

-- What `get` meets: an item, the end of a queue that is shut down, or nothing yet, so it waits.
pub data Received {ℓ} (A : Type ℓ) : Type ℓ where
  item : A → Queue A → Received A
  ended waits : Received A

module _ {ℓ} {A : Type ℓ} where
  unfoldable pub empty : Queue A
  empty = record { sender_open = true; items = []; shut = false; len = 0 }

  -- `none` is `Err(QueueShutDown)`.
  unfoldable pub put_nowait : A → Queue A → Option (Queue A)
  put_nowait x q =
      if q.shut
      then none
      else if q.sender_open
      then some (record q { items = q.items ++ x ∷ []; len = (q.len + 1) % usize_mod })
      else none

  unfoldable pub receive : List A → Queue A → Received A
  receive (x ∷ rest) q =
      item x (record q { items = rest; len = (q.len + usize_mod - 1) % usize_mod })
  receive [] q = if q.sender_open then waits else ended

  unfoldable pub get : Queue A → Received A
  unfolding receive
  get q = receive q.items q

  unfoldable pub take_now : Received A → Option (A × Queue A)
  take_now (item x q) = some (x, q)
  take_now ended = none
  take_now waits = none

  -- `busy`: another task holds the receiver's lock, as a `get` that waits does.
  unfoldable pub get_nowait : Bool → Queue A → Option (A × Queue A)
  unfolding take_now get
  get_nowait busy q = if busy then none else take_now (get q)

  unfoldable pub shutdown : Bool → Queue A → Queue A
  shutdown immediate q =
      if q.shut
      then q
      else if immediate
      then record q { shut = true; sender_open = false; items = []; len = 0 }
      else record q { shut = true; sender_open = false }
