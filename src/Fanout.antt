-- ===== src/Fanout.antt =====
-- server/dvadva-agent/src/wire/fanout.rs: the clients attached to one session, and what goes to whom.
-- A connection's id is also the handle of its queue, which the client's writer task holds too
-- (`queues`). `V` is the JSON value type. An attachment is its `staged` field. The hash map is
-- walked in the order of the list; a step touches no entry but its own.
pub mod Routing
pub mod Others
pub mod Calls
pub mod CatchUp
use rusty_kimi.Common.{
  ℕ, ◌+◌, ◌%◌, ◌^◌, Bool, true, false, List, [], ◌∷◌, ◌++◌, Option, none, some, if◌then◌else◌, ◌==◌,
  length,
}
use rusty_kimi.Common.Eq.{nat_eq}
use rusty_kimi.Common.Dict.{Dict, lookup, insert, remove}
use rusty_kimi.Queue.{Queue, empty}
use rusty_kimi.Queue.Store.{put_at, shutdown_at}

abbrev pub u64_mod : ℕ
u64_mod = 2 ^ 64

abbrev pub Staged : Type 0 → Type 0
Staged V = Option (List V)

pub record Fanout (V : Type 0) : Type 0 where
  pub attachments : Dict ℕ (Staged V)
  pub queues : Dict ℕ (Queue V)
  pub next_id : ℕ

module _ {V : Type 0} where
  unfoldable pub new : Fanout V
  new = record { attachments = []; queues = []; next_id = 1 }

  unfoldable pub attach : Fanout V → Fanout V × ℕ
  unfolding empty
  attach f = (
    record {
      attachments = insert f.next_id none f.attachments;
      queues = insert f.next_id empty f.queues;
      next_id = (f.next_id + 1) % u64_mod;
    },
    f.next_id,
  )

  unfoldable pub detach_found : ℕ → Option (Staged V) → Fanout V → Fanout V
  detach_found id none f = f
  detach_found id (some _) f = record f {
    attachments = remove id f.attachments;
    queues = shutdown_at false id (lookup id f.queues) f.queues;
  }

  unfoldable pub detach : ℕ → Fanout V → Fanout V
  unfolding detach_found
  detach id f = detach_found id (lookup id f.attachments) f

  unfoldable pub len : Fanout V → ℕ
  len f = length f.attachments

  unfoldable pub is_empty : Fanout V → Bool
  unfolding len
  is_empty f = len f == 0

  -- The closure of `retain`: `none` drops the attachment.
  unfoldable pub broadcast_one :
      V → ℕ → Staged V → Dict ℕ (Queue V) → Option (Staged V) × Dict ℕ (Queue V)
  broadcast_one msg id (some staged) queues = (some (some (staged ++ msg ∷ [])), queues)
  broadcast_one msg id none queues = elim (put_at msg (lookup id queues)) [
    | none ↦ (none, queues)
    | some q ↦ (some none, insert id q queues)
  ]

  abbrev pub keep : ℕ → Option (Staged V) → Dict ℕ (Staged V) → Dict ℕ (Staged V)
  keep id none rest = rest
  keep id (some a) rest = (id, a) ∷ rest

  unfoldable pub broadcast_each :
      V → Dict ℕ (Staged V) → Dict ℕ (Queue V) → Dict ℕ (Staged V) × Dict ℕ (Queue V)
  unfolding broadcast_one
  broadcast_each msg [] queues = ([], queues)
  broadcast_each msg ((id, a) ∷ rest) queues =
      let (kept, queues') = broadcast_one msg id a queues in
      let (rest', queues'') = broadcast_each msg rest queues' in (keep id kept rest', queues'')

  unfoldable pub broadcast : V → Fanout V → Fanout V
  unfolding broadcast_each
  broadcast msg f =
      let (attachments, queues) = broadcast_each msg f.attachments f.queues in
      record f { attachments = attachments; queues = queues }

  -- A message for one connection; a queue that refuses it costs the connection its attachment.
  unfoldable pub deliver : ℕ → Option (Queue V) → Fanout V → Fanout V
  deliver id none f = record f { attachments = remove id f.attachments }
  deliver id (some q) f = record f { queues = insert id q f.queues }

  unfoldable pub send_found : ℕ → V → Option (Staged V) → Fanout V → Fanout V
  unfolding deliver
  send_found id msg none f = f
  send_found id msg (some _) f = deliver id (put_at msg (lookup id f.queues)) f

  unfoldable pub send_to : ℕ → V → Fanout V → Fanout V
  unfolding send_found
  send_to id msg f = send_found id msg (lookup id f.attachments) f

  unfoldable pub begin_found : ℕ → Option (Staged V) → Fanout V → Fanout V
  begin_found id none f = f
  begin_found id (some _) f = record f { attachments = insert id (some []) f.attachments }

  unfoldable pub begin_catch_up : ℕ → Fanout V → Fanout V
  unfolding begin_found
  begin_catch_up id f = begin_found id (lookup id f.attachments) f

  -- The staged messages, in order, until the queue refuses one.
  unfoldable pub release : ℕ → List V → Fanout V → Fanout V
  release id [] f = f
  release id (msg ∷ rest) f = elim (put_at msg (lookup id f.queues)) [
    | none ↦ record f { attachments = remove id f.attachments }
    | some q ↦ release id rest (record f { queues = insert id q f.queues })
  ]

  unfoldable pub end_found : ℕ → Option (Staged V) → Fanout V → Fanout V
  unfolding release
  end_found id none f = f
  end_found id (some none) f = f
  end_found id (some (some staged)) f =
      release id staged (record f { attachments = insert id none f.attachments })

  unfoldable pub end_catch_up : ℕ → Fanout V → Fanout V
  unfolding end_found
  end_catch_up id f = end_found id (lookup id f.attachments) f

  unfoldable pub shutdown_each : Dict ℕ (Staged V) → Dict ℕ (Queue V) → Dict ℕ (Queue V)
  shutdown_each [] queues = queues
  shutdown_each ((id, _) ∷ rest) queues =
      shutdown_each rest (shutdown_at false id (lookup id queues) queues)

  unfoldable pub shutdown : Fanout V → Fanout V
  unfolding shutdown_each
  shutdown f = record f { attachments = []; queues = shutdown_each f.attachments f.queues }
