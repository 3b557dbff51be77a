-- ===== src/Fanout/Calls.antt =====
-- The router's operations as calls, and sequences of them.
use rusty_kimi.Common.{
  ℕ, ◌+◌, ◌<◌, ◌≤◌, ◌≡◌, refl, false, List, [], ◌∷◌, Option, none, some, arith, if◌then◌else◌, ◌==◌,
  Option-cases, inl, inr,
}
use rusty_kimi.Common.Eq.{nat_eq}
use rusty_kimi.Common.Dict.{lookup, insert}
use rusty_kimi.Queue.Store.{put_at}
use rusty_kimi.Fanout.{
  Fanout, Staged, u64_mod, attach, detach, detach_found, broadcast, send_to, begin_catch_up,
  begin_found, end_catch_up, end_found, release,
}
use rusty_kimi.Fanout.Others.{send_found-keys}

-- The calls that can come between the begin and the end of a connection's catch-up.
pub data Call (V : Type 0) : Type 0 where
  broadcasts : V → Call V
  sends : ℕ → V → Call V
  attaches : Call V
  detaches begins ends : ℕ → Call V

module _ {V : Type 0} where
  unfoldable pub call : Call V → Fanout V → Fanout V
  call (broadcasts msg) f = broadcast msg f
  call (sends id msg) f = send_to id msg f
  call attaches f = (attach f).0
  call (detaches id) f = detach id f
  call (begins id) f = begin_catch_up id f
  call (ends id) f = end_catch_up id f

  unfoldable pub calls : List (Call V) → Fanout V → Fanout V
  unfolding call
  calls [] f = f
  calls (c ∷ cs) f = calls cs (call c f)

  -- Nobody else detaches connection `id`, or begins or ends its catch-up.
  abbrev pub Leaves : ℕ → Call V → Type 0
  Leaves id (detaches k) = (k == id) ≡ false
  Leaves id (begins k) = (k == id) ≡ false
  Leaves id (ends k) = (k == id) ≡ false
  Leaves id _ = Unit

  -- The live messages among the calls, and the answers to connection `id`.
  abbrev pub live : List (Call V) → List V
  live [] = []
  live (broadcasts msg ∷ cs) = msg ∷ live cs
  live (_ ∷ cs) = live cs

  abbrev pub replies : ℕ → List (Call V) → List V
  replies id [] = []
  replies id (sends k msg ∷ cs) = if k == id then msg ∷ replies id cs else replies id cs
  replies id (_ ∷ cs) = replies id cs

  pub release-next_id :
      (id : ℕ) (msgs : List V) (f : Fanout V) → (release id msgs f).next_id ≡ f.next_id
  unfolding release
  release-next_id id [] f = refl
  release-next_id id (m ∷ msgs) f = elim (Option-cases (put_at m (lookup id f.queues))) [
    | inl refused ↦ rw (refused, release)
    | inr (q, put) ↦
        rw (put, release) (release-next_id id msgs (record f { queues = insert id q f.queues }))
  ]

  pub detach_found-next_id :
      (id : ℕ) (a : Option (Staged V)) (f : Fanout V) → (detach_found id a f).next_id ≡ f.next_id
  unfolding detach_found
  detach_found-next_id id none f = refl
  detach_found-next_id id (some a) f = refl

  pub begin_found-next_id :
      (id : ℕ) (a : Option (Staged V)) (f : Fanout V) → (begin_found id a f).next_id ≡ f.next_id
  unfolding begin_found
  begin_found-next_id id none f = refl
  begin_found-next_id id (some a) f = refl

  pub end_found-next_id :
      (id : ℕ) (a : Option (Staged V)) (f : Fanout V) → (end_found id a f).next_id ≡ f.next_id
  unfolding end_found
  end_found-next_id id none f = refl
  end_found-next_id id (some none) f = refl
  end_found-next_id id (some (some staged)) f =
      release-next_id id staged (record f { attachments = insert id none f.attachments })

  -- A call hands out one id at most.
  pub call-next_id :
      (c : Call V) (f : Fanout V) → f.next_id + 1 < u64_mod → (call c f).next_id ≤ f.next_id + 1
  unfolding call broadcast attach send_to detach begin_catch_up end_catch_up
  call-next_id (broadcasts msg) f h = omega arith
  call-next_id (sends k msg) f h =
      omega (arith, (send_found-keys k msg (lookup k f.attachments) f).1)
  call-next_id attaches f h = omega arith
  call-next_id (detaches k) f h = omega (arith, detach_found-next_id k (lookup k f.attachments) f)
  call-next_id (begins k) f h = omega (arith, begin_found-next_id k (lookup k f.attachments) f)
  call-next_id (ends k) f h = omega (arith, end_found-next_id k (lookup k f.attachments) f)
