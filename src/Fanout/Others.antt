-- ===== src/Fanout/Others.antt =====
-- What an operation on one connection leaves alone: every other connection, and the keys.
use rusty_kimi.Common.{
  ℕ, ◌≡◌, refl, ◌∙◌, false, List, [], ◌∷◌, Option, none, some, arith, ◌==◌, Option-cases, inl, inr,
}
use rusty_kimi.Common.Eq.{nat_eq}
use rusty_kimi.Common.Dict.{
  Dict, lookup, insert, lookup-insert, lookup-remove, DistinctKeys, insert-DistinctKeys,
  remove-DistinctKeys,
}
use rusty_kimi.Queue.{Queue, shutdown}
use rusty_kimi.Queue.Store.{put_at, shutdown_at}
use rusty_kimi.Fanout.{
  Fanout, Staged, detach_found, send_found, deliver, begin_found, end_found, release,
}

module _ {V : Type 0} where
  pub lookup-shutdown_found :
      (k id : ℕ) (q : Option (Queue V)) (queues : Dict ℕ (Queue V))
      → (k == id) ≡ false
      → lookup id (shutdown_at false k q queues) ≡ lookup id queues
  unfolding shutdown_at
  lookup-shutdown_found k id none queues h = refl
  lookup-shutdown_found k id (some q) queues h =
      ground (arith, lookup-insert k id (shutdown false q) queues)

  pub deliver-keys :
      (k : ℕ) (q : Option (Queue V)) (f : Fanout V)
      → (DistinctKeys f.attachments → DistinctKeys (deliver k q f).attachments)
        × ((deliver k q f).next_id ≡ f.next_id)
  unfolding deliver
  deliver-keys k none f = (remove-DistinctKeys k f.attachments, refl)
  deliver-keys k (some q) f = (λ d. d, refl)

  -- Connection `id` is as it was.
  pub record Untouched (id : ℕ) (f g : Fanout V) : Type 0 where
    pub same_attachment : lookup id g.attachments ≡ lookup id f.attachments
    pub same_queue : lookup id g.queues ≡ lookup id f.queues
    pub same_next : g.next_id ≡ f.next_id
    pub keys : DistinctKeys f.attachments → DistinctKeys g.attachments

  pub detach_found-Untouched :
      (id k : ℕ) (a : Option (Staged V)) (f : Fanout V)
      → (k == id) ≡ false
      → Untouched id f (detach_found k a f)
  unfolding detach_found
  detach_found-Untouched id k none f h = ground arith
  detach_found-Untouched id k (some a) f h = record {
    same_attachment = ground (arith, lookup-remove k id f.attachments);
    same_queue = lookup-shutdown_found k id (lookup k f.queues) f.queues h;
    same_next = refl;
    keys = remove-DistinctKeys k f.attachments;
  }

  pub insert-Untouched :
      (id k : ℕ) (a : Staged V) (f : Fanout V)
      → (k == id) ≡ false
      → Untouched id f (record f { attachments = insert k a f.attachments })
  insert-Untouched id k a f h = record {
    same_attachment = ground (arith, lookup-insert k id a f.attachments);
    same_queue = refl;
    same_next = refl;
    keys = insert-DistinctKeys k a f.attachments;
  }

  pub Untouched-trans :
      (id : ℕ) (f g h : Fanout V) → Untouched id f g → Untouched id g h → Untouched id f h
  Untouched-trans id f g h u v = record {
    same_attachment = v.same_attachment ∙ u.same_attachment;
    same_queue = v.same_queue ∙ u.same_queue;
    same_next = v.same_next ∙ u.same_next;
    keys = λ d. v.keys (u.keys d);
  }

  pub release-Untouched :
      (id k : ℕ) (msgs : List V) (f : Fanout V)
      → (k == id) ≡ false
      → Untouched id f (release k msgs f)
  unfolding release
  release-Untouched id k [] f h = ground arith
  release-Untouched id k (m ∷ msgs) f h = elim (Option-cases (put_at m (lookup k f.queues))) [
    | inl refused ↦
        rw (refused, release)
          (record {
            same_attachment = ground (arith, lookup-remove k id f.attachments);
            same_queue = refl;
            same_next = refl;
            keys = remove-DistinctKeys k f.attachments;
          })
    | inr (q, put) ↦
        let g : Fanout V = record f { queues = insert k q f.queues } in
        let u : Untouched id f g = record {
          same_attachment = refl;
          same_queue = ground (arith, lookup-insert k id q f.queues);
          same_next = refl;
          keys = λ d. d;
        } in
        rw (put, release)
          (Untouched-trans id f g (release k msgs g) u (release-Untouched id k msgs g h))
  ]

  pub begin_found-Untouched :
      (id k : ℕ) (a : Option (Staged V)) (f : Fanout V)
      → (k == id) ≡ false
      → Untouched id f (begin_found k a f)
  unfolding begin_found
  begin_found-Untouched id k none f h = ground arith
  begin_found-Untouched id k (some a) f h = insert-Untouched id k (some []) f h

  pub end_found-Untouched :
      (id k : ℕ) (a : Option (Staged V)) (f : Fanout V)
      → (k == id) ≡ false
      → Untouched id f (end_found k a f)
  unfolding end_found
  end_found-Untouched id k none f h = ground arith
  end_found-Untouched id k (some none) f h = ground arith
  end_found-Untouched id k (some (some staged)) f h =
      let g : Fanout V = record f { attachments = insert k none f.attachments } in
      Untouched-trans id f g (release k staged g) (insert-Untouched id k none f h)
        (release-Untouched id k staged g h)

  pub send_found-keys :
      (k : ℕ) (msg : V) (a : Option (Staged V)) (f : Fanout V)
      → (DistinctKeys f.attachments → DistinctKeys (send_found k msg a f).attachments)
        × ((send_found k msg a f).next_id ≡ f.next_id)
  unfolding send_found
  send_found-keys k msg none f = (λ d. d, refl)
  send_found-keys k msg (some a) f = deliver-keys k (put_at msg (lookup k f.queues)) f
