-- ===== src/Fanout/CatchUp.antt =====
-- Catching up: what a joining client sees, whatever else happens meanwhile.
use rusty_kimi.Common.{
  ℕ, ◌+◌, ◌<◌, ◌≡◌, refl, sym, ◌∙◌, ap, true, List, [], ◌∷◌, ◌++◌, Option, none, some, arith, ◌==◌,
  ==_iff, length, append-nil, append_assoc, All,
}
use rusty_kimi.Common.Eq.{nat_eq}
use rusty_kimi.Common.Dict.{lookup, insert, lookup-insert, DistinctKeys, insert-DistinctKeys}
use rusty_kimi.Queue.{empty}
use rusty_kimi.Queue.Store.{held, is_open, grown, put_at-open}
use rusty_kimi.Fanout.{
  Fanout, Staged, u64_mod, attach, detach, broadcast, send_to, begin_catch_up, begin_found,
  end_catch_up, end_found, release,
}
use rusty_kimi.Fanout.Routing.{broadcast-reaches, broadcast_each-DistinctKeys, send_to-Answers}
use rusty_kimi.Fanout.Calls.{
  Call, broadcasts, sends, attaches, detaches, begins, ends, call, calls, Leaves, live, replies,
  call-next_id, begin_found-next_id,
}
use rusty_kimi.Fanout.Others.{
  Untouched, detach_found-Untouched, begin_found-Untouched, end_found-Untouched, send_found-keys,
}

module _ {V : Type 0} where
  -- Connection `id` is catching up with `staged` staged and `out` in its queue, which is open.
  pub record Catching (id : ℕ) (staged out : List V) (f : Fanout V) : Type 0 where
    pub distinct : DistinctKeys f.attachments
    pub stages : lookup id f.attachments ≡ some (some staged)
    pub opened : is_open (lookup id f.queues) ≡ true
    pub holds : held (lookup id f.queues) ≡ out
    pub known : id < f.next_id

  Untouched-Catching :
      (id : ℕ) (staged out : List V) (f g : Fanout V)
      → Untouched id f g
      → Catching id staged out f
      → Catching id staged out g
  Untouched-Catching id staged out f g u c = record {
    distinct = u.keys c.distinct;
    stages = u.same_attachment ∙ c.stages;
    opened = ap is_open u.same_queue ∙ c.opened;
    holds = ap held u.same_queue ∙ c.holds;
    known = omega (arith, u.same_next, c.known);
  }

  broadcast-Catching :
      (id : ℕ) (staged out : List V) (msg : V) (f : Fanout V)
      → Catching id staged out f
      → Catching id (staged ++ msg ∷ []) out (broadcast msg f)
  broadcast-Catching id staged out msg f c =
      let b = broadcast-reaches msg f c.distinct id in
      record {
        distinct =
            unfold broadcast in broadcast_each-DistinctKeys msg f.attachments f.queues c.distinct;
        stages = ground (arith, b.attachment, c.stages);
        opened = b.openness ∙ c.opened;
        holds = ground (arith, b.queue, c.stages, c.holds);
        known = unfold broadcast in c.known;
      }

  attach-Catching :
      (id : ℕ) (staged out : List V) (f : Fanout V)
      → f.next_id + 1 < u64_mod
      → Catching id staged out f
      → Catching id staged out (attach f).0
  unfolding attach
  attach-Catching id staged out f h c = record {
    distinct = insert-DistinctKeys f.next_id none f.attachments c.distinct;
    stages = ground (arith, lookup-insert f.next_id id none f.attachments, c.stages, c.known);
    opened = ground (arith, lookup-insert f.next_id id empty f.queues, c.opened, c.known);
    holds = ground (arith, lookup-insert f.next_id id empty f.queues, c.holds, c.known);
    known = omega (arith, c.known);
  }

  send_to-Catching :
      (id k : ℕ) (staged out : List V) (msg : V) (f : Fanout V)
      → Catching id staged out f
      → Catching id staged (grown (k == id) msg out) (send_to k msg f)
  send_to-Catching id k staged out msg f c =
      let a = send_to-Answers k msg f id in
      let (keys, same) = send_found-keys k msg (lookup k f.attachments) f in
      record {
        distinct = unfold send_to in keys c.distinct;
        stages = ground (arith, a.attachment, c.stages, c.opened, ==_iff k id);
        opened = a.openness ∙ c.opened;
        holds = ground (arith, a.queue, c.stages, c.opened, c.holds, ==_iff k id);
        known = unfold send_to in (omega (arith, same, c.known));
      }

  -- The staged messages and the queue of `id` after one more call.
  abbrev stage : Call V → List V → List V
  stage (broadcasts msg) staged = staged ++ msg ∷ []
  stage _ staged = staged

  abbrev answer : ℕ → Call V → List V → List V
  answer id (sends k msg) out = grown (k == id) msg out
  answer id _ out = out

  call-Catching :
      (id : ℕ) (staged out : List V) (c : Call V) (f : Fanout V)
      → Leaves id c
      → f.next_id + 1 < u64_mod
      → Catching id staged out f
      → Catching id (stage c staged) (answer id c out) (call c f)
  unfolding call
  call-Catching id staged out (broadcasts msg) f h n v = broadcast-Catching id staged out msg f v
  call-Catching id staged out (sends k msg) f h n v = send_to-Catching id k staged out msg f v
  call-Catching id staged out attaches f h n v = attach-Catching id staged out f n v
  call-Catching id staged out (detaches k) f h n v =
      Untouched-Catching id staged out f (detach k f)
        (unfold detach in detach_found-Untouched id k (lookup k f.attachments) f h) v
  call-Catching id staged out (begins k) f h n v =
      Untouched-Catching id staged out f (begin_catch_up k f)
        (unfold begin_catch_up in begin_found-Untouched id k (lookup k f.attachments) f h) v
  call-Catching id staged out (ends k) f h n v =
      Untouched-Catching id staged out f (end_catch_up k f)
        (unfold end_catch_up in end_found-Untouched id k (lookup k f.attachments) f h) v

  stage-live :
      (c : Call V) (cs : List (Call V)) (staged : List V)
      → stage c staged ++ live cs ≡ staged ++ live (c ∷ cs)
  stage-live (broadcasts msg) cs staged = append_assoc staged (msg ∷ []) (live cs)
  stage-live (sends k msg) cs staged = refl
  stage-live _ cs staged = refl

  answer-replies :
      (id : ℕ) (c : Call V) (cs : List (Call V)) (out : List V)
      → answer id c out ++ replies id cs ≡ out ++ replies id (c ∷ cs)
  answer-replies id (sends k msg) cs out =
      ground (arith, append_assoc out (msg ∷ []) (replies id cs))
  answer-replies id (broadcasts msg) cs out = refl
  answer-replies id _ cs out = refl

  calls-Catching :
      (id : ℕ) (cs : List (Call V)) (staged out : List V) (f : Fanout V)
      → All (Leaves id) cs
      → f.next_id + length cs < u64_mod
      → Catching id staged out f
      → Catching id (staged ++ live cs) (out ++ replies id cs) (calls cs f)
  unfolding calls
  calls-Catching id [] staged out f h n v = rw (append-nil staged, append-nil out) v
  calls-Catching id (c ∷ cs) staged out f h n v =
      rw (← stage-live c cs staged, ← answer-replies id c cs out)
        (calls-Catching id cs (stage c staged) (answer id c out) (call c f) h.1
          (omega (arith, call-next_id c f)) (call-Catching id staged out c f h.0 (omega arith) v))

  release-open :
      (id : ℕ) (msgs : List V) (f : Fanout V)
      → is_open (lookup id f.queues) ≡ true
      → let g = release id msgs f in
        (g.attachments ≡ f.attachments)
        × (held (lookup id g.queues) ≡ held (lookup id f.queues) ++ msgs)
  unfolding release
  release-open id [] f h = (refl, sym (append-nil _))
  release-open id (m ∷ msgs) f h =
      let (q, put, items, opened) = put_at-open m (lookup id f.queues) h in
      let g : Fanout V = record f { queues = insert id q f.queues } in
      let found = lookup-insert id id q f.queues in
      let (same, all) = release-open id msgs g (ground (arith, found, opened)) in
      rw (put, release)
        (
          same,
          ground (arith, all, found, items, append_assoc (held (lookup id f.queues)) (m ∷ []) msgs),
        )

  end_found-Catching :
      (id : ℕ) (a : Option (Staged V)) (staged out : List V) (f : Fanout V)
      → a ≡ some (some staged)
      → Catching id staged out f
      → let g = end_found id a f in
        (held (lookup id g.queues) ≡ out ++ staged) × (lookup id g.attachments ≡ some none)
  unfolding end_found
  end_found-Catching id none staged out f e c = cc
  end_found-Catching id (some none) staged out f e c = cc
  end_found-Catching id (some (some msgs)) staged out f e c =
      let g : Fanout V = record f { attachments = insert id none f.attachments } in
      let (same, all) = release-open id msgs g c.opened in
      (
        ground (arith, all, c.holds, e),
        ground (arith, same, lookup-insert id id none f.attachments),
      )

  begin_found-Catching :
      (id : ℕ) (a : Option (Staged V)) (f : Fanout V)
      → a ≡ some none
      → DistinctKeys f.attachments
      → is_open (lookup id f.queues) ≡ true
      → id < f.next_id
      → Catching id [] (held (lookup id f.queues)) (begin_found id a f)
  unfolding begin_found
  begin_found-Catching id none f e d o k = cc
  begin_found-Catching id (some a) f e d o k = record {
    distinct = insert-DistinctKeys id (some []) f.attachments d;
    stages = ground (arith, lookup-insert id id (some []) f.attachments);
    opened = o;
    holds = refl;
    known = k;
  }

  -- The catch-up of a live connection with an open queue, around any calls that leave it alone:
  -- messages to everyone, answers to it and to others, clients that come, go and catch up
  -- themselves. Afterwards its queue holds what it held, then every answer to it, then every
  -- message to everyone, each group in order, and the connection is live again. (Ids do not wrap.)
  pub catch_up-order :
      (id : ℕ) (cs : List (Call V)) (f : Fanout V)
      → DistinctKeys f.attachments
      → lookup id f.attachments ≡ some none
      → is_open (lookup id f.queues) ≡ true
      → id < f.next_id
      → f.next_id + length cs < u64_mod
      → All (Leaves id) cs
      → let g = end_catch_up id (calls cs (begin_catch_up id f)) in
        (held (lookup id g.queues) ≡ held (lookup id f.queues) ++ (replies id cs ++ live cs))
        × (lookup id g.attachments ≡ some none)
  unfolding end_catch_up begin_catch_up
  catch_up-order id cs f d a o k n h =
      let start = begin_found id (lookup id f.attachments) f in
      let out = held (lookup id f.queues) in
      let c =
        calls-Catching id cs [] out start h
          (omega (arith, begin_found-next_id id (lookup id f.attachments) f))
          (begin_found-Catching id (lookup id f.attachments) f a d o k) in
      let (all, live_again) =
        end_found-Catching id (lookup id (calls cs start).attachments) (live cs)
          (out ++ replies id cs) (calls cs start) c.stages c in
      (all ∙ append_assoc out (replies id cs) (live cs), live_again)
