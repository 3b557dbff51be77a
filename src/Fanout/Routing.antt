-- ===== src/Fanout/Routing.antt =====
-- Who gets what: broadcasts reach every client, answers only the client that asked.
use rusty_kimi.Common.{
  ℕ, ◌≡◌, refl, ◌∙◌, ap, Bool, true, false, not, ◌&&◌, is_some, [], ◌∷◌, ◌++◌, Option, none, some,
  arith, if◌then◌else◌, ◌==◌, ==_iff, Bool-cases, inl, inr,
}
use rusty_kimi.Common.Eq.{nat_eq}
use rusty_kimi.Common.Dict.{Dict, lookup, lookup-insert, lookup-remove, DistinctKeys}
use rusty_kimi.Queue.{Queue}
use rusty_kimi.Queue.Store.{held, is_open, grown, put_at-open, put_at-shut}
use rusty_kimi.Fanout.{
  Fanout, Staged, broadcast_one, broadcast_each, broadcast, send_to, send_found, deliver, keep,
}

module _ {V : Type 0} where
  -- What a broadcast makes of an attachment whose queue is open or not.
  abbrev pub after_broadcast : V → Option (Staged V) → Bool → Option (Staged V)
  after_broadcast msg none is_open = none
  after_broadcast msg (some (some staged)) is_open = some (some (staged ++ msg ∷ []))
  after_broadcast msg (some none) true = some none
  after_broadcast msg (some none) false = none

  -- Does the message go into the queue?
  abbrev pub reaches : Option (Staged V) → Bool → Bool
  reaches (some none) is_open = is_open
  reaches (some (some _)) is_open = false
  reaches none is_open = false

  -- The state of connection `k` after a broadcast, from its state before.
  pub record Broadcasts (msg : V) (atts : Dict ℕ (Staged V)) (queues : Dict ℕ (Queue V))
      (r : Dict ℕ (Staged V) × Dict ℕ (Queue V)) (k : ℕ) : Type 0 where
    pub attachment : lookup k r.0 ≡ after_broadcast msg (lookup k atts) (is_open (lookup k queues))
    pub queue :
        held (lookup k r.1)
        ≡ grown (reaches (lookup k atts) (is_open (lookup k queues))) msg (held (lookup k queues))
    pub openness : is_open (lookup k r.1) ≡ is_open (lookup k queues)

  -- One attachment.
  record BroadcastsOne (msg : V) (id : ℕ) (a : Staged V) (queues : Dict ℕ (Queue V))
      (r : Option (Staged V) × Dict ℕ (Queue V)) : Type 0 where
    kept : r.0 ≡ after_broadcast msg (some a) (is_open (lookup id queues))
    grows :
        held (lookup id r.1)
        ≡ grown (reaches (some a) (is_open (lookup id queues))) msg (held (lookup id queues))
    same_open : is_open (lookup id r.1) ≡ is_open (lookup id queues)
    others : (k : ℕ) → (id == k) ≡ false → lookup k r.1 ≡ lookup k queues

  broadcast_one_lem :
      (msg : V) (id : ℕ) (a : Staged V) (queues : Dict ℕ (Queue V))
      → BroadcastsOne msg id a queues (broadcast_one msg id a queues)
  unfolding broadcast_one
  broadcast_one_lem msg id (some staged) queues = record {
    kept = refl;
    grows = refl;
    same_open = refl;
    others = λ k h. refl;
  }
  broadcast_one_lem msg id none queues = elim (Bool-cases (is_open (lookup id queues))) [
    | inl opened ↦
        let (q, put, items, opened') = put_at-open msg (lookup id queues) opened in
        rw (put, broadcast_one)
          (record {
            kept = ground arith;
            grows = ground (arith, lookup-insert id id q queues);
            same_open = ground (arith, lookup-insert id id q queues);
            others = λ k h. ground (arith, lookup-insert id k q queues);
          })
    | inr shut ↦
        rw (put_at-shut msg (lookup id queues) shut, broadcast_one)
          (record {
            kept = ground arith;
            grows = ground arith;
            same_open = refl;
            others = λ k h. refl;
          })
  ]

  lookup-keep :
      (id k : ℕ) (kept : Option (Staged V)) (rest : Dict ℕ (Staged V))
      → lookup id rest ≡ none
      → lookup k (keep id kept rest) ≡ (if id == k then kept else lookup k rest)
  unfolding lookup
  lookup-keep id k none rest h = ground (arith, ==_iff id k)
  lookup-keep id k (some a) rest h = refl

  keep-DistinctKeys :
      (id : ℕ) (kept : Option (Staged V)) (rest : Dict ℕ (Staged V))
      → lookup id rest ≡ none
      → DistinctKeys rest
      → DistinctKeys (keep id kept rest)
  keep-DistinctKeys id none rest h d = d
  keep-DistinctKeys id (some a) rest h d = (h, d)

  broadcast_each_lem :
      (msg : V) (atts : Dict ℕ (Staged V)) (queues : Dict ℕ (Queue V))
      → DistinctKeys atts
      → (k : ℕ) → Broadcasts msg atts queues (broadcast_each msg atts queues) k
  unfolding broadcast_each lookup
  broadcast_each_lem msg [] queues d k = record { attachment = refl; queue = refl; openness = refl }
  broadcast_each_lem msg ((id, a) ∷ rest) queues d k =
      let one = broadcast_one_lem msg id a queues in
      let (kept, queues') = broadcast_one msg id a queues in
      let ih : (j : ℕ) → Broadcasts msg rest queues' (broadcast_each msg rest queues') j =
        broadcast_each_lem msg rest queues' d.1 in
      let gone : lookup id (broadcast_each msg rest queues').0 ≡ none =
        (ih id).attachment ∙ ap (λ o. after_broadcast msg o (is_open (lookup id queues'))) d.0 in
      let found = lookup-keep id k kept (broadcast_each msg rest queues').0 gone in
      elim (Bool-cases (id == k)) [
        | inl same ↦ ground (arith, found, one, ih k, d, ==_iff id k)
        | inr apart ↦ ground (arith, found, one.others k apart, ih k)
      ]

  -- A broadcast, at every connection `k` at once: one that is catching up has the message staged
  -- last; a live one gets it last in its queue; a live one whose queue refuses it is dropped, and
  -- nobody else is; no queue opens or shuts.
  pub broadcast-reaches :
      (msg : V) (f : Fanout V)
      → DistinctKeys f.attachments
      → (k : ℕ)
      → Broadcasts msg f.attachments f.queues
          ((broadcast msg f).attachments, (broadcast msg f).queues)
          k
  unfolding broadcast
  broadcast-reaches msg f d k = broadcast_each_lem msg f.attachments f.queues d k

  pub broadcast_each-DistinctKeys :
      (msg : V) (atts : Dict ℕ (Staged V)) (queues : Dict ℕ (Queue V))
      → DistinctKeys atts
      → DistinctKeys (broadcast_each msg atts queues).0
  unfolding broadcast_each
  broadcast_each-DistinctKeys msg [] queues d = tt
  broadcast_each-DistinctKeys msg ((id, a) ∷ rest) queues d =
      let (kept, queues') = broadcast_one msg id a queues in
      keep-DistinctKeys id kept (broadcast_each msg rest queues').0
        ((broadcast_each_lem msg rest queues' d.1 id).attachment
          ∙ ap (λ o. after_broadcast msg o (is_open (lookup id queues'))) d.0)
        (broadcast_each-DistinctKeys msg rest queues' d.1)

  abbrev pub attached : ℕ → Fanout V → Bool
  attached id f = is_some (lookup id f.attachments)

  -- The state of connection `k` after a message for `id`.
  pub record Answers (id : ℕ) (msg : V) (f g : Fanout V) (k : ℕ) : Type 0 where
    pub attachment :
        lookup k g.attachments
        ≡ (if (id == k) && not (is_open (lookup id f.queues)) then none else lookup k f.attachments)
    pub queue :
        held (lookup k g.queues)
        ≡ grown
            ((id == k) && attached id f && is_open (lookup id f.queues))
            msg
            (held (lookup k f.queues))
    pub openness : is_open (lookup k g.queues) ≡ is_open (lookup k f.queues)

  send_found-Answers :
      (id : ℕ) (msg : V) (a : Option (Staged V)) (f : Fanout V) (k : ℕ)
      → lookup id f.attachments ≡ a
      → Answers id msg f (send_found id msg a f) k
  unfolding send_found deliver
  send_found-Answers id msg none f k e = ground (arith, ==_iff id k)
  send_found-Answers id msg (some a) f k e = elim (Bool-cases (is_open (lookup id f.queues))) [
    | inl opened ↦
        let (q, put, items, opened') = put_at-open msg (lookup id f.queues) opened in
        rw (put, deliver)
          (record {
            attachment = ground arith;
            queue = ground (arith, lookup-insert id k q f.queues, ==_iff id k);
            openness = ground (arith, lookup-insert id k q f.queues, ==_iff id k);
          })
    | inr shut ↦
        rw (put_at-shut msg (lookup id f.queues) shut, deliver)
          (record {
            attachment = ground (arith, lookup-remove id k f.attachments);
            queue = ground arith;
            openness = refl;
          })
  ]

  -- An answer, at every connection `k`: only the queue of the connection that asked gets it, and
  -- only while that connection is attached (so an id that was detached reaches nobody); if its
  -- queue refuses the message, that connection alone is dropped.
  pub send_to-Answers :
      (id : ℕ) (msg : V) (f : Fanout V) (k : ℕ) → Answers id msg f (send_to id msg f) k
  unfolding send_to
  send_to-Answers id msg f k = send_found-Answers id msg (lookup id f.attachments) f k refl
