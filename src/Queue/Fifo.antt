-- ===== src/Queue/Fifo.antt =====
-- The queue over any sequence of calls: what is put in comes out once and in order.
use rusty_kimi.Common.{
  ◌%◌, ◌≡◌, refl, sym, ◌∙◌, Bool, true, false, not, List, [], ◌∷◌, ◌++◌, Option, none, some, arith,
  length, length-append, append_assoc, append-nil,
}
use rusty_kimi.Queue.{
  Queue, usize_mod, Received, item, ended, waits, empty, put_nowait, get, receive, shutdown,
}

pub data Call {ℓ} (A : Type ℓ) : Type ℓ where
  puts : A → Call A
  gets : Call A
  shuts : Bool → Call A

-- A queue with its history: what calls put in, what they got out, what a shutdown threw away.
pub record Log {ℓ} (A : Type ℓ) : Type ℓ where
  pub queue : Queue A
  pub accepted : List A
  pub delivered : List A
  pub dropped : List A

module _ {ℓ} {A : Type ℓ} where
  unfoldable pub start : Log A
  unfolding empty
  start = record { queue = empty; accepted = []; delivered = []; dropped = [] }

  after_put : A → Log A → Option (Queue A) → Log A
  after_put x l (some q) = record l { queue = q; accepted = l.accepted ++ x ∷ [] }
  after_put x l none = l

  after_get : Log A → Received A → Log A
  after_get l (item x q) = record l { queue = q; delivered = l.delivered ++ x ∷ [] }
  after_get l ended = l
  after_get l waits = l

  after_shutdown : Bool → Bool → Log A → Log A
  after_shutdown true false l = record l {
    queue = shutdown true l.queue;
    dropped = l.dropped ++ l.queue.items;
  }
  after_shutdown immediate _ l = record l { queue = shutdown immediate l.queue }

  unfoldable pub step : Log A → Call A → Log A
  unfolding after_put after_get after_shutdown put_nowait get shutdown
  step l (puts x) = after_put x l (put_nowait x l.queue)
  step l gets = after_get l (get l.queue)
  step l (shuts immediate) = after_shutdown immediate l.queue.shut l

  unfoldable pub run : Log A → List (Call A) → Log A
  run l [] = l
  run l (c ∷ cs) = run (step l c) cs

  pub record Inv (l : Log A) : Type ℓ where
    pub order : l.accepted ≡ l.delivered ++ (l.queue.items ++ l.dropped)
    pub open_keeps : l.queue.shut ≡ false → l.dropped ≡ []
    pub sender : l.queue.sender_open ≡ not l.queue.shut
    pub counted : l.queue.len ≡ length l.queue.items % usize_mod

  start-Inv : Inv start
  unfolding start
  start-Inv = ground arith

  put-order :
      (x : A) (acc out items dropped : List A)
      → dropped ≡ []
      → acc ≡ out ++ (items ++ dropped)
      → acc ++ x ∷ [] ≡ out ++ ((items ++ x ∷ []) ++ dropped)
  put-order x acc out items dropped e h =
      cc (append-nil items, append-nil (items ++ x ∷ []), append_assoc out items (x ∷ []))

  put-Inv : (x : A) (l : Log A) → Inv l → Inv (after_put x l (put_nowait x l.queue))
  unfolding after_put put_nowait
  put-Inv x l v = ground (
    arith,
    put-order x l.accepted l.delivered l.queue.items l.dropped,
    length-append l.queue.items (x ∷ []),
  )

  get-Inv :
      (l : Log A) (items : List A)
      → l.queue.items ≡ items
      → Inv l
      → Inv (after_get l (receive items l.queue))
  unfolding after_get receive
  get-Inv l [] e v = ground arith
  get-Inv l (x ∷ rest) e v = ground (arith, append_assoc l.delivered (x ∷ []) (rest ++ l.dropped))

  shutdown-Inv :
      (immediate : Bool) (l : Log A) → Inv l → Inv (after_shutdown immediate l.queue.shut l)
  unfolding after_shutdown shutdown
  shutdown-Inv true l v = ground (arith, append-nil l.queue.items)
  shutdown-Inv false l v = ground arith

  step-Inv : (l : Log A) (c : Call A) → Inv l → Inv (step l c)
  unfolding step
  step-Inv l (puts x) v = put-Inv x l v
  step-Inv l gets v = get-Inv l l.queue.items refl v
  step-Inv l (shuts immediate) v = shutdown-Inv immediate l v

  pub run-Inv : (l : Log A) (cs : List (Call A)) → Inv l → Inv (run l cs)
  unfolding run
  run-Inv l [] v = v
  run-Inv l (c ∷ cs) v = run-Inv (step l c) cs (step-Inv l c v)

  -- After any sequence of calls on a new queue, what was accepted is what was delivered, then what
  -- the queue still holds, then what immediate shutdowns threw away, in that order, and the
  -- counter is the number of items held, modulo 2^64.
  pub run-fifo :
      (cs : List (Call A))
      → let l = run start cs in
        (l.accepted ≡ l.delivered ++ (l.queue.items ++ l.dropped))
        × (l.queue.len ≡ length l.queue.items % usize_mod)
  run-fifo cs = let v = run-Inv start cs start-Inv in (v.order, v.counted)

  get-shut :
      (l : Log A) (items : List A)
      → l.queue.shut ≡ true
      → let r = after_get l (receive items l.queue) in
        (r.queue.shut ≡ true) × (r.accepted ≡ l.accepted)
  unfolding after_get receive
  get-shut l [] h = ground arith
  get-shut l (x ∷ rest) h = ground arith

  step-shut :
      (l : Log A) (c : Call A)
      → l.queue.shut ≡ true
      → ((step l c).queue.shut ≡ true) × ((step l c).accepted ≡ l.accepted)
  unfolding step
  step-shut l (puts x) h = ground arith
  step-shut l gets h = get-shut l l.queue.items h
  step-shut l (shuts true) h = ground arith
  step-shut l (shuts false) h = ground arith

  -- Once a queue is shut down, no sequence of calls makes it accept anything more.
  pub run-shut :
      (l : Log A) (cs : List (Call A))
      → l.queue.shut ≡ true
      → ((run l cs).queue.shut ≡ true) × ((run l cs).accepted ≡ l.accepted)
  unfolding run
  run-shut l [] h = (h, refl)
  run-shut l (c ∷ cs) h =
      let (shut, same) = step-shut l c h in
      let (shut', same') = run-shut (step l c) cs shut in (shut', same' ∙ same)

  abbrev pub gets_for : List A → List (Call A)
  gets_for [] = []
  gets_for (x ∷ xs) = gets ∷ gets_for xs

  step-gets :
      (l : Log A) (x : A) (rest : List A)
      → l.queue.items ≡ x ∷ rest
      → let r = step l gets in
        (r.queue.items ≡ rest)
        × (r.queue.sender_open ≡ l.queue.sender_open)
        × (r.delivered ≡ l.delivered ++ x ∷ [])
        × (r.dropped ≡ l.dropped)
  unfolding step
  step-gets l x rest e = ground arith

  drain_from :
      (l : Log A) (items : List A)
      → l.queue.items ≡ items
      → l.queue.sender_open ≡ false
      → let r = run l (gets_for items) in
        (r.delivered ≡ l.delivered ++ items) × (r.dropped ≡ l.dropped) × (get r.queue ≡ ended)
  unfolding run get
  drain_from l [] e h = (sym (append-nil l.delivered), refl, ground arith)
  drain_from l (x ∷ rest) e h = ground (
    arith,
    step-gets l x rest e,
    append_assoc l.delivered (x ∷ []) rest,
    drain_from (step l gets) rest,
  )

  -- A graceful shutdown of a queue that is open loses nothing: as many reads as items are held
  -- deliver them all, in order, nothing is thrown away, and the next read reports the end.
  pub shutdown_drains :
      (l : Log A)
      → l.queue.shut ≡ false
      → let r = run (step l (shuts false)) (gets_for l.queue.items) in
        (r.delivered ≡ l.delivered ++ l.queue.items)
        × (r.dropped ≡ l.dropped)
        × (get r.queue ≡ ended)
  unfolding step
  shutdown_drains l h =
      ground (arith, drain_from (after_shutdown false l.queue.shut l) l.queue.items)
