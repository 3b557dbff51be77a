-- ===== src/Approval/Fetch.antt =====
-- What `fetch_request` hands to the user, and what it answers by itself.
use rusty_kimi.Common.{
  ◌≡◌, refl, sym, ap, subst, String, Bool, true, false, ◌||◌, List, [], ◌∷◌, ◌++◌, Option, none,
  some, is_some, arith, All, Bool-cases, inl, inr,
}
use rusty_kimi.Common.Eq.{string_eq, ◌=?◌, =?_self}
use rusty_kimi.Common.Dict.{lookup, remove, lookup-insert, lookup-remove}
use rusty_kimi.Queue.{receive}
use rusty_kimi.Wire.{ApprovalRequest, ApprovalResponseKind, approve}
use rusty_kimi.Approval.{
  Approval, Fetched, fetched, fetch_ended, fetch_waits, contains, resolve, resolve_found,
  resolve_request, taken, fetch_items, fetch_request,
}

module _ {J : Type 0} where
  -- The table holds each request under its own id.
  abbrev pub Keyed : Approval J → Type 0
  Keyed s = (k : String) (r : ApprovalRequest J) → lookup k s.requests ≡ some r → r.id ≡ k

  abbrev pub answered : String → Approval J → Bool
  answered k s = is_some (lookup k s.cells)

  -- The request is answered, or in the table.
  abbrev pub Tracked : Approval J → String → Type 0
  Tracked s k = (answered k s || is_some (lookup k s.requests)) ≡ true

  -- What approving `id` does.
  record Approves (id : String) (s t : Approval J) : Type 0 where
    queue : t.request_queue ≡ s.request_queue
    actions : t.auto_approve_actions ≡ s.auto_approve_actions
    answers : Tracked s id → answered id t ≡ true
    tracks : (k : String) → Tracked s k → Tracked t k
    keeps : (k : String) → answered k s ≡ true → answered k t ≡ true
    keyed : Keyed t

  remove-Keyed :
      (id : String) (s : Approval J)
      → Keyed s
      → Keyed (record s { requests = remove id s.requests })
  remove-Keyed id s w k r h = ground (arith, w k r, lookup-remove id k s.requests, h)

  resolve-Approves :
      (id : String) (o : Option ApprovalResponseKind) (s : Approval J)
      → lookup id s.cells ≡ o
      → Keyed s
      → Approves id s (resolve id approve o (record s { requests = remove id s.requests }))
  unfolding resolve
  resolve-Approves id none s e w = record {
    queue = refl;
    actions = refl;
    answers = λ t. ground (arith, lookup-insert id id approve s.cells, =?_self id);
    tracks =
        λ k t. ground (arith, lookup-insert id k approve s.cells, lookup-remove id k s.requests, t);
    keeps = λ k a. ground (arith, lookup-insert id k approve s.cells, a);
    keyed = remove-Keyed id s w;
  }
  resolve-Approves id (some v) s e w = record {
    queue = refl;
    actions = refl;
    answers = λ t. ground (arith, e);
    tracks = λ k t. elim (Bool-cases (id =? k)) [
      | inl same ↦
          let held = ap (λ x. lookup x s.cells) (sym ((string_eq.beq_iff id k).0 same)) in
          rw (held, e) refl
      | inr other ↦ rw (lookup-remove id k s.requests) (rw (other) t)
    ];
    keeps = λ k a. a;
    keyed = remove-Keyed id s w;
  }

  resolve_found-Approves :
      (id : String) (o : Option (ApprovalRequest J)) (s : Approval J)
      → lookup id s.requests ≡ o
      → Keyed s
      → Approves id s (resolve_found id approve o s).0
  unfolding resolve_found
  resolve_found-Approves id none s e w = record {
    queue = refl;
    actions = refl;
    answers = λ t. ground (arith, e, t);
    tracks = λ k t. t;
    keeps = λ k a. a;
    keyed = w;
  }
  resolve_found-Approves id (some r) s e w =
      subst
        (λ k.
          Approves id s
            (resolve k approve (lookup k s.cells) (record s { requests = remove id s.requests })))
        (sym (w id r e)) (resolve-Approves id (lookup id s.cells) s refl w)

  -- The requests that a fetch passed over: their actions are approved, and they are answered.
  abbrev pub Passed : List (ApprovalRequest J) → List String → Approval J → Type 0
  Passed skipped actions t =
      All (λ x. contains x.action actions ≡ true) skipped
      × All (λ x. answered x.id t ≡ true) skipped

  -- What a fetch may come back with that began with `items` queued and `actions` approved.
  abbrev pub Outcome : List (ApprovalRequest J) → List String → Fetched J → Type 0
  Outcome items actions (fetched r t) =
      (skipped : List (ApprovalRequest J)) × (items ≡ skipped ++ r ∷ t.request_queue.items)
      × (contains r.action actions ≡ false)
      × Passed skipped actions t
  Outcome items actions (fetch_ended t) = Passed items actions t
  Outcome items actions (fetch_waits t) = Passed items actions t

  abbrev reached : Fetched J → Approval J
  reached (fetched r t) = t
  reached (fetch_ended t) = t
  reached (fetch_waits t) = t

  -- One request more was answered before the fetch went on.
  Outcome-more :
      (x : ApprovalRequest J) (items : List (ApprovalRequest J)) (actions : List String)
      (f : Fetched J)
      → contains x.action actions ≡ true
      → answered x.id (reached f) ≡ true
      → Outcome items actions f
      → Outcome (x ∷ items) actions f
  Outcome-more x items actions (fetched r t) known done (skipped, split, new, (a, b)) =
      (x ∷ skipped, ap (◌∷◌ x) split, new, ((known, a), (done, b)))
  Outcome-more x items actions (fetch_ended t) known done (a, b) = ((known, a), (done, b))
  Outcome-more x items actions (fetch_waits t) known done (a, b) = ((known, a), (done, b))

  Tracked-All :
      (s t : Approval J) (xs : List (ApprovalRequest J))
      → ((k : String) → Tracked s k → Tracked t k)
      → All (λ x. Tracked s x.id) xs
      → All (λ x. Tracked t x.id) xs
  Tracked-All s t [] h all = tt
  Tracked-All s t (x ∷ xs) h (a, all) = (h x.id a, Tracked-All s t xs h all)

  fetch_items-Outcome :
      (items : List (ApprovalRequest J)) (s : Approval J)
      → Keyed s
      → All (λ x. Tracked s x.id) items
      → Outcome items s.auto_approve_actions (fetch_items items s)
        × ((k : String) → answered k s ≡ true → answered k (reached (fetch_items items s)) ≡ true)
  unfolding fetch_items
  fetch_items-Outcome [] s w tracked = elim (Bool-cases s.request_queue.sender_open) [
    | inl on ↦ rw (on) ((tt, tt), λ k h. h)
    | inr off ↦ rw (off) ((tt, tt), λ k h. h)
  ]
  fetch_items-Outcome (x ∷ xs) s w (t, ts) =
      elim (Bool-cases (contains x.action s.auto_approve_actions)) [
        | inl known ↦
            let s1 = taken (receive (x ∷ xs) s.request_queue) s in
            let a : Approves x.id s1 (resolve_request x.id approve s1).0 =
              unfold resolve_request in
              resolve_found-Approves x.id (lookup x.id s1.requests) s1 refl w in
            let s2 = (resolve_request x.id approve s1).0 in
            let (out, keeps) =
              fetch_items-Outcome xs s2 a.keyed (Tracked-All s s2 xs a.tracks ts) in
            let out' : Outcome xs s.auto_approve_actions (fetch_items xs s2) =
              subst (λ l. Outcome xs l (fetch_items xs s2)) a.actions out in
            rw (known, fetch_items)
              (
                Outcome-more x xs s.auto_approve_actions (fetch_items xs s2) known
                    (keeps x.id (a.answers t)) out',
                λ k h. keeps k (a.keeps k h),
              )
        | inr unknown ↦ rw (unknown, fetch_items) (([], refl, unknown, (tt, tt)), λ k h. h)
      ]

  -- Of the requests that are queued, `fetch_request` hands out the first whose action is not
  -- approved for the session, and leaves those after it queued; those before it are answered, as
  -- are all of them when it hands out none. (The table holds each request under its id, and every
  -- queued request is in it or answered.)
  pub fetch_request-Outcome :
      (s : Approval J)
      → Keyed s
      → All (λ x. Tracked s x.id) s.request_queue.items
      → Outcome s.request_queue.items s.auto_approve_actions (fetch_request s)
  unfolding fetch_request
  fetch_request-Outcome s w tracked = (fetch_items-Outcome s.request_queue.items s w tracked).0
