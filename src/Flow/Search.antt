-- ===== src/Flow/Search.antt =====
-- The search from the begin node ends, and finds exactly the nodes that some path leads to.
use rusty_kimi.Common.{
  ℕ, zero, suc, ◌+◌, ◌≤◌, ◌<◌, ◌≡◌, ◌⊎◌, ◌↔◌, refl, sym, ap, subst, String, Bool, true, false, List,
  [], ◌∷◌, some, arith, length, Bool-cases, inl, inr, if◌then◌else◌,
}
use rusty_kimi.Common.Eq.{string_eq, ◌=?◌, elem, elem_cons}
use rusty_kimi.Common.Dict.{Dict, lookup}
use rusty_kimi.Flow.{
  FlowEdge, or_empty, edges_of, push_edges, search_from, edge_count, reachable_from,
}

-- An edge of the list leads to `v`.
unfoldable pub leads : String → List FlowEdge → Bool
leads v [] = false
leads v (e ∷ es) = if e.dst =? v then true else leads v es

module _ (outgoing : Dict String (List FlowEdge)) where
  -- The paths from `start`.
  pub data Reach (start : String) : String → Type 0 where
    here : Reach start start
    along : {u v : String} → Reach start u → leads v (edges_of outgoing u) ≡ true → Reach start v

  -- The edges of the nodes that have not been visited.
  unfoldable left_over : List String → Dict String (List FlowEdge) → ℕ
  unfolding elem
  left_over seen [] = 0
  left_over seen ((k, es) ∷ m) = (if elem k seen then 0 else length es) + left_over seen m

  left_over-none : (m : Dict String (List FlowEdge)) → left_over [] m ≡ edge_count m
  unfolding left_over edge_count
  left_over-none [] = refl
  left_over-none ((k, es) ∷ m) = ap (◌+◌ (length es)) (left_over-none m)

  left_over_mono :
      (id : String) (seen : List String) (m : Dict String (List FlowEdge))
      → left_over (id ∷ seen) m ≤ left_over seen m
  unfolding left_over elem
  left_over_mono id seen [] = omega arith
  left_over_mono id seen ((k, es) ∷ m) = ground (arith, left_over_mono id seen m)

  -- A visit takes the node's edges off.
  left_over-visit :
      (id : String) (seen : List String) (m : Dict String (List FlowEdge))
      → elem id seen ≡ false
      → length (or_empty outgoing (lookup id m)) + left_over (id ∷ seen) m ≤ left_over seen m
  unfolding left_over elem lookup
  left_over-visit id seen [] h = omega arith
  left_over-visit id seen ((k, es) ∷ m) h = ground (
    arith,
    left_over-visit id seen m,
    left_over_mono id seen m,
    string_eq.beq_iff k id,
    string_eq.beq_iff id k,
  )

  length-push_edges :
      (es : List FlowEdge) (seen queue : List String)
      → length (push_edges outgoing es seen queue) ≤ length es + length queue
  unfolding push_edges
  length-push_edges [] seen queue = omega arith
  length-push_edges (e ∷ es) seen queue = elim (Bool-cases (elem e.dst seen)) [
    | inl old ↦ rw (old, push_edges) (omega (arith, length-push_edges es seen queue))
    | inr new ↦ rw (new, push_edges) (omega (arith, length-push_edges es seen (e.dst ∷ queue)))
  ]

  search_from_ends :
      (fuel : ℕ) (seen queue : List String)
      → length queue + left_over seen outgoing < fuel
      → (found : List String) × (search_from outgoing fuel seen queue ≡ some found)
  unfolding search_from edges_of
  search_from_ends zero seen queue h = absurd (omega arith)
  search_from_ends (suc fuel) seen [] h = (seen, refl)
  search_from_ends (suc fuel) seen (id ∷ queue) h = elim (Bool-cases (elem id seen)) [
    | inl old ↦ rw (old, search_from) (search_from_ends fuel seen queue (omega arith))
    | inr new ↦
        let es = edges_of outgoing id in
        let fewer = left_over-visit id seen outgoing new in
        let pushed = length-push_edges es (id ∷ seen) queue in
        rw (new, search_from)
          (search_from_ends fuel (id ∷ seen) (push_edges outgoing es (id ∷ seen) queue)
            (omega (arith, fewer, pushed)))
  ]

  -- What is queued: what was, and the ends of the edges that are not visited.
  elem-push_edges :
      (v : String) (es : List FlowEdge) (seen queue : List String)
      → (elem v (push_edges outgoing es seen queue) ≡ true)
        ↔ ((elem v queue ≡ true) ⊎ ((leads v es ≡ true) × (elem v seen ≡ false)))
  unfolding push_edges leads
  elem-push_edges v [] seen queue = ground arith
  elem-push_edges v (e ∷ es) seen queue = elim (Bool-cases (elem e.dst seen)) [
    | inl old ↦
        rw (old, push_edges)
          (ground (arith, elem-push_edges v es seen queue, string_eq.beq_iff e.dst v, old))
    | inr new ↦
        rw (new, push_edges)
          (ground (
            arith,
            elem-push_edges v es seen (e.dst ∷ queue),
            string_eq.beq_iff e.dst v,
            elem_cons v e.dst queue,
            new,
          ))
  ]

  -- What the loop keeps, with `b` the begin node.
  record Inv (b : String) (seen queue : List String) : Type 0 where
    visited : (v : String) → elem v seen ≡ true → Reach b v
    queued : (v : String) → elem v queue ≡ true → Reach b v
    closed :
        (u v : String)
        → elem u seen ≡ true
        → leads v (edges_of outgoing u) ≡ true
        → (elem v seen ≡ true) ⊎ (elem v queue ≡ true)
    begun : (elem b seen ≡ true) ⊎ (elem b queue ≡ true)

  skip-Inv :
      (b id : String) (seen queue : List String)
      → elem id seen ≡ true
      → Inv b seen (id ∷ queue)
      → Inv b seen queue
  skip-Inv b id seen queue old i = record {
    visited = i.visited;
    queued = λ v h. i.queued v ((elem_cons v id queue).1 (inr h));
    closed = λ u v h e. ground (arith, i.closed u v h e, elem_cons v id queue, old);
    begun = ground (arith, i.begun, elem_cons b id queue, old);
  }

  visit-Inv :
      (b id : String) (seen queue : List String)
      → elem id seen ≡ false
      → Inv b seen (id ∷ queue)
      → Inv b (id ∷ seen) (push_edges outgoing (edges_of outgoing id) (id ∷ seen) queue)
  visit-Inv b id seen queue new i =
      let es = edges_of outgoing id in
      let to_id : Reach b id = i.queued id ((elem_cons id id queue).1 (inl refl)) in
      record {
        visited = λ v h. elim ((elem_cons v id seen).0 h) [
          | inl same ↦ subst (Reach b) same to_id
          | inr old ↦ i.visited v old
        ];
        queued = λ v h. elim ((elem-push_edges v es (id ∷ seen) queue).0 h) [
          | inl old ↦ i.queued v ((elem_cons v id queue).1 (inr old))
          | inr (way, _) ↦ along to_id way
        ];
        closed = λ u v h e. elim ((elem_cons u id seen).0 h) [
          | inl same ↦ elim (Bool-cases (elem v (id ∷ seen))) [
            | inl known ↦ inl known
            | inr unknown ↦
                let way : leads v es ≡ true =
                  subst (λ x. leads v (edges_of outgoing x) ≡ true) (sym same) e in
                inr ((elem-push_edges v es (id ∷ seen) queue).1 (inr (way, unknown)))
          ]
          | inr old ↦ ground (
            arith,
            i.closed u v old e,
            elem_cons v id queue,
            elem_cons v id seen,
            elem-push_edges v es (id ∷ seen) queue,
          )
        ];
        begun = ground (
          arith,
          i.begun,
          elem_cons b id queue,
          elem_cons b id seen,
          elem-push_edges b es (id ∷ seen) queue,
        );
      }

  search_from-Inv :
      (b : String) (fuel : ℕ) (seen queue found : List String)
      → Inv b seen queue
      → search_from outgoing fuel seen queue ≡ some found
      → Inv b found []
  unfolding search_from
  search_from-Inv b zero seen queue found i h = cc h
  search_from-Inv b (suc fuel) seen [] found i h =
      let same : seen ≡ found = cc h in subst (λ s. Inv b s []) same i
  search_from-Inv b (suc fuel) seen (id ∷ queue) found i h = elim (Bool-cases (elem id seen)) [
    | inl old ↦
        search_from-Inv b fuel seen queue found (skip-Inv b id seen queue old i)
          (rw (old, search_from) at h)
    | inr new ↦
        search_from-Inv b fuel (id ∷ seen)
          (push_edges outgoing (edges_of outgoing id) (id ∷ seen) queue) found
          (visit-Inv b id seen queue new i) (rw (new, search_from) at h)
  ]

  start-Inv : (b : String) → Inv b [] (b ∷ [])
  unfolding elem
  start-Inv b = record {
    visited = λ v h. cc h;
    queued = λ v h. elim ((elem_cons v b []).0 h) [
      | inl same ↦ subst (Reach b) same here
      | inr none_left ↦ cc none_left
    ];
    closed = λ u v h e. cc h;
    begun = inr ((elem_cons b b []).1 (inl refl));
  }

  reached :
      (b : String) (found : List String)
      → Inv b found []
      → {v : String} → Reach b v
      → elem v found ≡ true
  unfolding elem
  reached b found i here = ground (arith, i.begun)
  reached b found i (along {u} {v} p e) = elim (i.closed u v (reached b found i p) e) [
    | inl known ↦ known
    | inr queued ↦ cc queued
  ]

  -- The search from a node ends with its fuel, and what it finds are exactly the nodes that some
  -- path along the edges leads to.
  pub reachable_from-Reach :
      (b : String)
      → (found : List String) × (reachable_from outgoing b ≡ some found)
        × ((v : String) → elem v found ≡ true → Reach b v)
        × ((v : String) → Reach b v → elem v found ≡ true)
  unfolding reachable_from
  reachable_from-Reach b =
      let (found, ends) =
        search_from_ends (edge_count outgoing + 2) [] (b ∷ [])
          (omega (arith, left_over-none outgoing)) in
      let i = search_from-Inv b (edge_count outgoing + 2) [] (b ∷ []) found (start-Inv b) ends in
      (found, ends, i.visited, λ v p. reached b found i p)
