-- ===== src/Flow/Validity.antt =====
-- What `validate_flow` accepts.
use rusty_kimi.Common.{
  ◌≡◌, ◌≢◌, ◌↔◌, sym, ap, String, true, List, [], ◌∷◌, some, All, subst, Bool-cases, Option-cases,
  inl, inr,
}
use rusty_kimi.Common.Eq.{string_eq, elem}
use rusty_kimi.Common.Dict.{Dict}
use rusty_kimi.Flow.{
  FlowNode, FlowEdge, valid, out_of_fuel, is_begin, is_end, values, ids_of, edges_of, check_nodes,
  check_search, check_ends, check_begins, validate_flow,
}
use rusty_kimi.Flow.Search.{Reach, reachable_from-Reach}
use rusty_kimi.Flow.Labels.{Tells, AllTell, check_nodes-AllTell}

-- One begin node and one end node, a path from the one to the other, and edges that can be told
-- apart at every node that a path leads to.
pub record IsFlow (nodes : Dict String FlowNode) (outgoing : Dict String (List FlowEdge))
    (b e : String) : Type 0 where
  pub begins : ids_of is_begin (values nodes) ≡ b ∷ []
  pub ends : ids_of is_end (values nodes) ≡ e ∷ []
  pub connected : Reach outgoing b e
  pub tells : All (λ n. Reach outgoing b n.id → Tells (edges_of outgoing n.id)) (values nodes)

module _ (nodes : Dict String FlowNode) (outgoing : Dict String (List FlowEdge)) where
  -- What is left to check when there are one begin and one end.
  abbrev Rest : String → String → Type 0
  Rest b e =
      Reach outgoing b e
      × All (λ n. Reach outgoing b n.id → Tells (edges_of outgoing n.id)) (values nodes)

  found-Tells :
      (b : String) (found : List String) (ns : List FlowNode)
      → ((v : String) → Reach outgoing b v → elem v found ≡ true)
      → AllTell outgoing found ns
      → All (λ n. Reach outgoing b n.id → Tells (edges_of outgoing n.id)) ns
  found-Tells b found [] h a = tt
  found-Tells b found (n ∷ ns) h (t, a) = (λ p. t (h n.id p), found-Tells b found ns h a)

  Tells-found :
      (b : String) (found : List String) (ns : List FlowNode)
      → ((v : String) → elem v found ≡ true → Reach outgoing b v)
      → All (λ n. Reach outgoing b n.id → Tells (edges_of outgoing n.id)) ns
      → AllTell outgoing found ns
  Tells-found b found [] h a = tt
  Tells-found b found (n ∷ ns) h (t, a) = (λ m. t (h n.id m), Tells-found b found ns h a)

  check_search-Rest :
      (b e b' e' : String) (found : List String)
      → ((v : String) → elem v found ≡ true → Reach outgoing b v)
      → ((v : String) → Reach outgoing b v → elem v found ≡ true)
      → (check_search nodes outgoing b e (some found) ≡ valid b' e')
        ↔ ((b ≡ b') × (e ≡ e') × Rest b e)
  unfolding check_search
  check_search-Rest b e b' e' found sound full =
      elim (Option-cases (check_nodes outgoing found (values nodes))) [
        | inr (err, failed) ↦
            rw (failed, check_search)
              (
                λ h. cc h,
                λ (p, q, (c, t)). cc (
                  failed,
                  (check_nodes-AllTell outgoing found (values nodes)).1
                      (Tells-found b found (values nodes) sound t),
                ),
              )
        | inl passed ↦
            rw (passed, check_search)
              (elim (Bool-cases (elem e found)) [
                | inl here ↦ rw (here) (
                  λ h. (
                    cc h,
                    cc h,
                    (
                      sound e here,
                      found-Tells b found (values nodes) full
                          ((check_nodes-AllTell outgoing found (values nodes)).0 passed),
                    ),
                  ),
                  λ (p, q, r). cc (p, q),
                )
                | inr away ↦ rw (away) (λ h. cc h, λ (p, q, (c, t)). cc (away, full e c))
              ])
      ]

  check_ends-Rest :
      (b b' e' : String) (es : List String)
      → (check_ends nodes outgoing b es ≡ valid b' e') ↔ ((es ≡ e' ∷ []) × (b ≡ b') × Rest b e')
  unfolding check_ends
  check_ends-Rest b b' e' [] = (λ h. cc h, λ (p, _, _). cc p)
  check_ends-Rest b b' e' (e ∷ x ∷ es) = (λ h. cc h, λ (p, _, _). cc p)
  check_ends-Rest b b' e' (e ∷ []) =
      let (found, ends, sound, full) = reachable_from-Reach outgoing b in
      let r = check_search-Rest b e b' e' found sound full in
      rw (ends) (
        λ h. let (p, q, t) = r.0 h in (ap (λ x. x ∷ []) q, p, subst (Rest b) q t),
        λ (p, q, t). let same : e ≡ e' = cc p in r.1 (q, same, subst (Rest b) (sym same) t),
      )

  check_begins-IsFlow :
      (b' e' : String) (bs es : List String)
      → (check_begins nodes outgoing bs es ≡ valid b' e')
        ↔ ((bs ≡ b' ∷ []) × (es ≡ e' ∷ []) × Rest b' e')
  unfolding check_begins
  check_begins-IsFlow b' e' [] es = (λ h. cc h, λ (p, _, _). cc p)
  check_begins-IsFlow b' e' (b ∷ x ∷ bs) es = (λ h. cc h, λ (p, _, _). cc p)
  check_begins-IsFlow b' e' (b ∷ []) es =
      let r = check_ends-Rest b b' e' es in
      (
        λ h. let (q, p, t) = r.0 h in (ap (λ x. x ∷ []) p, q, subst (λ x. Rest x e') p t),
        λ (p, q, t). let same : b ≡ b' = cc p in r.1 (q, same, subst (λ x. Rest x e') (sym same) t),
      )

  -- A flow is accepted, with its begin and its end, exactly when it has one of each, a path from
  -- the one to the other, and at every node that a path leads to at most one edge, or labels on all
  -- of its edges of which no two are the same after trimming.
  pub validate_flow-IsFlow :
      (b e : String) → (validate_flow nodes outgoing ≡ valid b e) ↔ IsFlow nodes outgoing b e
  unfolding validate_flow
  validate_flow-IsFlow b e =
      let r =
        check_begins-IsFlow b e (ids_of is_begin (values nodes)) (ids_of is_end (values nodes)) in
      (
        λ h. let (p, q, t) = r.0 h in record { begins = p; ends = q; connected = t.0; tells = t.1 },
        λ f. r.1 (f.begins, f.ends, (f.connected, f.tells)),
      )

  check_search-verdict :
      (b e : String) (found : List String)
      → check_search nodes outgoing b e (some found) ≢ out_of_fuel
  unfolding check_search
  check_search-verdict b e found = elim (Option-cases (check_nodes outgoing found (values nodes))) [
    | inr (err, failed) ↦ rw (failed, check_search) (λ h. cc h)
    | inl passed ↦
        rw (passed, check_search)
          (elim (Bool-cases (elem e found)) [
            | inl here ↦ rw (here) (λ h. cc h)
            | inr away ↦ rw (away) (λ h. cc h)
          ])
  ]

  check_begins-verdict : (bs es : List String) → check_begins nodes outgoing bs es ≢ out_of_fuel
  unfolding check_begins check_ends
  check_begins-verdict [] es = λ h. cc h
  check_begins-verdict (b ∷ x ∷ bs) es = λ h. cc h
  check_begins-verdict (b ∷ []) [] = λ h. cc h
  check_begins-verdict (b ∷ []) (e ∷ x ∷ es) = λ h. cc h
  check_begins-verdict (b ∷ []) (e ∷ []) =
      let (found, ends, _, _) = reachable_from-Reach outgoing b in
      rw (ends) (check_search-verdict b e found)

  -- The search always ends within its fuel, so validation comes to a verdict.
  pub validate_flow-ne-out_of_fuel : validate_flow nodes outgoing ≢ out_of_fuel
  unfolding validate_flow
  validate_flow-ne-out_of_fuel =
      check_begins-verdict (ids_of is_begin (values nodes)) (ids_of is_end (values nodes))
