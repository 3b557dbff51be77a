-- ===== src/Flow/Decisions.antt =====
-- Naming the decision nodes changes nothing for validation.
use rusty_kimi.Common.{ℕ, ◌≡◌, refl, String, Bool, List, [], ◌∷◌, Option, none, some, arith, length}
use rusty_kimi.Common.Eq.{string_eq}
use rusty_kimi.Common.Dict.{Dict}
use rusty_kimi.Flow.{
  FlowNodeKind, begin, end, task, decision, FlowNode, FlowEdge, is_begin, is_end, values, ids_of,
  edges_of, check_nodes, check_search, check_ends, check_begins, reachable_from, validate_flow,
  decided, infer_decision_nodes,
}

decided-is_begin : (k : FlowNodeKind) (n : ℕ) → is_begin (decided k n) ≡ is_begin k
decided-is_begin task n = ground arith
decided-is_begin begin n = refl
decided-is_begin end n = refl
decided-is_begin decision n = refl

decided-is_end : (k : FlowNodeKind) (n : ℕ) → is_end (decided k n) ≡ is_end k
decided-is_end task n = ground arith
decided-is_end begin n = refl
decided-is_end end n = refl
decided-is_end decision n = refl

module _ (outgoing : Dict String (List FlowEdge)) where
  ids_of-infer :
      (test : FlowNodeKind → Bool)
      → ((k : FlowNodeKind) (n : ℕ) → test (decided k n) ≡ test k)
      → (nodes : Dict String FlowNode)
      → ids_of test (values (infer_decision_nodes nodes outgoing)) ≡ ids_of test (values nodes)
  unfolding infer_decision_nodes ids_of
  ids_of-infer test same [] = refl
  ids_of-infer test same ((id, n) ∷ ns) =
      rw (same n.kind (length (edges_of outgoing id))) (rw (ids_of-infer test same ns) refl)

  check_nodes-infer :
      (found : List String) (nodes : Dict String FlowNode)
      → check_nodes outgoing found (values (infer_decision_nodes nodes outgoing))
        ≡ check_nodes outgoing found (values nodes)
  unfolding infer_decision_nodes check_nodes
  check_nodes-infer found [] = refl
  check_nodes-infer found ((id, n) ∷ ns) = ground (arith, check_nodes-infer found ns)

  check_search-infer :
      (nodes : Dict String FlowNode) (b e : String) (found : Option (List String))
      → check_search (infer_decision_nodes nodes outgoing) outgoing b e found
        ≡ check_search nodes outgoing b e found
  unfolding check_search
  check_search-infer nodes b e none = refl
  check_search-infer nodes b e (some found) = ground (arith, check_nodes-infer found nodes)

  check_begins-infer :
      (nodes : Dict String FlowNode) (bs es : List String)
      → check_begins (infer_decision_nodes nodes outgoing) outgoing bs es
        ≡ check_begins nodes outgoing bs es
  unfolding check_begins check_ends
  check_begins-infer nodes [] es = refl
  check_begins-infer nodes (b ∷ x ∷ bs) es = refl
  check_begins-infer nodes (b ∷ []) [] = refl
  check_begins-infer nodes (b ∷ []) (e ∷ x ∷ es) = refl
  check_begins-infer nodes (b ∷ []) (e ∷ []) =
      check_search-infer nodes b e (reachable_from outgoing b)

  -- Validation comes to the same verdict, error or not, with the decision nodes named and without.
  pub validate_flow-infer_decision_nodes :
      (nodes : Dict String FlowNode)
      → validate_flow (infer_decision_nodes nodes outgoing) outgoing ≡ validate_flow nodes outgoing
  unfolding validate_flow
  validate_flow-infer_decision_nodes nodes = rw (ids_of-infer is_begin decided-is_begin nodes) (
      rw (ids_of-infer is_end decided-is_end nodes)
        (check_begins-infer nodes (ids_of is_begin (values nodes)) (ids_of is_end (values nodes))))
