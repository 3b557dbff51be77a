-- ===== src/Soul/Ralph.antt =====
-- The flow that repeats a prompt.
use rusty_kimi.Common.{◌≡◌, refl, sym, subst, String, true, some, arith}
use rusty_kimi.Common.Int.{ℤ}
use rusty_kimi.Common.Chars.{trim}
use rusty_kimi.Common.Eq.{string_eq, text_eq, elem}
use rusty_kimi.Common.Dict.{lookup}
use rusty_kimi.Message.{Message}
use rusty_kimi.Flow.{FlowNode, valid, validate_flow, edges_of, is_begin}
use rusty_kimi.Soul.Prompts.{ralph_loop}
use rusty_kimi.Soul.Flows.{first_edge}
use rusty_kimi.Soul.Walks.{BeginsOnce}

module _ {J : Type 0} (m : Message J) (max_ralph_iterations : ℤ) where
  -- The flow that repeats a user's prompt passes the checks on flows, with the begin and the end
  -- that it names.
  pub ralph_loop-valid :
      let flow = (ralph_loop m max_ralph_iterations).flow in
      validate_flow flow.nodes flow.outgoing ≡ valid flow.begin_id flow.end_id
  unfolding ralph_loop validate_flow elem lookup text_eq trim
  ralph_loop-valid = refl

  begin_node :
      (id : String) (node : FlowNode)
      → lookup id (ralph_loop m max_ralph_iterations).flow.nodes ≡ some node
      → is_begin node.kind ≡ true
      → id ≡ "BEGIN"
  unfolding ralph_loop lookup
  begin_node id node found begins = ground (arith, string_eq.beq_iff "BEGIN" id)

  -- Its begin node leads to the prompt.
  pub ralph_loop-BeginsOnce : BeginsOnce (ralph_loop m max_ralph_iterations).flow
  unfolding ralph_loop lookup edges_of
  ralph_loop-BeginsOnce id next node node' found begins way there =
      let at_begin = begin_node id node found begins in
      let way' : first_edge (edges_of (ralph_loop m max_ralph_iterations).flow.outgoing "BEGIN")
          ≡ some next =
        subst
          (λ i.
            first_edge (edges_of (ralph_loop m max_ralph_iterations).flow.outgoing i) ≡ some next)
          at_begin way in
      let at_prompt : "R1" ≡ next = cc way' in
      let there' =
        subst (λ i. lookup i (ralph_loop m max_ralph_iterations).flow.nodes ≡ some node')
          (sym at_prompt) there in
      ground (arith, there')
