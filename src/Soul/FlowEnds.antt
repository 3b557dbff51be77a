-- ===== src/Soul/FlowEnds.antt =====
-- How the run of a flow by turns of the agent ends.
use rusty_kimi.Common.{
  ℕ, suc, ◌+◌, ◌*◌, ◌≡◌, ◌≢◌, ◌⊎◌, refl, ap, String, true, false, List, [], ◌∷◌, Option, none, some,
  Bool-cases, inl, inr,
}
use rusty_kimi.Common.Chars.{trim}
use rusty_kimi.Message.{Text}
use rusty_kimi.Context.{Codec}
use rusty_kimi.Flow.{FlowNode, FlowEdge, edges_of, is_blank}
use rusty_kimi.Soul.State.{Settings, Llm, Services, TurnOutcome, Result, ok, err, Soul}
use rusty_kimi.Soul.Prompts.{
  FlowRunner, is_decision, is_rejected, leads, ask_again, build_flow_prompt,
}
use rusty_kimi.Soul.Flows.{
  Walked, out_of_fuel, proceed, flow_turn, after_turn, ask_node, execute_flow_node, run_flow,
}
use rusty_kimi.Soul.Walks.{BeginsOnce, StuckAt, EndsOrStuck, walk-ends}

leads-some :
    {J : Type 0} (node : FlowNode) (first : FlowEdge) (edges : List FlowEdge) (o : TurnOutcome J)
    → is_decision node.kind ≡ false
    → leads node first edges o ≢ none
unfolding leads
leads-some node first edges o h = elim (Bool-cases (is_rejected o.stop_reason)) [
  | inl rejected ↦ rw (rejected, leads) (λ e. cc e)
  | inr kept ↦ rw (kept, leads) (rw (h) (λ e. cc e))
]

module _ {J F W : Type 0} (c : Codec J) (v : Services J F W) (set : Settings)
    (llm : Option Llm) where
  proceed-ends :
      (retry : ℕ → Soul F W c → Soul F W c × Walked (Option String × ℕ)) (used : ℕ)
      (way : Option (Option String)) (s : Soul F W c)
      → way ≢ none
      → (proceed c v set llm retry used way s).1 ≢ out_of_fuel
  proceed-ends retry used none s h = absurd (h refl)
  proceed-ends retry used (some way) s h = λ e. cc e

  after_turn-ends :
      (retry : ℕ → Soul F W c → Soul F W c × Walked (Option String × ℕ)) (node : FlowNode)
      (first : FlowEdge) (edges : List FlowEdge) (used : ℕ)
      (x : Soul F W c × Result (TurnOutcome J))
      → is_decision node.kind ≡ false
      → (after_turn c v set llm retry node first edges used x).1 ≢ out_of_fuel
  after_turn-ends retry node first edges used (s, err e) h = λ e. cc e
  after_turn-ends retry node first edges used (s, ok o) h =
      proceed-ends retry (used + o.step_count) (leads node first edges o) s
        (leads-some node first edges o h)

  -- Only a decision node is asked again.
  execute-ends :
      (tries : ℕ) (node : FlowNode) (edges : List FlowEdge) (s : Soul F W c)
      → is_decision node.kind ≡ false
      → (execute_flow_node c v set llm (suc tries) node edges s).1 ≢ out_of_fuel
  unfolding execute_flow_node ask_node
  execute-ends tries node [] s h = λ e. cc e
  execute-ends tries node (first ∷ edges) s h =
      after_turn-ends
        (ask_node c v set llm tries node first edges
          (ask_again (build_flow_prompt node (first ∷ edges))))
        node first edges 0
        (flow_turn c v set llm (build_flow_prompt node (first ∷ edges)).user_input s) h

  -- The run came to a decision node of the flow with moves left, and stopped there because each of
  -- `tries` turns in a row ended without a valid choice.
  pub record Unanswered (tries : ℕ) (runner : FlowRunner) (s : Soul F W c)
      (x : Soul F W c × Walked (Unit {0})) : Type 0 where
    pub stuck : StuckAt (execute_flow_node c v set llm tries) runner s x
    pub asked : is_decision stuck.node.kind ≡ true

  stuck-Unanswered :
      (tries : ℕ) (runner : FlowRunner) (s : Soul F W c) (x : Soul F W c × Walked (Unit {0}))
      → EndsOrStuck (execute_flow_node c v set llm (suc tries)) runner s x
      → (x.1 ≢ out_of_fuel) ⊎ Unanswered (suc tries) runner s x
  stuck-Unanswered tries runner s x (inl ends) = inl ends
  stuck-Unanswered tries runner s x (inr stuck) = elim (Bool-cases (is_decision stuck.node.kind)) [
    | inl decides ↦ inr (record { stuck = stuck; asked = decides })
    | inr task ↦
        let ends =
          execute-ends tries stuck.node (edges_of runner.flow.outgoing stuck.id) stuck.state task in
        absurd (ends (ap (λ y. y.1) stuck.ran))
  ]

  -- A run of a flow in which the first way on from a begin node does not lead to a begin node, with
  -- two rounds for each move that it may make and two more, and with at least one try at each node:
  -- either it ends, or it stopped at a decision node of the flow that it had come to with moves
  -- left, since as many turns in a row as there are tries ended without a valid choice.
  pub run_flow-ends :
      (tries : ℕ) (runner : FlowRunner) (args : Text) (s : Soul F W c)
      → BeginsOnce runner.flow
      → let x = run_flow c v set llm (2 * runner.max_moves + 2) (suc tries) runner args s in
        (x.1 ≢ out_of_fuel) ⊎ Unanswered (suc tries) runner s x
  unfolding run_flow
  run_flow-ends tries runner args s once = elim (Bool-cases (is_blank (trim args))) [
    | inl blank ↦ rw (blank) (
        stuck-Unanswered tries runner s _
          (walk-ends (execute_flow_node c v set llm (suc tries)) runner s once))
    | inr ignored ↦ rw (ignored) (inl (λ e. cc e))
  ]
