-- ===== src/Soul/Flows.antt =====
-- server/dvadva-agent/src/soul/kimisoul.rs: a flow chart run by turns of the agent (`FlowRunner`). The
-- loops have no bound of their own: `out_of_fuel` is no result of the code.
use rusty_kimi.Common.{
  ℕ, zero, suc, ◌+◌, String, List, [], ◌∷◌, Option, none, some, leb, if◌then◌else◌,
}
use rusty_kimi.Common.Chars.{trim}
use rusty_kimi.Common.Dict.{lookup}
use rusty_kimi.Common.Eq.{string_eq, text_eq}
use rusty_kimi.Message.{Text}
use rusty_kimi.Wire.{UserInput, turn_begin, turn_end}
use rusty_kimi.Context.{Codec}
use rusty_kimi.Flow.{FlowNode, FlowEdge, edges_of, is_begin, is_end, is_blank}
use rusty_kimi.Soul.State.{
  Settings, Llm, Services, TurnError, max_steps_reached, TurnOutcome, Result, ok, err, Soul, M,
  return, ◌>>=◌, ◌>>◌, wire_send,
}
use rusty_kimi.Soul.Effects.{input_message}
use rusty_kimi.Soul.Turn.{turn}
use rusty_kimi.Soul.Prompts.{FlowRunner, build_flow_prompt, ask_again, leads}

pub data Walked (A : Type 0) : Type 0 where
  walked : A → Walked A
  stopped : TurnError → Walked A
  panicked out_of_fuel : Walked A

abbrev pub first_edge : List FlowEdge → Option String
first_edge [] = none
first_edge (e ∷ es) = some e.dst

-- The loop of `FlowRunner::run` over any state: `execute` stands for `execute_flow_node`, whose
-- answer is the next node, if there is one, and the steps it took.
module _ {S : Type 0} (execute : FlowNode → List FlowEdge → S → S × Walked (Option String × ℕ))
    (runner : FlowRunner) where
  -- What follows a node that was executed; `go` is the loop's next round.
  abbrev pub after_node :
      (String → ℕ → ℕ → S → S × Walked (Unit {0}))
      → ℕ
      → ℕ
      → S × Walked (Option String × ℕ)
      → S × Walked (Unit {0})
  after_node go moves total (s, walked (none, used)) = (s, walked tt)
  after_node go moves total (s, walked (some id, used)) = go id (moves + 1) (total + used) s
  after_node go moves total (s, stopped e) = (s, stopped e)
  after_node go moves total (s, panicked) = (s, panicked)
  after_node go moves total (s, out_of_fuel) = (s, out_of_fuel)

  unfoldable pub visit :
      (String → ℕ → ℕ → S → S × Walked (Unit {0}))
      → Option FlowNode
      → List FlowEdge
      → ℕ
      → ℕ
      → S
      → S × Walked (Unit {0})
  visit go none edges moves total s = (s, panicked)
  visit go (some node) edges moves total s =
      if is_end node.kind
      then (s, walked tt)
      else if is_begin node.kind
      then elim (first_edge edges) [ none ↦ (s, walked tt) | some id ↦ go id moves total s ]
      else if leb runner.max_moves moves
      then (s, stopped (max_steps_reached total))
      else after_node go moves total (execute node edges s)

  unfoldable pub walk : ℕ → String → ℕ → ℕ → S → S × Walked (Unit {0})
  unfolding visit lookup edges_of
  walk zero id moves total s = (s, out_of_fuel)
  walk (suc fuel) id moves total s =
      let go = walk fuel in
      visit go (lookup id runner.flow.nodes) (edges_of runner.flow.outgoing id) moves total s

module _ {J F W : Type 0} (c : Codec J) (v : Services J F W) (set : Settings)
    (llm : Option Llm) where
  unfoldable pub flow_turn : UserInput → M F W c (TurnOutcome J)
  unfolding wire_send turn
  flow_turn prompt = do
    wire_send (turn_begin prompt)
    outcome ← turn c v set llm (input_message prompt)
    wire_send turn_end
    return outcome

  -- Asking again, or leaving the node.
  abbrev pub proceed :
      (ℕ → Soul F W c → Soul F W c × Walked (Option String × ℕ))
      → ℕ
      → Option (Option String)
      → Soul F W c
      → Soul F W c × Walked (Option String × ℕ)
  proceed retry used none s = retry used s
  proceed retry used (some way) s = (s, walked (way, used))

  -- What follows a turn; `retry` asks again.
  abbrev pub after_turn :
      (ℕ → Soul F W c → Soul F W c × Walked (Option String × ℕ))
      → FlowNode
      → FlowEdge
      → List FlowEdge
      → ℕ
      → Soul F W c × Result (TurnOutcome J)
      → Soul F W c × Walked (Option String × ℕ)
  after_turn retry node first edges used (s, err e) = (s, stopped e)
  after_turn retry node first edges used (s, ok outcome) =
      proceed retry (used + outcome.step_count) (leads node first edges outcome) s

  -- The loop of `execute_flow_node`.
  unfoldable pub ask_node :
      ℕ
      → FlowNode
      → FlowEdge
      → List FlowEdge
      → UserInput
      → ℕ
      → Soul F W c
      → Soul F W c × Walked (Option String × ℕ)
  unfolding flow_turn leads build_flow_prompt ask_again
  ask_node zero node first edges prompt used s = (s, out_of_fuel)
  ask_node (suc fuel) node first edges prompt used s =
      let again = ask_again (build_flow_prompt node (first ∷ edges)) in
      let retry = ask_node fuel node first edges again in
      after_turn retry node first edges used (flow_turn prompt s)

  unfoldable pub execute_flow_node :
      ℕ → FlowNode → List FlowEdge → Soul F W c → Soul F W c × Walked (Option String × ℕ)
  unfolding ask_node build_flow_prompt
  execute_flow_node fuel node [] s = (s, walked (none, 0))
  execute_flow_node fuel node (first ∷ edges) s =
      ask_node fuel node first edges (build_flow_prompt node (first ∷ edges)).user_input 0 s

  -- `FlowRunner::run`, with fuel for its rounds and for those at each node.
  unfoldable pub run_flow : ℕ → ℕ → FlowRunner → Text → Soul F W c → Soul F W c × Walked (Unit {0})
  unfolding walk execute_flow_node trim
  run_flow fuel tries runner args s =
      let ran = walk (execute_flow_node tries) runner fuel runner.flow.begin_id 0 0 s in
      if is_blank (trim args) then ran else (s, walked tt)
