-- ===== src/Soul/FlowRuns.antt =====
-- A flow's run keeps every tool call answered.
use rusty_kimi.Common.{
  ℕ, zero, suc, ◌+◌, ◌≡◌, String, true, List, [], ◌∷◌, ◌++◌, Option, none, some, leb, Option-cases,
  Bool-cases, inl, inr,
}
use rusty_kimi.Common.Dict.{lookup}
use rusty_kimi.Common.Eq.{string_eq}
use rusty_kimi.Common.Chars.{trim}
use rusty_kimi.Message.{Message, Text}
use rusty_kimi.Wire.{UserInput, turn_begin, turn_end}
use rusty_kimi.Context.{Codec}
use rusty_kimi.Context.Replay.{Readable}
use rusty_kimi.Flow.{FlowNode, FlowEdge, edges_of, is_begin, is_end, is_blank}
use rusty_kimi.Soul.State.{
  Settings, Llm, Services, TurnOutcome, Result, ok, err, Soul, return, next, ◌>>◌, wire_send,
}
use rusty_kimi.Soul.Marks.{Sound}
use rusty_kimi.Soul.Fit.{Failed, Post, next-Post}
use rusty_kimi.Soul.Stepping.{DistinctCalls}
use rusty_kimi.Soul.Effects.{input_message}
use rusty_kimi.Soul.Turn.{turn}
use rusty_kimi.Soul.Turns.{Within, input-user, turn-Within}
use rusty_kimi.Soul.Prompts.{FlowRunner, leads, build_flow_prompt, ask_again}
use rusty_kimi.Soul.Flows.{
  Walked, walked, stopped, panicked, out_of_fuel, after_node, first_edge, visit, walk, flow_turn,
  proceed, after_turn, ask_node, execute_flow_node, run_flow,
}

module _ {J F W : Type 0} (c : Codec J) (v : Services J F W) (set : Settings) (llm : Option Llm)
    (works : (w : W) → (v.disk w).1 ≡ true) (readable : (m : Message J) → Readable c m)
    (distinct : DistinctCalls v) where
  -- Every call is answered, and no D-mail waits.
  pub record Calm (s : Soul F W c) : Type 0 where
    pub sound : Sound c s.context
    pub no_dmail : s.denwa_renji.pending ≡ none

  -- What is known of a run: also one that ends in an error leaves every call answered, and the error
  -- is none of the context.
  abbrev pub Kept : {A : Type 0} → Soul F W c × Walked A → Type 0
  Kept (s, walked a) = Calm s
  Kept (s, stopped e) = Failed c e s
  Kept (s, panicked) = Calm s
  Kept (s, out_of_fuel) = Calm s

  Calms : TurnOutcome J → Soul F W c → Type 0
  Calms o s = Calm s

  flow_turn-Calm :
      (prompt : UserInput) (s : Soul F W c) → Calm s → Post c Calms (flow_turn c v set llm prompt s)
  unfolding flow_turn wire_send Calms
  flow_turn-Calm prompt s calm =
      let s1 : Soul F W c = record s { sent = s.sent ++ turn_begin prompt ∷ [] } in
      next-Post c (Within c v set llm works readable distinct 0 set.max_steps_per_turn) Calms
        (λ outcome. wire_send turn_end >> return outcome)
        (turn c v set llm (input_message prompt) s1)
        (turn-Within c v set llm works readable distinct (input_message prompt) s1
          (input-user c v set llm works readable distinct prompt) calm.sound calm.no_dmail)
        (λ o s2 (ready, low, high). record { sound = ready.sound; no_dmail = ready.no_dmail })

  proceed-Kept :
      (retry : ℕ → Soul F W c → Soul F W c × Walked (Option String × ℕ)) (used : ℕ)
      (way : Option (Option String)) (s : Soul F W c)
      → Calm s
      → ((used' : ℕ) (s' : Soul F W c) → Calm s' → Kept (retry used' s'))
      → Kept (proceed c v set llm retry used way s)
  proceed-Kept retry used none s h f = f used s h
  proceed-Kept retry used (some way) s h f = h

  after_turn-Kept :
      (retry : ℕ → Soul F W c → Soul F W c × Walked (Option String × ℕ)) (node : FlowNode)
      (first : FlowEdge) (edges : List FlowEdge) (used : ℕ)
      (x : Soul F W c × Result (TurnOutcome J))
      → Post c Calms x
      → ((used' : ℕ) (s : Soul F W c) → Calm s → Kept (retry used' s))
      → Kept (after_turn c v set llm retry node first edges used x)
  unfolding Calms
  after_turn-Kept retry node first edges used (s, err e) h f = h
  after_turn-Kept retry node first edges used (s, ok o) h f =
      proceed-Kept retry (used + o.step_count) (leads node first edges o) s h f

  ask_node-Kept :
      (fuel : ℕ) (node : FlowNode) (first : FlowEdge) (edges : List FlowEdge) (prompt : UserInput)
      (used : ℕ) (s : Soul F W c)
      → Calm s
      → Kept (ask_node c v set llm fuel node first edges prompt used s)
  unfolding ask_node
  ask_node-Kept zero node first edges prompt used s calm = calm
  ask_node-Kept (suc fuel) node first edges prompt used s calm =
      let again = ask_again (build_flow_prompt node (first ∷ edges)) in
      after_turn-Kept (ask_node c v set llm fuel node first edges again) node first edges used
        (flow_turn c v set llm prompt s) (flow_turn-Calm prompt s calm)
        (ask_node-Kept fuel node first edges again)

  execute-Kept :
      (fuel : ℕ) (node : FlowNode) (edges : List FlowEdge) (s : Soul F W c)
      → Calm s
      → Kept (execute_flow_node c v set llm fuel node edges s)
  unfolding execute_flow_node
  execute-Kept fuel node [] s calm = calm
  execute-Kept fuel node (first ∷ edges) s calm =
      ask_node-Kept fuel node first edges (build_flow_prompt node (first ∷ edges)).user_input 0 s
        calm

  module _ (tries : ℕ) (runner : FlowRunner) where
    after_node-Kept :
        (go : String → ℕ → ℕ → Soul F W c → Soul F W c × Walked (Unit {0})) (moves total : ℕ)
        (x : Soul F W c × Walked (Option String × ℕ))
        → Kept x
        → ((id : String) (total' : ℕ) (s : Soul F W c) → Calm s → Kept (go id (moves + 1) total' s))
        → Kept (after_node (execute_flow_node c v set llm tries) runner go moves total x)
    after_node-Kept go moves total (s, walked (none, used)) h f = h
    after_node-Kept go moves total (s, walked (some id, used)) h f = f id (total + used) s h
    after_node-Kept go moves total (s, stopped e) h f = h
    after_node-Kept go moves total (s, panicked) h f = h
    after_node-Kept go moves total (s, out_of_fuel) h f = h

    walk-Kept :
        (fuel : ℕ) (id : String) (moves total : ℕ) (s : Soul F W c)
        → Calm s
        → Kept (walk (execute_flow_node c v set llm tries) runner fuel id moves total s)
    unfolding walk visit
    walk-Kept zero id moves total s calm = calm
    walk-Kept (suc fuel) id moves total s calm = elim (Option-cases (lookup id runner.flow.nodes)) [
      | inl missing ↦ rw (missing, visit) calm
      | inr (node, found) ↦ elim (Bool-cases (is_end node.kind)) [
        | inl at_end ↦ rw (found, visit) (rw (at_end) calm)
        | inr not_end ↦ elim (Bool-cases (is_begin node.kind)) [
          | inl begins ↦ elim (Option-cases (first_edge (edges_of runner.flow.outgoing id))) [
            | inl nowhere ↦ rw (found, visit) (rw (not_end, begins, nowhere) calm)
            | inr (next, way) ↦
                rw (found, visit)
                  (rw (not_end, begins, way) (walk-Kept fuel next moves total s calm))
          ]
          | inr other ↦ elim (Bool-cases (leb runner.max_moves moves)) [
            | inl full ↦ rw (found, visit) (rw (not_end, other, full) (calm.sound, λ e. cc e))
            | inr more ↦
                rw (found, visit)
                  (rw (not_end, other, more)
                    (after_node-Kept (walk (execute_flow_node c v set llm tries) runner fuel) moves
                      total
                      (execute_flow_node c v set llm tries node (edges_of runner.flow.outgoing id)
                        s)
                      (execute-Kept tries node (edges_of runner.flow.outgoing id) s calm)
                      (λ id' total' s' calm'. walk-Kept fuel id' (moves + 1) total' s' calm')))
          ]
        ]
      ]
    ]

  -- For a disk that works, a log that reads every message back as it was written, a model none of
  -- whose answers has two calls of the same id, and a soul whose log says what is in memory, with
  -- every tool call answered now and at each checkpoint, and no D-mail waiting: a run of any flow
  -- leaves the log and the calls so, however the run ends (at its end, in an error of a turn, by its
  -- moves, by a node that is missing, or with its fuel), and its error is none of the context.
  pub run_flow-Kept :
      (fuel tries : ℕ) (runner : FlowRunner) (args : Text) (s : Soul F W c)
      → Calm s
      → Kept (run_flow c v set llm fuel tries runner args s)
  unfolding run_flow
  run_flow-Kept fuel tries runner args s calm = elim (Bool-cases (is_blank (trim args))) [
    | inl blank ↦ rw (blank) (walk-Kept tries runner fuel runner.flow.begin_id 0 0 s calm)
    | inr ignored ↦ rw (ignored) calm
  ]
