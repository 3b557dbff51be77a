-- ===== src/Soul/Walks.antt =====
-- How a flow's run ends: its moves are bounded, between two of them there is at most one begin node,
-- and only at a decision node can it be asked without end.
use rusty_kimi.Common.{
  ℕ, zero, suc, ◌+◌, ◌-◌, ◌*◌, ◌≤◌, ◌<◌, ◌≡◌, ◌≢◌, ◌⊎◌, refl, String, true, false, List, Option,
  none, some, arith, leb, Bool-cases, Option-cases, inl, inr,
}
use rusty_kimi.Common.Dict.{lookup}
use rusty_kimi.Common.Eq.{string_eq}
use rusty_kimi.Flow.{FlowNode, FlowEdge, Flow, edges_of, is_begin, is_end}
use rusty_kimi.Soul.Prompts.{FlowRunner}
use rusty_kimi.Soul.Flows.{
  Walked, walked, stopped, panicked, out_of_fuel, first_edge, after_node, visit, walk,
}

-- The first way on from a begin node does not lead to a begin node.
abbrev pub BeginsOnce : Flow → Type 0
BeginsOnce flow =
    (id next : String) (node node' : FlowNode)
    → lookup id flow.nodes ≡ some node
    → is_begin node.kind ≡ true
    → first_edge (edges_of flow.outgoing id) ≡ some next
    → lookup next flow.nodes ≡ some node'
    → is_begin node'.kind ≡ false

module _ {S : Type 0} (execute : FlowNode → List FlowEdge → S → S × Walked (Option String × ℕ))
    (runner : FlowRunner) (s0 : S) where
  -- The nodes that a run from `s0` comes to, after how many moves and in which state.
  pub data Visits : String → ℕ → S → Type 0 where
    starts : Visits runner.flow.begin_id 0 s0
    begins :
        {id next : String} {moves : ℕ} {s : S} {node : FlowNode}
        → Visits id moves s
        → lookup id runner.flow.nodes ≡ some node
        → is_begin node.kind ≡ true
        → first_edge (edges_of runner.flow.outgoing id) ≡ some next
        → Visits next moves s
    moves_on :
        {id next : String} {moves used : ℕ} {s s' : S} {node : FlowNode}
        → Visits id moves s
        → lookup id runner.flow.nodes ≡ some node
        → is_end node.kind ≡ false
        → is_begin node.kind ≡ false
        → moves < runner.max_moves
        → execute node (edges_of runner.flow.outgoing id) s ≡ (s', walked (some next, used))
        → Visits next (moves + 1) s'

  -- A node that the run came to, with moves left, and whose execution did not end.
  pub record StuckAt (x : S × Walked (Unit {0})) : Type 0 where
    pub id : String
    pub node : FlowNode
    pub moves : ℕ
    pub state : S
    pub visited : Visits id moves state
    pub left : moves < runner.max_moves
    pub found : lookup id runner.flow.nodes ≡ some node
    pub ran : execute node (edges_of runner.flow.outgoing id) state ≡ (x.0, out_of_fuel)

  abbrev pub EndsOrStuck : S × Walked (Unit {0}) → Type 0
  EndsOrStuck x = (x.1 ≢ out_of_fuel) ⊎ StuckAt x

  after_node-ends :
      (go : String → ℕ → ℕ → S → S × Walked (Unit {0})) (moves total : ℕ)
      (x : S × Walked (Option String × ℕ))
      → ((s : S) → x ≡ (s, out_of_fuel) → StuckAt (s, out_of_fuel))
      → ((id : String) (used : ℕ) (s : S)
          → x ≡ (s, walked (some id, used))
          → EndsOrStuck (go id (moves + 1) (total + used) s))
      → EndsOrStuck (after_node execute runner go moves total x)
  after_node-ends go moves total (s, walked (none, used)) h f = inl (λ e. cc e)
  after_node-ends go moves total (s, walked (some id, used)) h f = f id used s refl
  after_node-ends go moves total (s, stopped e) h f = inl (λ e. cc e)
  after_node-ends go moves total (s, panicked) h f = inl (λ e. cc e)
  after_node-ends go moves total (s, out_of_fuel) h f = inr (h s refl)

  module _ (once : BeginsOnce runner.flow) where
    walk_from-ends :
        (fuel : ℕ) (id : String) (moves total : ℕ) (s : S)
        → 2 * (runner.max_moves - moves) + 1 ≤ fuel
        → ((node : FlowNode)
            → lookup id runner.flow.nodes ≡ some node
            → is_begin node.kind ≡ true
            → 2 * (runner.max_moves - moves) + 2 ≤ fuel)
        → Visits id moves s
        → EndsOrStuck (walk execute runner fuel id moves total s)
    unfolding walk visit
    walk_from-ends zero id moves total s room extra v = omega (arith, room)
    walk_from-ends (suc fuel) id moves total s room extra v =
        elim (Option-cases (lookup id runner.flow.nodes)) [
          | inl missing ↦ rw (missing, visit) (inl (λ e. cc e))
          | inr (node, found) ↦ elim (Bool-cases (is_end node.kind)) [
            | inl at_end ↦ rw (found, visit) (rw (at_end) (inl (λ e. cc e)))
            | inr not_end ↦ elim (Bool-cases (is_begin node.kind)) [
              | inl at_begin ↦ elim (Option-cases (first_edge (edges_of runner.flow.outgoing id))) [
                | inl nowhere ↦
                    rw (found, visit) (rw (not_end, at_begin, nowhere) (inl (λ e. cc e)))
                | inr (next, way) ↦
                    let more = extra node found at_begin in
                    rw (found, visit)
                      (rw (not_end, at_begin, way)
                        (walk_from-ends fuel next moves total s (omega (arith, more))
                          (λ node' there begins'.
                            absurd (cc (once id next node node' found at_begin way there, begins')))
                          (begins v found at_begin way)))
              ]
              | inr other ↦ elim (Bool-cases (leb runner.max_moves moves)) [
                | inl full ↦ rw (found, visit) (rw (not_end, other, full) (inl (λ e. cc e)))
                | inr room' ↦
                    let rounds : 2 * (runner.max_moves - (moves + 1)) + 2 ≤ fuel =
                      ground (arith, room, room') in
                    rw (found, visit)
                      (rw (not_end, other, room')
                        (after_node-ends (walk execute runner fuel) moves total
                          (execute node (edges_of runner.flow.outgoing id) s)
                          (λ s' ran. record {
                            id = id;
                            node = node;
                            moves = moves;
                            state = s;
                            visited = v;
                            left = ground (arith, room');
                            found = found;
                            ran = ran;
                          })
                          (λ id' used s' ran.
                            walk_from-ends fuel id' (moves + 1) (total + used) s'
                              (omega (arith, rounds)) (λ node' there begins'. rounds)
                              (moves_on v found not_end other (ground (arith, room')) ran))))
              ]
            ]
          ]
        ]

    pub walk-ends :
        EndsOrStuck (walk execute runner (2 * runner.max_moves + 2) runner.flow.begin_id 0 0 s0)
    walk-ends =
        walk_from-ends (2 * runner.max_moves + 2) runner.flow.begin_id 0 0 s0 (omega arith)
          (λ node found at_begin. omega arith) starts
