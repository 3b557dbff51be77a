-- ===== src/Soul/Prompts.antt =====
-- server/dvadva-agent/src/soul/kimisoul.rs: what a flow asks of the agent and what an answer chooses
-- (`FlowRunner`), and `parse_choice` of server/dvadva-agent/src/skill/flow/mod.rs.
use rusty_kimi.Common.{
  ℕ, ◌+◌, String, Bool, true, false, List, [], ◌∷◌, ◌++◌, Option, none, some, ◌==◌, if◌then◌else◌,
}
use rusty_kimi.Common.Int.{ℤ, pos, negsuc}
use rusty_kimi.Common.Chars.{codes, trim}
use rusty_kimi.Common.Dict.{Dict}
use rusty_kimi.Common.Eq.{string_eq, text_eq, ◌=?◌}
use rusty_kimi.Message.{Text, Message, ContentPart, extract_text, join}
use rusty_kimi.Wire.{UserInput, plain, parts}
use rusty_kimi.Flow.{
  FlowNodeKind, begin, end, task, decision, FlowLabel, plain as plain_label, parts as parts_label,
  FlowNode, FlowEdge, Flow, label_as_string,
}
use rusty_kimi.Soul.State.{StopReason, tool_rejected, no_tool_calls, TurnOutcome}

-- `strip_prefix`.
unfoldable pub after_prefix : Text → Text → Option Text
after_prefix [] t = some t
after_prefix (p ∷ ps) [] = none
after_prefix (p ∷ ps) (c ∷ cs) = if p == c then after_prefix ps cs else none

-- `[^<]*`, and what comes after.
unfoldable pub until_bracket : Text → Text × Text
until_bracket [] = ([], [])
until_bracket (c ∷ cs) =
    let (front, back) = until_bracket cs in if c == 60 then ([], c ∷ cs) else (c ∷ front, back)

-- `([^<]*)</choice>`, trimmed.
unfoldable pub closed_choice : Text × Text → Option Text
unfolding after_prefix
closed_choice (captured, back) = elim (after_prefix (codes "</choice>") back) [
  | none ↦ none
  | some _ ↦ some (trim captured)
]

-- What `<choice>([^<]*)</choice>` captures where the text begins with it.
unfoldable pub choice_at : Text → Option Text
unfolding closed_choice after_prefix until_bracket
choice_at t = elim (after_prefix (codes "<choice>") t) [
  | none ↦ none
  | some rest ↦ closed_choice (until_bracket rest)
]

-- The last match; no two overlap.
unfoldable pub parse_choice : Text → Option Text
unfolding choice_at
parse_choice [] = none
parse_choice (c ∷ cs) = elim (parse_choice cs) [
  | some choice ↦ some choice
  | none ↦ choice_at (c ∷ cs)
]

pub record FlowPrompt : Type 0 where
  pub user_input : UserInput
  pub text : Text

pub record FlowRunner : Type 0 where
  pub flow : Flow
  pub max_moves : ℕ

abbrev pub is_decision : FlowNodeKind → Bool
is_decision decision = true
is_decision _ = false

-- "- {choice}", for each edge with a label.
unfoldable pub choice_lines : List FlowEdge → List Text
choice_lines [] = []
choice_lines (e ∷ es) = elim e.label [
  | none ↦ choice_lines es
  | some l ↦ (45 ∷ 32 ∷ l) ∷ choice_lines es
]

unfoldable pub decision_text : FlowLabel → List FlowEdge → Text
unfolding choice_lines label_as_string join
decision_text label edges = join (10 ∷ []) (
    label_as_string label
    ∷ []
    ∷ codes "Available branches:"
    ∷ (choice_lines edges ++ [] ∷ codes "Reply with a choice using <choice>...</choice>." ∷ []))

unfoldable pub task_prompt : FlowLabel → FlowPrompt
unfolding label_as_string
task_prompt (parts_label ps) = record {
  user_input = parts ps;
  text = label_as_string (parts_label ps);
}
task_prompt (plain_label t) = record { user_input = plain t; text = t }

unfoldable pub build_flow_prompt : FlowNode → List FlowEdge → FlowPrompt
unfolding decision_text task_prompt
build_flow_prompt node edges =
    let t = decision_text node.label edges in
    if is_decision node.kind
    then record { user_input = plain t; text = t }
    else task_prompt node.label

-- The prompt after a reply without a valid choice.
unfoldable pub ask_again : FlowPrompt → UserInput
ask_again p = plain (
    p.text
    ++ (10
        ∷ 10
        ∷ codes
            "Your last response did not include a valid choice. Reply with one of the choices using <choice>...</choice>."))

-- The first edge with the label.
unfoldable pub edge_to : Text → List FlowEdge → Option String
unfolding text_eq
edge_to choice [] = none
edge_to choice (e ∷ es) = elim e.label [
  | none ↦ edge_to choice es
  | some l ↦ if l =? choice then some e.dst else edge_to choice es
]

-- Where an answer leads: nowhere on (`some none`), to a node, or `none`: it has to be asked again.
unfoldable pub chosen : Option Text → List FlowEdge → Option (Option String)
unfolding edge_to
chosen none edges = none
chosen (some choice) edges = elim (edge_to choice edges) [ none ↦ none | some id ↦ some (some id) ]

abbrev pub choice_of : {J : Type 0} → Option (Message J) → Option Text
choice_of none = none
choice_of (some m) = parse_choice (extract_text m (32 ∷ []))

abbrev pub is_rejected : StopReason → Bool
is_rejected tool_rejected = true
is_rejected no_tool_calls = false

unfoldable pub leads :
    {J : Type 0} → FlowNode → FlowEdge → List FlowEdge → TurnOutcome J → Option (Option String)
unfolding chosen parse_choice extract_text
leads node first edges outcome =
    if is_rejected outcome.stop_reason
    then some none
    else if is_decision node.kind
    then chosen (choice_of outcome.final_message) (first ∷ edges)
    else some (some first.dst)

unfoldable pub ralph_edges : Dict String (List FlowEdge)
ralph_edges =
    ("BEGIN", record { src = "BEGIN"; dst = "R1"; label = none } ∷ [])
    ∷ ("R1", record { src = "R1"; dst = "R2"; label = none } ∷ [])
    ∷ (
      "R2",
      record { src = "R2"; dst = "R2"; label = some (codes "CONTINUE") }
          ∷ record { src = "R2"; dst = "END"; label = some (codes "STOP") }
          ∷ [],
    )
    ∷ ("END", [])
    ∷ []

unfoldable pub ralph_nodes : List ContentPart → Text → Dict String FlowNode
ralph_nodes content prompt =
    ("BEGIN", record { id = "BEGIN"; label = plain_label (codes "BEGIN"); kind = begin })
    ∷ ("END", record { id = "END"; label = plain_label (codes "END"); kind = end })
    ∷ ("R1", record { id = "R1"; label = parts_label content; kind = task })
    ∷ (
      "R2",
      record {
        id = "R2";
        label = plain_label (
            prompt
            ++ codes
                ". (You are running in an automated loop where the same prompt is fed repeatedly. Only choose STOP when the task is fully complete. Including it will stop further iterations. If you are not 100% sure, choose CONTINUE.)");
        kind = decision;
      },
    )
    ∷ []

unfoldable pub total_runs : ℤ → ℕ
total_runs (pos n) = n + 1
total_runs (negsuc n) = 1000000000000000

unfoldable pub ralph_loop : {J : Type 0} → Message J → ℤ → FlowRunner
unfolding ralph_nodes ralph_edges total_runs trim extract_text
ralph_loop m max_ralph_iterations = record {
  flow = record {
    nodes = ralph_nodes m.content (trim (extract_text m (32 ∷ [])));
    outgoing = ralph_edges;
    begin_id = "BEGIN";
    end_id = "END";
  };
  max_moves = total_runs max_ralph_iterations;
}
