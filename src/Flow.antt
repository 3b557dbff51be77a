-- ===== src/Flow.antt =====
-- server/dvadva-agent/src/skill/flow/mod.rs: flow charts, and the checks on one before it is run.
-- A text that is trimmed or joined is its list of characters, an id is a `String`. The hash maps
-- are walked in the order of their lists, which decides which of several errors is reported.
pub mod Search
pub mod Labels
pub mod Validity
pub mod Decisions
use rusty_kimi.Common.{
  ℕ, zero, suc, ◌+◌, String, Bool, true, false, not, List, [], ◌∷◌, ◌++◌, map, Option, none, some,
  length, select, ◌==◌, leb, ltb, if◌then◌else◌,
}
use rusty_kimi.Common.Eq.{string_eq, text_eq, nat_eq, ◌=?◌, elem}
use rusty_kimi.Common.Dict.{Dict, lookup}
use rusty_kimi.Common.Chars.{trim}
use rusty_kimi.Message.{Text, ContentPart, texts, join}

pub data FlowNodeKind : Type 0 where
  begin end task decision : FlowNodeKind

pub data FlowLabel : Type 0 where
  plain : Text → FlowLabel
  parts : List ContentPart → FlowLabel

pub record FlowNode : Type 0 where
  pub id : String
  pub label : FlowLabel
  pub kind : FlowNodeKind

pub record FlowEdge : Type 0 where
  pub src : String
  pub dst : String
  pub label : Option Text

pub record Flow : Type 0 where
  pub nodes : Dict String FlowNode
  pub outgoing : Dict String (List FlowEdge)
  pub begin_id : String
  pub end_id : String

unfoldable pub label_as_string : FlowLabel → Text
unfolding texts join
label_as_string (plain t) = t
label_as_string (parts ps) = join (32 ∷ []) (texts ps)

pub data FlowValidationError : Type 0 where
  begin_count end_count : (found : ℕ) → FlowValidationError
  unlabeled_edge duplicate_labels : (node : String) → FlowValidationError
  end_unreachable : FlowValidationError

-- `out_of_fuel` is no result of the code: the search is shown to end before.
pub data Validated : Type 0 where
  valid : (begin_id end_id : String) → Validated
  invalid : FlowValidationError → Validated
  out_of_fuel : Validated

abbrev pub is_begin : FlowNodeKind → Bool
is_begin begin = true
is_begin _ = false

abbrev pub is_end : FlowNodeKind → Bool
is_end end = true
is_end _ = false

abbrev pub values {ℓ κ} : {K : Type ℓ} {V : Type κ} → Dict K V → List V
values [] = []
values ((k, v) ∷ m) = v ∷ values m

-- The ids of the nodes that pass a test on their kind.
unfoldable pub ids_of : (FlowNodeKind → Bool) → List FlowNode → List String
ids_of test [] = []
ids_of test (n ∷ ns) = if test n.kind then n.id ∷ ids_of test ns else ids_of test ns

module _ (outgoing : Dict String (List FlowEdge)) where
  abbrev pub or_empty : Option (List FlowEdge) → List FlowEdge
  or_empty none = []
  or_empty (some es) = es

  unfoldable pub edges_of : String → List FlowEdge
  unfolding lookup
  edges_of id = or_empty (lookup id outgoing)

  -- The queue's last element stands first here. `reachable` holds each id once.
  unfoldable pub push_edges : List FlowEdge → List String → List String → List String
  unfolding elem
  push_edges [] reachable queue = queue
  push_edges (e ∷ es) reachable queue =
      push_edges es reachable (if elem e.dst reachable then queue else e.dst ∷ queue)

  -- The `while` loop; `none`: the fuel ran out.
  unfoldable pub search_from : ℕ → List String → List String → Option (List String)
  unfolding push_edges edges_of
  search_from zero reachable queue = none
  search_from (suc fuel) reachable [] = some reachable
  search_from (suc fuel) reachable (id ∷ queue) =
      let skipped = search_from fuel reachable queue in
      let visited =
        search_from fuel (id ∷ reachable) (push_edges (edges_of id) (id ∷ reachable) queue) in
      if elem id reachable then skipped else visited

unfoldable pub edge_count : Dict String (List FlowEdge) → ℕ
edge_count [] = 0
edge_count ((k, es) ∷ m) = length es + edge_count m

-- Fuel for each edge, for the begin node and for the last look at the queue.
unfoldable pub reachable_from : Dict String (List FlowEdge) → String → Option (List String)
unfolding search_from edge_count
reachable_from outgoing begin_id = search_from outgoing (edge_count outgoing + 2) [] (begin_id ∷ [])

-- A label as it is compared: trimmed, and empty if there is none.
unfoldable pub label_text : Option Text → Text
label_text none = []
label_text (some t) = trim t

abbrev pub is_blank : Text → Bool
is_blank [] = true
is_blank (_ ∷ _) = false

-- The labels of a node's edges; `none`: an edge has none.
unfoldable pub labels_of : List FlowEdge → Option (List Text)
unfolding label_text
labels_of [] = some []
labels_of (e ∷ es) =
    if is_blank (label_text e.label)
    then none
    else elim (labels_of es) [ none ↦ none | some ls ↦ some (label_text e.label ∷ ls) ]

-- The `HashSet` of the labels.
unfoldable pub unique : List Text → List Text
unfolding elem
unique [] = []
unique (l ∷ ls) = let rest = unique ls in if elem l rest then rest else l ∷ rest

unfoldable pub check_labels : String → Option (List Text) → Option FlowValidationError
unfolding unique
check_labels id none = some (unlabeled_edge id)
check_labels id (some ls) =
    if length (unique ls) == length ls then none else some (duplicate_labels id)

unfoldable pub check_edges : String → List FlowEdge → Option FlowValidationError
unfolding labels_of check_labels
check_edges id es = if leb (length es) 1 then none else check_labels id (labels_of es)

unfoldable pub check_nodes :
    Dict String (List FlowEdge) → List String → List FlowNode → Option FlowValidationError
unfolding check_edges elem edges_of
check_nodes outgoing reachable [] = none
check_nodes outgoing reachable (n ∷ ns) =
    let rest = check_nodes outgoing reachable ns in
    if elem n.id reachable
    then elim (check_edges n.id (edges_of outgoing n.id)) [ none ↦ rest | some err ↦ some err ]
    else rest

unfoldable pub check_search :
    Dict String FlowNode
    → Dict String (List FlowEdge)
    → String
    → String
    → Option (List String)
    → Validated
unfolding check_nodes elem
check_search nodes outgoing b e none = out_of_fuel
check_search nodes outgoing b e (some reachable) =
    elim (check_nodes outgoing reachable (values nodes)) [
      | some err ↦ invalid err
      | none ↦ if elem e reachable then valid b e else invalid end_unreachable
    ]

unfoldable pub check_ends :
    Dict String FlowNode → Dict String (List FlowEdge) → String → List String → Validated
unfolding check_search reachable_from
check_ends nodes outgoing b (e ∷ []) = check_search nodes outgoing b e (reachable_from outgoing b)
check_ends nodes outgoing b [] = invalid (end_count 0)
check_ends nodes outgoing b (e ∷ e' ∷ es) = invalid (end_count (length es + 2))

unfoldable pub check_begins :
    Dict String FlowNode → Dict String (List FlowEdge) → List String → List String → Validated
unfolding check_ends
check_begins nodes outgoing (b ∷ []) ends = check_ends nodes outgoing b ends
check_begins nodes outgoing [] ends = invalid (begin_count 0)
check_begins nodes outgoing (b ∷ b' ∷ bs) ends = invalid (begin_count (length bs + 2))

unfoldable pub validate_flow : Dict String FlowNode → Dict String (List FlowEdge) → Validated
unfolding check_begins ids_of
validate_flow nodes outgoing =
    check_begins nodes outgoing (ids_of is_begin (values nodes)) (ids_of is_end (values nodes))

-- skill/flow/mermaid.rs, `infer_decision_nodes`: a task with two ways on is a decision.
abbrev pub decided : FlowNodeKind → ℕ → FlowNodeKind
decided task n = if ltb 1 n then decision else task
decided begin n = begin
decided end n = end
decided decision n = decision

unfoldable pub infer_decision_nodes :
    Dict String FlowNode → Dict String (List FlowEdge) → Dict String FlowNode
unfolding edges_of
infer_decision_nodes [] outgoing = []
infer_decision_nodes ((id, n) ∷ ns) outgoing =
    (id, record n { kind = decided n.kind (length (edges_of outgoing id)) })
    ∷ infer_decision_nodes ns outgoing
