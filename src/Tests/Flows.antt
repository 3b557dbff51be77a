-- ===== src/Tests/Flows.antt =====
-- A loop between a task and a decision, and flows that are refused.
use rusty_kimi.Common.{◌≡◌, ◌≢◌, ◌↔◌, refl, String, List, [], ◌∷◌, Option, none, some}
use rusty_kimi.Common.Eq.{string_eq, text_eq, elem}
use rusty_kimi.Common.Dict.{Dict, lookup}
use rusty_kimi.Common.Chars.{codes, trim}
use rusty_kimi.Flow.{
  FlowNodeKind, begin, end, task, plain, FlowNode, FlowEdge, valid, invalid, out_of_fuel,
  unlabeled_edge, duplicate_labels, end_unreachable, end_count, validate_flow,
}
use rusty_kimi.Flow.Validity.{IsFlow, validate_flow-IsFlow, validate_flow-ne-out_of_fuel}

abbrev node : String → FlowNodeKind → String × FlowNode
node id kind = (id, record { id = id; label = plain (codes id); kind = kind })

abbrev edge : String → String → Option String → FlowEdge
edge src dst none = record { src = src; dst = dst; label = none }
edge src dst (some l) = record { src = src; dst = dst; label = some (codes l) }

abbrev reviewing : Dict String FlowNode
reviewing = node "B" begin ∷ node "write" task ∷ node "ok" task ∷ node "E" end ∷ []

abbrev ways : Option String → Option String → Dict String (List FlowEdge)
ways again done =
    ("B", edge "B" "write" none ∷ [])
    ∷ ("write", edge "write" "ok" none ∷ [])
    ∷ ("ok", edge "ok" "write" again ∷ edge "ok" "E" done ∷ [])
    ∷ []

accepted : validate_flow reviewing (ways (some "no") (some "yes")) ≡ valid "B" "E"
unfolding validate_flow elem lookup text_eq trim
accepted = refl

twice_no :
    validate_flow reviewing (ways (some "no") (some " no ")) ≡ invalid (duplicate_labels "ok")
unfolding validate_flow elem lookup text_eq trim
twice_no = refl

no_label : validate_flow reviewing (ways (some "no") (some "  ")) ≡ invalid (unlabeled_edge "ok")
unfolding validate_flow elem lookup text_eq trim
no_label = refl

cut_off : validate_flow reviewing (("B", edge "B" "write" none ∷ []) ∷ []) ≡ invalid end_unreachable
unfolding validate_flow elem lookup text_eq trim
cut_off = refl

no_end : validate_flow (node "B" begin ∷ []) [] ≡ invalid (end_count 0)
unfolding validate_flow
no_end = refl

validate_flow-IsFlow_example :
    (validate_flow reviewing (ways (some "no") (some "yes")) ≡ valid "B" "E")
    ↔ IsFlow reviewing (ways (some "no") (some "yes")) "B" "E"
validate_flow-IsFlow_example =
    validate_flow-IsFlow reviewing (ways (some "no") (some "yes")) "B" "E"

validate_flow-ne-out_of_fuel_example :
    validate_flow reviewing (ways (some "no") (some "yes")) ≢ out_of_fuel
validate_flow-ne-out_of_fuel_example =
    validate_flow-ne-out_of_fuel reviewing (ways (some "no") (some "yes"))
