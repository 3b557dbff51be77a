-- ===== src/Flow/Labels.antt =====
-- Which nodes' edges pass: at most one edge, or labels that tell all of them apart.
use rusty_kimi.Common.{
  suc, ◌≤◌, ◌≡◌, ◌⊎◌, ◌↔◌, refl, sym, ◌∙◌, ap, String, Bool, true, false, List, [], ◌∷◌, none, some,
  arith, length, All, Bool-cases, Option-cases, inl, inr, if◌then◌else◌, leb, ==_iff,
}
use rusty_kimi.Common.Eq.{string_eq, text_eq, elem}
use rusty_kimi.Common.Dict.{Dict}
use rusty_kimi.Message.{Text}
use rusty_kimi.Flow.{
  FlowNode, FlowEdge, label_text, is_blank, labels_of, unique, check_labels, check_edges,
  check_nodes, edges_of,
}

-- No label stands twice.
abbrev pub AllDistinct : List Text → Type 0
AllDistinct [] = Unit
AllDistinct (l ∷ ls) = (elem l ls ≡ false) × AllDistinct ls

elem-unique : (x : Text) (ls : List Text) → elem x (unique ls) ≡ elem x ls
unfolding elem unique
elem-unique x [] = refl
elem-unique x (l ∷ ls) = elim (Bool-cases (elem l (unique ls))) [
  | inl old ↦ rw (old) (ground (arith, elem-unique x ls, elem-unique l ls, text_eq.beq_iff l x))
  | inr new ↦ rw (new) (ground (arith, elem-unique x ls))
]

length-unique-le : (ls : List Text) → length (unique ls) ≤ length ls
unfolding unique
length-unique-le [] = omega arith
length-unique-le (l ∷ ls) = ground (arith, length-unique-le ls)

-- The set is as large as the list just when no label stands twice.
length-unique : (ls : List Text) → (length (unique ls) ≡ length ls) ↔ AllDistinct ls
unfolding unique
length-unique [] = (λ h. tt, λ h. refl)
length-unique (l ∷ ls) = elim (Bool-cases (elem l (unique ls))) [
  | inl old ↦
      rw (old)
        (λ h. absurd (omega (arith, length-unique-le ls)), λ d. cc (old, elem-unique l ls, d.0))
  | inr new ↦ rw (new) (
    λ h. (sym (elem-unique l ls) ∙ new, (length-unique ls).0 (omega arith)),
    λ d. ap suc ((length-unique ls).1 d.1),
  )
]

abbrev pub has_label : FlowEdge → Bool
has_label e = if is_blank (label_text e.label) then false else true

abbrev pub trimmed : List FlowEdge → List Text
trimmed [] = []
trimmed (e ∷ es) = label_text e.label ∷ trimmed es

-- Every edge has a label.
abbrev pub Labeled : List FlowEdge → Type 0
Labeled es = All (λ e. is_blank (label_text e.label) ≡ false) es

labels_of-cases :
    (es : List FlowEdge)
    → ((labels_of es ≡ some (trimmed es)) × Labeled es) ⊎ ((labels_of es ≡ none) × (Labeled es → ⊥))
unfolding labels_of
labels_of-cases [] = inl (refl, tt)
labels_of-cases (e ∷ es) = elim (Bool-cases (is_blank (label_text e.label))) [
  | inl blank ↦ inr (rw (blank) refl, λ h. cc (blank, h.0))
  | inr shown ↦ elim (labels_of-cases es) [
    | inl (found, all) ↦ inl (rw (shown) (rw (found) refl), (shown, all))
    | inr (missing, some_not) ↦ inr (rw (shown) (rw (missing) refl), λ h. some_not h.1)
  ]
]

-- At most one edge, or every edge has a label and no two the same.
abbrev pub Tells : List FlowEdge → Type 0
Tells es = (length es ≤ 1) ⊎ (Labeled es × AllDistinct (trimmed es))

length-trimmed : (es : List FlowEdge) → length (trimmed es) ≡ length es
length-trimmed [] = refl
length-trimmed (e ∷ es) = ap suc (length-trimmed es)

check_labels-none :
    (id : String) (ls : List Text) → (check_labels id (some ls) ≡ none) ↔ AllDistinct ls
unfolding check_labels
check_labels-none id ls = ground (arith, length-unique ls, ==_iff (length (unique ls)) (length ls))

pub check_edges-Tells : (id : String) (es : List FlowEdge) → (check_edges id es ≡ none) ↔ Tells es
unfolding check_edges
check_edges-Tells id es = elim (Bool-cases (leb (length es) 1)) [
  | inl few ↦ rw (few) (λ h. inl (ground (arith, few)), λ h. refl)
  | inr many ↦
      let not_few : length es ≤ 1 → ⊥ = λ le. ground (arith, many, le) in
      rw (many) (elim (labels_of-cases es) [
        | inl (found, all) ↦ rw (found) (
          λ h. inr (all, (check_labels-none id (trimmed es)).0 h),
          λ t. elim t [
            | inl le ↦ absurd (not_few le)
            | inr (_, distinct) ↦ (check_labels-none id (trimmed es)).1 distinct
          ],
        )
        | inr (missing, some_not) ↦ rw (missing) (
          λ h. unfold check_labels in cc h,
          λ t. elim t [ inl le ↦ absurd (not_few le) | inr (all, _) ↦ absurd (some_not all) ],
        )
      ])
]

module _ (outgoing : Dict String (List FlowEdge)) (reachable : List String) where
  -- The nodes found pass.
  abbrev pub AllTell : List FlowNode → Type 0
  AllTell ns = All (λ n. elem n.id reachable ≡ true → Tells (edges_of outgoing n.id)) ns

  pub check_nodes-AllTell :
      (ns : List FlowNode) → (check_nodes outgoing reachable ns ≡ none) ↔ AllTell ns
  unfolding check_nodes
  check_nodes-AllTell [] = (λ h. tt, λ h. refl)
  check_nodes-AllTell (n ∷ ns) = elim (Bool-cases (elem n.id reachable)) [
    | inr out ↦
        rw (out)
          (λ h. (λ e. cc e, (check_nodes-AllTell ns).0 h), λ a. (check_nodes-AllTell ns).1 a.1)
    | inl found ↦ rw (found) (elim (Option-cases (check_edges n.id (edges_of outgoing n.id))) [
      | inl passed ↦ rw (passed) (
        λ h. (
          λ e. (check_edges-Tells n.id (edges_of outgoing n.id)).0 passed,
          (check_nodes-AllTell ns).0 h,
        ),
        λ a. (check_nodes-AllTell ns).1 a.1,
      )
      | inr (err, failed) ↦ rw (failed) (
        λ h. cc h,
        λ a. cc (failed, (check_edges-Tells n.id (edges_of outgoing n.id)).1 (a.0 refl)),
      )
    ])
  ]
