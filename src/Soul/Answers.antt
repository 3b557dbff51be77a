-- ===== src/Soul/Answers.antt =====
-- Conversations in which each tool call is answered: after a message with calls, the tools' messages
-- answer them in order, and nothing stands between.
use rusty_kimi.Common.{
  ◌≡◌, refl, sym, ◌∙◌, ap, subst, String, true, false, List, [], ◌∷◌, ◌++◌, map, Option, none, some,
  arith, if◌then◌else◌, Option-cases, inl, inr, All, is_some, ◌>>=◌,
}
use rusty_kimi.Common.Eq.{string_eq, ◌=?◌, =?_self, elem}
use rusty_kimi.Common.Dict.{Dict, lookup, insert, remove, lookup-insert, lookup-remove}
use rusty_kimi.Message.{Message, Role, system, user, assistant, tool, ToolCall}
use rusty_kimi.Tooling.{ToolReturnValue}
use rusty_kimi.Compaction.{speaks}
use rusty_kimi.Generate.Content.{calls_of}
use rusty_kimi.Soul.Steps.{ToolResult, dispatch, received, tool_results}
use rusty_kimi.Soul.Results.{tool_result_to_message}

-- No id stands twice.
abbrev pub Distinct : List String → Type 0
Distinct [] = Unit
Distinct (i ∷ ids) = (elem i ids ≡ false) × Distinct ids

module _ {J : Type 0} where
  abbrev pub call_ids : List (ToolCall J) → List String
  call_ids = map (λ call. call.id)

  -- The calls that wait for an answer after a message; `none`: it does not belong there.
  unfoldable pub expects :
      List String → Role → Option String → List (ToolCall J) → Option (List String)
  expects [] system answered calls = some []
  expects [] user answered calls = some []
  expects [] assistant answered calls = some (call_ids calls)
  expects (i ∷ ids) tool (some j) calls = if i =? j then some ids else none
  expects _ _ _ _ = none

  unfoldable pub wanted : List String → List (Message J) → Option (List String)
  unfolding expects calls_of
  wanted ids [] = some ids
  wanted ids (m ∷ ms) =
      expects ids m.role m.tool_call_id (calls_of m.tool_calls) >>= λ ids'. wanted ids' ms

  abbrev pub Answered : List (Message J) → Type 0
  Answered ms = wanted [] ms ≡ some []

  pub wanted-append :
      (ids : List String) (xs ys : List (Message J))
      → wanted ids (xs ++ ys) ≡ (wanted ids xs >>= λ ids'. wanted ids' ys)
  unfolding wanted
  wanted-append ids [] ys = refl
  wanted-append ids (m ∷ xs) ys =
      elim (Option-cases (expects ids m.role m.tool_call_id (calls_of m.tool_calls))) [
        | inl e ↦ rw (e)
        | inr (ids', e) ↦ rw (e) (wanted-append ids' xs ys)
      ]

  pub append-Answered : (xs ys : List (Message J)) → Answered xs → Answered ys → Answered (xs ++ ys)
  append-Answered xs ys h g = rw (wanted-append [] xs ys, h) g

  -- Users and the assistant speak only when nothing waits.
  expects-speaks :
      (ids : List String) (role : Role) (answered : Option String) (calls : List (ToolCall J))
      (out : List String)
      → speaks role ≡ true
      → expects ids role answered calls ≡ some out
      → ids ≡ []
  unfolding speaks expects
  expects-speaks [] role answered calls out s h = refl
  expects-speaks (i ∷ ids) user answered calls out s h = cc h
  expects-speaks (i ∷ ids) assistant answered calls out s h = cc h
  expects-speaks (i ∷ ids) system answered calls out s h = cc s
  expects-speaks (i ∷ ids) tool answered calls out s h = cc s

  -- From where a user or the assistant speaks, the conversation is whole by itself.
  pub suffix-Answered :
      (ids : List String) (xs : List (Message J)) (m : Message J) (ys : List (Message J))
      → speaks m.role ≡ true
      → wanted ids (xs ++ m ∷ ys) ≡ some []
      → Answered (m ∷ ys)
  unfolding wanted
  suffix-Answered ids [] m ys s h =
      elim (Option-cases (expects ids m.role m.tool_call_id (calls_of m.tool_calls))) [
        | inl e ↦ absurd (cc (e, h))
        | inr (out, e) ↦
            let nothing =
              expects-speaks ids m.role m.tool_call_id (calls_of m.tool_calls) out s e in
            subst (λ i. wanted i (m ∷ ys) ≡ some []) nothing h
      ]
  suffix-Answered ids (x ∷ xs) m ys s h =
      elim (Option-cases (expects ids x.role x.tool_call_id (calls_of x.tool_calls))) [
        | inl e ↦ absurd (cc (e, h))
        | inr (ids', e) ↦
            suffix-Answered ids' xs m ys s
              (sym (ap (λ o. o >>= λ i. wanted i (xs ++ m ∷ ys)) e) ∙ h)
      ]

  pub users-Answered : (m : Message J) → m.role ≡ user → Answered (m ∷ [])
  unfolding wanted expects
  users-Answered m h = rw (h)

  -- The results answer the calls that they are the results of.
  results-wanted :
      (results : List (ToolResult J))
      → wanted (map (λ r. r.tool_call_id) results) (map tool_result_to_message results) ≡ some []
  unfolding wanted expects tool_result_to_message
  results-wanted [] = refl
  results-wanted (r ∷ rs) = rw (=?_self r.tool_call_id) (results-wanted rs)

  pub step-Answered :
      (m : Message J) (results : List (ToolResult J))
      → m.role ≡ assistant
      → map (λ r. r.tool_call_id) results ≡ call_ids (calls_of m.tool_calls)
      → Answered (m ∷ map tool_result_to_message results)
  unfolding wanted expects
  step-Answered m results h g = rw (h, ← g) (results-wanted results)

  abbrev Held : Dict String (Option (ToolReturnValue J)) → ToolCall J → Type 0
  Held receivers call = is_some (lookup call.id receivers) ≡ true

  Held-insert :
      (call other : ToolCall J) (value : Option (ToolReturnValue J))
      (receivers : Dict String (Option (ToolReturnValue J)))
      → Held receivers call
      → Held (insert other.id value receivers) call
  Held-insert call other value receivers h =
      ground (arith, lookup-insert other.id call.id value receivers, h)

  Held-dispatch :
      (handle : ToolCall J → Option (ToolReturnValue J)) (call : ToolCall J)
      (calls : List (ToolCall J)) (receivers : Dict String (Option (ToolReturnValue J)))
      → Held receivers call
      → Held (dispatch J handle calls receivers) call
  unfolding dispatch
  Held-dispatch handle call [] receivers h = h
  Held-dispatch handle call (x ∷ xs) receivers h =
      Held-dispatch handle call xs (insert x.id (handle x) receivers)
        (Held-insert call x (handle x) receivers h)

  dispatch-Held :
      (handle : ToolCall J → Option (ToolReturnValue J)) (calls : List (ToolCall J))
      (receivers : Dict String (Option (ToolReturnValue J)))
      → All (Held (dispatch J handle calls receivers)) calls
  unfolding dispatch
  dispatch-Held handle [] receivers = tt
  dispatch-Held handle (x ∷ xs) receivers =
      let there : Held (insert x.id (handle x) receivers) x =
        ground (arith, lookup-insert x.id x.id (handle x) receivers, =?_self x.id) in
      (
        Held-dispatch handle x xs (insert x.id (handle x) receivers) there,
        dispatch-Held handle xs (insert x.id (handle x) receivers),
      )

  remove-Held :
      (id : String) (calls : List (ToolCall J))
      (receivers : Dict String (Option (ToolReturnValue J)))
      → elem id (call_ids calls) ≡ false
      → All (Held receivers) calls
      → All (Held (remove id receivers)) calls
  unfolding elem
  remove-Held id [] receivers d h = tt
  remove-Held id (x ∷ xs) receivers d (h, hs) =
      let other : (x.id =? id) ≡ false = ground (arith, d) in
      let rest : elem id (call_ids xs) ≡ false = ground (arith, d) in
      (
        ground (
          arith,
          lookup-remove id x.id receivers,
          string_eq.beq_iff id x.id,
          string_eq.beq_iff x.id id,
          other,
          h,
        ),
        remove-Held id xs receivers rest hs,
      )

  received-cons :
      (id : String) (o : Option (Option (ToolReturnValue J))) (rest : Option (List (ToolResult J)))
      (results : List (ToolResult J))
      → is_some o ≡ true
      → received J id o rest ≡ some results
      → (r : ToolResult J) × (rs : List (ToolResult J)) × (r.tool_call_id ≡ id)
        × (rest ≡ some rs)
        × (results ≡ r ∷ rs)
  received-cons id none rest results h e = cc h
  received-cons id (some none) rest results h e = cc e
  received-cons id (some (some value)) none results h e = cc e
  received-cons id (some (some value)) (some rs) results h e =
      (record { tool_call_id = id; return_value = value }, rs, refl, refl, cc e)

  results-ids :
      (calls : List (ToolCall J)) (receivers : Dict String (Option (ToolReturnValue J)))
      (results : List (ToolResult J))
      → Distinct (call_ids calls)
      → All (Held receivers) calls
      → tool_results J calls receivers ≡ some results
      → map (λ r. r.tool_call_id) results ≡ call_ids calls
  unfolding tool_results
  results-ids [] receivers results d h e =
      let nothing : results ≡ [] = cc e in ap (map (λ r. r.tool_call_id)) nothing
  results-ids (x ∷ xs) receivers results (d, ds) (h, hs) e =
      let (r, rs, same, rest, split) =
        received-cons x.id (lookup x.id receivers) (tool_results J xs (remove x.id receivers))
          results h e in
      let tail =
        results-ids xs (remove x.id receivers) rs ds (remove-Held x.id xs receivers d hs) rest in
      rw (split, same, tail) refl

  -- When no two calls have the same id, the results that come are one for each call, in order.
  pub tool_results-ids :
      (handle : ToolCall J → Option (ToolReturnValue J)) (calls : List (ToolCall J))
      (results : List (ToolResult J))
      → Distinct (call_ids calls)
      → tool_results J calls (dispatch J handle calls []) ≡ some results
      → map (λ r. r.tool_call_id) results ≡ call_ids calls
  tool_results-ids handle calls results d e =
      results-ids calls (dispatch J handle calls []) results d (dispatch-Held handle calls []) e
