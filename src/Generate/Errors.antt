-- ===== src/Generate/Errors.antt =====
-- How `generate` ends, and what it has reported by then.
use rusty_kimi.Common.{
  ◌≡◌, refl, sym, ◌∙◌, ap, subst, Bool, true, false, not, ◌||◌, if◌then◌else◌, List, [], ◌∷◌, ◌++◌,
  Option, none, some, arith, append-nil, append_assoc, Option-cases, inl, inr,
}
use rusty_kimi.Message.{
  Message, ContentPart, ToolCall, StreamedMessagePart, content, tool_call, tool_call_part,
  merge_content, merge_part, new,
}
use rusty_kimi.Generate.{
  ErrorKind, empty_response, Stream, end, failed, next, State, Outcome, generated, error, start,
  append_part, accept, round, flush, finish, conclude, loop, generate, push_call,
}
use rusty_kimi.Generate.Assembly.{parts, Ends}
use rusty_kimi.Generate.Content.{calls_of, calls_of-push_call}
use rusty_kimi.Message.Atoms.{as_content-eq-some}

some_item {ℓ} : {A : Type ℓ} → List A → Bool
some_item [] = false
some_item (_ ∷ _) = true

some_item-snoc {ℓ} : {A : Type ℓ} (xs : List A) (x : A) → some_item (xs ++ x ∷ []) ≡ true
unfolding some_item
some_item-snoc [] x = refl
some_item-snoc (_ ∷ _) x = refl

or-false : (b : Bool) → b ≡ (b || false)
or-false b = ground arith

module _ {J : Type 0} where
  -- Is the part an argument fragment?
  unfoldable pub is_fragment : StreamedMessagePart J → Bool
  is_fragment (tool_call_part p) = true
  is_fragment (content c) = false
  is_fragment (tool_call c) = false

  unfoldable pub all_fragments : List (StreamedMessagePart J) → Bool
  all_fragments [] = true
  all_fragments (p ∷ ps) = if is_fragment p then all_fragments ps else false

  starts : Option (StreamedMessagePart J) → Bool
  starts none = false
  starts (some p) = not (is_fragment p)

  -- The error that ends the stream, if one does.
  unfoldable pub failure : Stream J → Option ErrorKind
  failure end = none
  failure (failed e) = some e
  failure (next p rest) = failure rest

  -- Something has come in that the message holds, or will hold.
  productive : State J → Bool
  unfolding starts some_item is_fragment calls_of
  productive s =
      some_item s.message.content || some_item (calls_of s.message.tool_calls) || starts s.pending

  conclude-productive :
      (c : List ContentPart) (calls : Option (List (ToolCall J))) (m : Message J)
      → conclude c calls m
        ≡ (if some_item c || some_item (calls_of calls) then generated m else error empty_response)
  unfolding conclude some_item calls_of
  conclude-productive [] none m = refl
  conclude-productive [] (some []) m = refl
  conclude-productive [] (some (_ ∷ _)) m = refl
  conclude-productive (_ ∷ _) calls m = refl

  push_call-some_item :
      (c : ToolCall J) (calls : Option (List (ToolCall J)))
      → some_item (calls_of (push_call c calls)) ≡ true
  unfolding calls_of
  push_call-some_item c none = some_item-snoc [] c
  push_call-some_item c (some calls) = some_item-snoc calls c

  -- What appending the part that is pending leaves in the message.
  append_part-productive :
      (current p : StreamedMessagePart J) (s : State J)
      → s.pending ≡ some current
      → productive (record (append_part current s) { pending = some p })
        ≡ (productive s || not (is_fragment p))
  unfolding append_part productive
  append_part-productive (content c) p s e = ground (arith, some_item-snoc s.message.content c)
  append_part-productive (tool_call c) p s e =
      ground (arith, push_call-some_item c s.message.tool_calls)
  append_part-productive (tool_call_part a) p s e = ground arith

  merge_part-is_fragment :
      (a b c : StreamedMessagePart J)
      → merge_part a b ≡ some c
      → (is_fragment c ≡ is_fragment a) × (is_fragment a ≡ true → is_fragment b ≡ true)
  unfolding merge_part is_fragment
  merge_part-is_fragment (content a) (content b) c h =
      let (m, merged, e) = as_content-eq-some (merge_content a b) c h in
      (rw (← e), λ impossible. impossible)
  merge_part-is_fragment (tool_call a) (tool_call_part b) c h = ground arith
  merge_part-is_fragment (tool_call_part a) (tool_call_part b) c h = ground arith
  merge_part-is_fragment _ _ c h = cc

  accept-productive :
      (p : StreamedMessagePart J) (pending : Option (StreamedMessagePart J)) (s : State J)
      → s.pending ≡ pending
      → productive (accept p pending s) ≡ (productive s || not (is_fragment p))
  unfolding accept
  accept-productive p none s e = unfold productive in ground arith
  accept-productive p (some current) s e = elim (Option-cases (merge_part current p)) [
    | inl apart ↦ rw apart (append_part-productive current p s e)
    | inr (m, merged) ↦
        rw merged (unfold productive in ground (arith, merge_part-is_fragment current p m merged))
  ]

  flush-productive :
      (pending : Option (StreamedMessagePart J)) (s : State J)
      → s.pending ≡ pending
      → let m = (flush pending s).message in
        (some_item m.content || some_item (calls_of m.tool_calls)) ≡ productive s
  unfolding flush productive append_part
  flush-productive none s e = ground arith
  flush-productive (some (content c)) s e = ground (arith, some_item-snoc s.message.content c)
  flush-productive (some (tool_call c)) s e =
      ground (arith, push_call-some_item c s.message.tool_calls)
  flush-productive (some (tool_call_part a)) s e = ground arith

  abbrev verdict : Bool → Message J → Outcome J
  verdict b m = if b then generated m else error empty_response

  round-productive :
      (p : StreamedMessagePart J) (s : State J)
      → productive (round p s) ≡ (productive s || not (is_fragment p))
  unfolding round
  round-productive p s =
      let s' : State J = record s { sent = s.sent ++ p ∷ [] } in
      accept-productive p s.pending s' refl ∙ unfold productive in refl

  loop-outcome :
      (stream : Stream J) (s : State J)
      → Ends stream
      → (loop stream s).0
        ≡ verdict (productive s || not (all_fragments (parts stream))) (loop stream s).1.message
  unfolding loop finish parts all_fragments
  loop-outcome end s ends =
      let m = (flush s.pending s).message in
      conclude-productive m.content m.tool_calls m
      ∙ ap (λ b. verdict b m) (flush-productive s.pending s refl ∙ or-false (productive s))
  loop-outcome (failed x) s ends = elim ends [ ]
  loop-outcome (next p rest) s ends =
      loop-outcome rest (round p s) ends
      ∙ ap (λ b. verdict b (loop rest (round p s)).1.message) (ground (arith, round-productive p s))

  loop-failed :
      (stream : Stream J) (e : ErrorKind) (s : State J)
      → failure stream ≡ some e
      → (loop stream s).0 ≡ error e
  unfolding loop failure
  loop-failed end e s h = cc
  loop-failed (failed x) e s h = cc
  loop-failed (next p rest) e s h = loop-failed rest e (round p s) h

  Ends-of-failure : (stream : Stream J) → failure stream ≡ none → Ends stream
  unfolding failure
  Ends-of-failure end h = tt
  Ends-of-failure (failed x) h = cc
  Ends-of-failure (next p rest) h = Ends-of-failure rest h

  -- A stream that fails makes `generate` return its error. One that ends makes it return the
  -- assembled message, unless every part was an argument fragment with no tool call to continue
  -- (so also when there was no part at all): then the error says that the response was empty.
  pub generate-outcome :
      (stream : Stream J)
      → ((e : ErrorKind) → failure stream ≡ some e → (generate none stream).0 ≡ error e)
        × (failure stream ≡ none
            → (generate none stream).0 ≡ (
                if all_fragments (parts stream)
                then error empty_response
                else generated (generate none stream).1.message))
  unfolding generate
  generate-outcome stream = (
    λ e h. loop-failed stream e start h,
    λ h.
        loop-outcome stream start (Ends-of-failure stream h)
        ∙ unfold start productive new in ground arith,
  )

  -- What the state has reported so far.
  abbrev Reports : List (StreamedMessagePart J) → State J → Type 0
  Reports ps s = (s.sent ≡ ps) × (s.called ≡ calls_of s.message.tool_calls)

  append_part-Reports :
      (p : StreamedMessagePart J) (ps : List (StreamedMessagePart J)) (s : State J)
      → Reports ps s
      → Reports ps (append_part p s)
  unfolding append_part
  append_part-Reports (content c) ps s h = h
  append_part-Reports (tool_call c) ps s h =
      (h.0, ap (λ l. l ++ c ∷ []) h.1 ∙ sym (calls_of-push_call c s.message.tool_calls))
  append_part-Reports (tool_call_part a) ps s h = h

  accept-Reports :
      (p : StreamedMessagePart J) (pending : Option (StreamedMessagePart J))
      (ps : List (StreamedMessagePart J)) (s : State J)
      → Reports ps s
      → Reports ps (accept p pending s)
  unfolding accept
  accept-Reports p none ps s h = h
  accept-Reports p (some current) ps s h = elim (Option-cases (merge_part current p)) [
    | inl apart ↦ rw apart (append_part-Reports current ps s h)
    | inr (m, merged) ↦ rw merged h
  ]

  flush-Reports :
      (pending : Option (StreamedMessagePart J)) (ps : List (StreamedMessagePart J)) (s : State J)
      → Reports ps s
      → Reports ps (flush pending s)
  unfolding flush
  flush-Reports none ps s h = h
  flush-Reports (some p) ps s h = append_part-Reports p ps s h

  loop-Reports :
      (stream : Stream J) (ps : List (StreamedMessagePart J)) (s : State J)
      → Reports ps s
      → Reports (ps ++ parts stream) (loop stream s).1
  unfolding loop finish parts round
  loop-Reports end ps s h = rw (append-nil ps) (flush-Reports s.pending ps s h)
  loop-Reports (failed e) ps s h = rw (append-nil ps) h
  loop-Reports (next p rest) ps s h =
      let s' : State J = record s { sent = s.sent ++ p ∷ [] } in
      let h' : Reports (ps ++ p ∷ []) s' = (ap (λ l. l ++ p ∷ []) h.0, h.1) in
      subst (λ l. Reports l (loop rest (accept p s.pending s')).1)
        (append_assoc ps (p ∷ []) (parts rest))
        (loop-Reports rest (ps ++ p ∷ []) (accept p s.pending s')
          (accept-Reports p s.pending (ps ++ p ∷ []) s' h'))

  -- Every part that came before the end or the error was sent on, in order, and `on_tool_call`
  -- was called with exactly the tool calls of the message, in their order.
  pub generate-reports :
      (stream : Stream J)
      → let s = (generate none stream).1 in
        (s.sent ≡ parts stream) × (s.called ≡ calls_of s.message.tool_calls)
  unfolding generate
  generate-reports stream = loop-Reports stream [] start (unfold start calls_of new in (refl, refl))
