-- ===== src/Soul/Replies.antt =====
-- What a step and a compaction give to the conversation.
use rusty_kimi.Common.{
  ℕ, ◌≡◌, refl, sym, ◌∙◌, ap, subst, String, List, [], ◌∷◌, ◌++◌, Option, none, some, drop, length,
  append_assoc, ◌==◌, ◌||◌, Bool-cases, Option-cases, inl, inr,
}
use rusty_kimi.Message.{
  Message, ContentPart, ToolCall, StreamedMessagePart, content, tool_call, tool_call_part, Text,
  assistant, merge_part, new,
}
use rusty_kimi.Tooling.{ToolReturnValue}
use rusty_kimi.Wire.{TokenUsage}
use rusty_kimi.Generate.{
  ErrorKind, Stream, end, failed, next, State, Outcome, generated, error, start, append_part,
  merge_or_append, accept, round, flush, conclude, finish, loop, generate,
}
use rusty_kimi.Generate.Content.{calls_of, calls_of-push_call}
use rusty_kimi.Compaction.{backwards, find_start, ask, prepare_from, prepare, is_empty}
use rusty_kimi.Compaction.Kept.{
  Stops, find_start-Stops, backwards-backwards, backwards-append, length-backwards, drop-length,
}
use rusty_kimi.Compaction.Compact.{
  Answer, answered, refused, compacted, summary, with_answer, compact_from, compact,
}
use rusty_kimi.Soul.Steps.{StepResult, dispatch, stepped, step_of}
use rusty_kimi.Soul.Answers.{Answered, wanted, suffix-Answered, expects}

module _ {J : Type 0} where
  -- The assistant's message has the calls that were reported.
  record Reports (s : State J) : Type 0 where
    speaker : s.message.role ≡ assistant
    same : calls_of s.message.tool_calls ≡ s.called

  append_part-Reports :
      (p : StreamedMessagePart J) (s : State J) → Reports s → Reports (append_part p s)
  unfolding append_part
  append_part-Reports (content x) s h = record { speaker = h.speaker; same = h.same }
  append_part-Reports (tool_call x) s h = record {
    speaker = h.speaker;
    same = calls_of-push_call x s.message.tool_calls ∙ ap (λ l. l ++ x ∷ []) h.same;
  }
  append_part-Reports (tool_call_part x) s h = h

  accept-Reports :
      (p : StreamedMessagePart J) (pending : Option (StreamedMessagePart J)) (s : State J)
      → Reports s
      → Reports (accept p pending s)
  unfolding accept merge_or_append
  accept-Reports p none s h = record { speaker = h.speaker; same = h.same }
  accept-Reports p (some current) s h = elim (Option-cases (merge_part current p)) [
    | inl e ↦
        rw (e)
          (let g = append_part-Reports current s h in record { speaker = g.speaker; same = g.same })
    | inr (m, e) ↦ rw (e) (record { speaker = h.speaker; same = h.same })
  ]

  flush-Reports :
      (pending : Option (StreamedMessagePart J)) (s : State J)
      → Reports s
      → Reports (flush pending s)
  unfolding flush
  flush-Reports none s h = h
  flush-Reports (some p) s h = append_part-Reports p s h

  conclude-message :
      (c : List ContentPart) (calls : Option (List (ToolCall J))) (m m' : Message J)
      → conclude c calls m ≡ generated m'
      → m' ≡ m
  unfolding conclude
  conclude-message [] none m m' h = cc h
  conclude-message [] (some []) m m' h = cc h
  conclude-message [] (some (_ ∷ _)) m m' h = cc h
  conclude-message (_ ∷ _) calls m m' h = cc h

  loop-Reports :
      (stream : Stream J) (s : State J) (m : Message J)
      → Reports s
      → (loop stream s).0 ≡ generated m
      → (m ≡ (loop stream s).1.message) × Reports (loop stream s).1
  unfolding loop finish round
  loop-Reports end s m h e =
      let s' = flush s.pending s in
      (
        conclude-message s'.message.content s'.message.tool_calls s'.message m e,
        flush-Reports s.pending s h,
      )
  loop-Reports (failed x) s m h e = cc e
  loop-Reports (next p rest) s m h e =
      let sent : State J = record s { sent = s.sent ++ p ∷ [] } in
      let h' : Reports sent = record { speaker = h.speaker; same = h.same } in
      loop-Reports rest (accept p s.pending sent) m (accept-Reports p s.pending sent h') e

  generate-Reports :
      (refusal : Option ErrorKind) (stream : Stream J) (m : Message J)
      → (generate refusal stream).0 ≡ generated m
      → (m ≡ (generate refusal stream).1.message) × Reports (generate refusal stream).1
  unfolding generate start new calls_of
  generate-Reports (some x) stream m e = cc e
  generate-Reports none stream m e =
      loop-Reports stream start m (record { speaker = refl; same = refl }) e

  -- A result whose calls are those of its message, all handed to the tools.
  pub record Handled (r : StepResult J) (called : List (ToolCall J)) : Type 0 where
    pub speaker : r.message.role ≡ assistant
    pub calls : r.tool_calls ≡ called
    pub same : calls_of r.message.tool_calls ≡ called
    pub handle : ToolCall J → Option (ToolReturnValue J)
    pub receivers : r.receivers ≡ dispatch J handle called []

  step_of-Handled :
      (handle : ToolCall J → Option (ToolReturnValue J)) (usage : Option TokenUsage)
      (id : Option String) (o : Outcome J) (s : State J) (r : StepResult J)
      → ((m : Message J) → o ≡ generated m → (m ≡ s.message) × Reports s)
      → step_of J handle usage id (o, s) ≡ stepped r
      → Handled r s.called
  unfolding step_of
  step_of-Handled handle usage id (error e) s r h g = cc g
  step_of-Handled handle usage id (generated m) s r h g =
      let (same, reports) = h m refl in
      let built : StepResult J = record {
        id = id;
        message = m;
        usage = usage;
        tool_calls = s.called;
        receivers = dispatch J handle s.called [];
      } in
      let is_built : built ≡ r = cc g in
      subst (λ x. Handled x s.called) is_built
        (record {
          speaker = ap (λ x. x.role) same ∙ reports.speaker;
          calls = refl;
          same = ap (λ x. calls_of x.tool_calls) same ∙ reports.same;
          handle = handle;
          receivers = refl;
        })

  pub generate-Handled :
      (handle : ToolCall J → Option (ToolReturnValue J)) (usage : Option TokenUsage)
      (id : Option String) (refusal : Option ErrorKind) (stream : Stream J) (r : StepResult J)
      → step_of J handle usage id (generate refusal stream) ≡ stepped r
      → Handled r (generate refusal stream).1.called
  generate-Handled handle usage id refusal stream r e =
      step_of-Handled handle usage id (generate refusal stream).0 (generate refusal stream).1 r
        (generate-Reports refusal stream) e

module _ {J E : Type 0} (step : Message J → Answer E) (prompt : Text) where
  summary-Answered :
      (parts : List ContentPart) (keep : List (Message J))
      → Answered keep
      → Answered (summary parts ∷ keep)
  unfolding wanted expects summary new
  summary-Answered parts keep h = h

  with_answer-Answered :
      (a : Answer E) (keep out : List (Message J))
      → Answered keep
      → with_answer a keep ≡ compacted out
      → Answered out
  unfolding with_answer
  with_answer-Answered (answered parts) keep out h e =
      let same : summary parts ∷ keep ≡ out = cc e in
      subst Answered same (summary-Answered parts keep h)
  with_answer-Answered (refused x) keep out h e = cc e

  compact_from-Answered :
      (o : Option (Message J)) (keep out : List (Message J))
      → Answered keep
      → compact_from step o keep ≡ compacted out
      → Answered out
  unfolding compact_from
  compact_from-Answered none keep out h e = let same : keep ≡ out = cc e in subst Answered same h
  compact_from-Answered (some m) keep out h e = with_answer-Answered (step m) keep out h e

  ask-keep : (old keep : List (Message J)) → (ask prompt old keep).to_preserve ≡ keep
  unfolding ask
  ask-keep [] keep = refl
  ask-keep (m ∷ ms) keep = refl

  -- What is kept starts where someone speaks.
  found-Answered :
      (most start : ℕ) (messages : List (Message J))
      → Answered messages
      → Stops most 0 (backwards messages) start
      → Answered (prepare_from prompt messages (some start)).to_preserve
  unfolding prepare_from
  found-Answered most start messages h s =
      let old = backwards s.before in
      let keep = s.first ∷ backwards s.after in
      let split : messages ≡ old ++ keep =
        sym (backwards-backwards messages)
        ∙ ap backwards s.split
        ∙ backwards-append s.after (s.first ∷ s.before)
        ∙ append_assoc old (s.first ∷ []) (backwards s.after) in
      let at : start ≡ length old = sym s.at ∙ sym (length-backwards s.before) in
      let back : drop start messages ≡ keep =
        ap (λ n. drop n messages) at ∙ ap (drop (length old)) split ∙ drop-length old keep in
      let whole : wanted [] (old ++ keep) ≡ some [] = sym (ap (wanted []) split) ∙ h in
      subst Answered (sym (ask-keep _ (drop start messages) ∙ back))
        (suffix-Answered [] old s.first (backwards s.after) s.turn whole)

  prepare-Answered :
      (most : ℕ) (messages : List (Message J))
      → Answered messages
      → Answered (prepare most prompt messages).to_preserve
  unfolding prepare prepare_from
  prepare-Answered most messages h = elim (Bool-cases (is_empty messages || (most == 0))) [
    | inl whole ↦ rw (whole) h
    | inr part ↦ elim (Option-cases (find_start most 0 (backwards messages))) [
      | inl short ↦ rw (part, prepare) (rw (short) h)
      | inr (n, found) ↦
          rw (part, prepare)
            (rw (found) (
              found-Answered most n messages h
                (find_start-Stops most 0 (backwards messages) n found)))
    ]
  ]

  -- A compaction of a conversation with every call answered is one too.
  pub compact-Answered :
      (most : ℕ) (messages out : List (Message J))
      → Answered messages
      → compact step most prompt messages ≡ compacted out
      → Answered out
  unfolding compact
  compact-Answered most messages out h e =
      compact_from-Answered (prepare most prompt messages).compact_message
        (prepare most prompt messages).to_preserve out (prepare-Answered most messages h) e
