-- ===== src/Generate/Assembly.antt =====
-- A rule for the loop of `generate`: what a view of the message counts is what it counts of the
-- stream's parts, however the provider cut them into fragments.
use rusty_kimi.Common.{
  ◌≡◌, refl, sym, ◌∙◌, ap, subst, List, [], ◌∷◌, ◌++◌, Option, none, some, arith, append-nil,
  append_assoc, Option-cases, inl, inr,
}
use rusty_kimi.Message.{Message, ToolCall, StreamedMessagePart, merge_part}
use rusty_kimi.Message.Atoms.{Atom, concat_atoms}
use rusty_kimi.Generate.{
  Stream, end, failed, next, State, start, append_part, accept, round, flush, loop, generate,
}

module _ {J : Type 0} where
  -- The parts that a stream yields before its end or its error.
  unfoldable pub parts : Stream J → List (StreamedMessagePart J)
  parts end = []
  parts (failed e) = []
  parts (next p rest) = p ∷ parts rest

  -- The stream ends without an error.
  abbrev pub Ends : Stream J → Type 0
  Ends end = Unit
  Ends (failed e) = ⊥
  Ends (next p rest) = Ends rest

  -- The part that is pending after `p` came in.
  unfoldable pub successor :
      StreamedMessagePart J → Option (StreamedMessagePart J) → StreamedMessagePart J
  successor p none = p
  successor p (some current) = elim (merge_part current p) [ none ↦ p | some merged ↦ merged ]

-- What to show of a view: `of_part` of a part, `held` of a message and of the calls reported.
-- `Legal pending ps` says which parts may still come when `pending` is pending.
pub record View (J : Type 0) : Type 1 where
  pub of_part : StreamedMessagePart J → List (Atom J)
  pub held : Message J → List (ToolCall J) → List (Atom J)
  pub Legal : Option (StreamedMessagePart J) → List (StreamedMessagePart J) → Type 0
  pub merges :
      (a b c : StreamedMessagePart J) → merge_part a b ≡ some c → of_part c ≡ of_part a ++ of_part b
  pub appends :
      (p : StreamedMessagePart J) (ps : List (StreamedMessagePart J)) (s : State J)
      → Legal (some p) ps
      → held (append_part p s).message (append_part p s).called
        ≡ held s.message s.called ++ of_part p
  pub proceeds :
      (pending : Option (StreamedMessagePart J)) (p : StreamedMessagePart J)
      (ps : List (StreamedMessagePart J))
      → Legal pending (p ∷ ps)
      → Legal (some (successor p pending)) ps

module _ {J : Type 0} (v : View J) where
  open v use {of_part, held, Legal, merges, appends, proceeds}

  abbrev pending_atoms : Option (StreamedMessagePart J) → List (Atom J)
  pending_atoms none = []
  pending_atoms (some p) = of_part p

  abbrev total : State J → List (Atom J)
  total s = held s.message s.called ++ pending_atoms s.pending

  accept-total :
      (p : StreamedMessagePart J) (pending : Option (StreamedMessagePart J))
      (ps : List (StreamedMessagePart J)) (s : State J)
      → s.pending ≡ pending
      → Legal pending ps
      → total (accept p pending s) ≡ total s ++ of_part p
  unfolding accept
  accept-total p none ps s e legal = cc (append-nil (held s.message s.called))
  accept-total p (some current) ps s e legal = elim (Option-cases (merge_part current p)) [
    | inl apart ↦ rw apart (cc (appends current ps s legal, ap pending_atoms e))
    | inr (m, merged) ↦ rw merged (
        cc (
          ap pending_atoms e,
          merges current p m merged,
          append_assoc (held s.message s.called) (of_part current) (of_part p),
        ))
  ]

  pending-accept :
      (p : StreamedMessagePart J) (pending : Option (StreamedMessagePart J)) (s : State J)
      → (accept p pending s).pending ≡ some (successor p pending)
  unfolding accept successor
  pending-accept p none s = refl
  pending-accept p (some current) s = ground arith

  flush-held :
      (pending : Option (StreamedMessagePart J)) (s : State J)
      → s.pending ≡ pending
      → Legal pending []
      → held (flush pending s).message (flush pending s).called ≡ total s
  unfolding flush
  flush-held none s e legal = cc (ap pending_atoms e, append-nil (held s.message s.called))
  flush-held (some p) s e legal = cc (ap pending_atoms e, appends p [] s legal)

  -- The loop, from any state that is legal: a stream that ends is counted in full.
  loop-held :
      (stream : Stream J) (s : State J)
      → Legal s.pending (parts stream)
      → Ends stream
      → let s' = (loop stream s).1 in
        held s'.message s'.called ≡ total s ++ concat_atoms of_part (parts stream)
  unfolding loop parts round concat_atoms
  loop-held end s legal ends = flush-held s.pending s refl legal ∙ sym (append-nil (total s))
  loop-held (failed x) s legal ends = elim ends [ ]
  loop-held (next p rest) s legal ends =
      let s' : State J = record s { sent = s.sent ++ p ∷ [] } in
      loop-held rest (accept p s.pending s')
        (subst (λ o. Legal o (parts rest)) (sym (pending-accept p s.pending s'))
          (proceeds s.pending p (parts rest) legal))
        ends
      ∙ ap (λ l. l ++ concat_atoms of_part (parts rest))
          (accept-total p s.pending (p ∷ parts rest) s' refl legal)
      ∙ append_assoc (total s) (of_part p) _

  -- A whole run: the message holds what the parts say.
  pub generate-held :
      (stream : Stream J)
      → held (start {J = J}).message [] ≡ []
      → Legal none (parts stream)
      → Ends stream
      → let s' = (generate none stream).1 in
        held s'.message s'.called ≡ concat_atoms of_part (parts stream)
  unfolding generate start
  generate-held stream empty legal ends =
      loop-held stream start legal ends
      ∙ ap (λ l. (l ++ []) ++ concat_atoms of_part (parts stream)) empty
