-- ===== src/Compaction/Shrunk.antt =====
-- What a compaction makes of a conversation.
use rusty_kimi.Common.{
  ℕ, ◌+◌, ◌≤◌, ◌<◌, ◌≡◌, ◌≢◌, refl, sym, ◌∙◌, ap, subst, List, [], ◌∷◌, ◌++◌, Option, none, some,
  arith,
}
use rusty_kimi.Message.{Text, ContentPart, Message, new as new_message}
use rusty_kimi.Compaction.{speaks, ask, prepare}
use rusty_kimi.Compaction.Kept.{turns, turns-append, prepare-Prepared}
use rusty_kimi.Compaction.Compact.{
  Answer, answered, refused, Compacted, compacted, failed, summary, with_answer, compact_from,
  compact,
}

module _ {J E : Type 0} (step : Message J → Answer E) (most : ℕ) (prompt : Text) where
  turns-summary :
      (content : List ContentPart) (keep : List (Message J))
      → turns (summary content ∷ keep) ≡ turns keep + 1
  unfolding turns summary new_message speaks
  turns-summary content keep = omega arith

  -- What follows from the model's answer.
  abbrev pub Follows : List (Message J) → Answer E → Compacted J E → Type 0
  Follows keep (answered content) c =
      (c ≡ compacted (summary content ∷ keep)) × (turns (summary content ∷ keep) ≡ most + 1)
  Follows keep (refused e) c = c ≡ failed e

  -- The conversation as old messages, of which the model is asked, and those that are kept.
  pub record Outcome (messages : List (Message J)) (c : Compacted J E) : Type 0 where
    pub old : List (Message J)
    pub keep : List (Message J)
    pub parts : messages ≡ old ++ keep
    pub fewer : turns messages < most → old ≡ []
    pub exact : turns messages ≡ most → turns old ≡ 0
    pub whole : old ≡ [] → (c ≡ compacted messages) × (turns messages ≤ most)
    pub counted : old ≢ [] → turns keep ≡ most
    pub asked :
        (m : Message J) → (ask prompt old keep).compact_message ≡ some m → Follows keep (step m) c
    pub requested : old ≢ [] → (m : Message J) × ((ask prompt old keep).compact_message ≡ some m)

  with_answer-Follows :
      (keep : List (Message J)) (a : Answer E)
      → turns keep ≡ most
      → Follows keep a (with_answer a keep)
  unfolding with_answer
  with_answer-Follows keep (answered content) h =
      (refl, turns-summary content keep ∙ ap (λ n. n + 1) h)
  with_answer-Follows keep (refused e) h = refl

  asked-Follows :
      (o : Option (Message J)) (m : Message J) (keep : List (Message J))
      → o ≡ some m
      → turns keep ≡ most
      → Follows keep (step m) (compact_from step o keep)
  unfolding compact_from
  asked-Follows none m keep h t = absurd (cc h)
  asked-Follows (some x) m keep h t =
      let same : x ≡ m = cc h in
      subst (λ q. Follows keep (step q) (with_answer (step x) keep)) same
        (with_answer-Follows keep (step x) t)

  from-Outcome :
      (messages old keep : List (Message J))
      → messages ≡ old ++ keep
      → (old ≡ [] → turns messages ≤ most)
      → (old ≢ [] → turns keep ≡ most)
      → Outcome messages (
          compact_from step (ask prompt old keep).compact_message (ask prompt old keep).to_preserve)
  unfolding ask compact_from
  from-Outcome messages [] keep p few enough = record {
    old = [];
    keep = keep;
    parts = p;
    fewer = λ h. refl;
    exact = λ h. unfold turns in refl;
    counted = λ n. absurd (n refl);
    whole = λ e. (ap compacted (sym p), few refl);
    asked = λ m h. absurd (cc h);
    requested = λ n. absurd (n refl);
  }
  from-Outcome messages (x ∷ old) keep p few enough =
      let sum = ap turns p ∙ turns-append (x ∷ old) keep in
      record {
        old = x ∷ old;
        keep = keep;
        parts = p;
        fewer = λ h. absurd (omega (arith, h, sum, enough (λ e. cc e)));
        exact = λ h. omega (arith, h, sum, enough (λ e. cc e));
        counted = enough;
        whole = λ e. absurd (cc e);
        asked = λ m h.
            asked-Follows (ask prompt (x ∷ old) keep).compact_message m keep h (enough (λ e. cc e));
        requested = λ n. (_, refl);
      }

  -- A compaction that may keep `most` turns, but not 0, splits the conversation into a first part and
  -- an end. With fewer turns the first part is empty; with exactly as many it has no turn; with more
  -- it is not empty. When it is empty, the conversation is left as it is. Otherwise the end has
  -- exactly `most` turns, the model is asked to compact the first part, and either its answer
  -- stands, without its thoughts, for that part, before the end, which makes one turn more, or its
  -- error is the result.
  pub compact-Outcome :
      (messages : List (Message J))
      → 0 < most
      → Outcome messages (compact step most prompt messages)
  unfolding compact
  compact-Outcome messages positive =
      let (old, p) = prepare-Prepared most prompt messages positive in
      let r = prepare most prompt messages in
      subst (λ q. Outcome messages (compact_from step q.compact_message q.to_preserve))
        (sym p.asked) (from-Outcome messages old r.to_preserve p.kept p.few p.enough)
