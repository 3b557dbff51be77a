-- ===== src/Soul/Compacting.antt =====
-- A compaction keeps every tool call answered.
use rusty_kimi.Common.{
  ℕ, zero, suc, ◌-◌, ◌≡◌, refl, sym, subst, true, List, [], ◌∷◌, ◌++◌, Option, none, some, All,
  Bool-cases, inl, inr,
}
use rusty_kimi.Message.{Message}
use rusty_kimi.Wire.{compaction_begin}
use rusty_kimi.Generate.{ErrorKind}
use rusty_kimi.Context.{Codec, append_messages, checkpoint, clear}
use rusty_kimi.Context.Replay.{Readable}
use rusty_kimi.Compaction.Compact.{Compacted, compacted, failed, compact}
use rusty_kimi.Soul.State.{Settings, Llm, Services, Soul, M, wire_send}
use rusty_kimi.Soul.Answers.{Answered}
use rusty_kimi.Soul.Marks.{Sound, append_messages-Sound, checkpoint-Sound, clear-Sound}
use rusty_kimi.Soul.Replies.{compact-Answered}
use rusty_kimi.Soul.Fit.{
  Ready, Readies, Post, next-Post, after_context, on_context_works, append_soul_works,
  checkpoint_soul_works,
}
use rusty_kimi.Soul.Effects.{
  is_retryable_error, request_compaction, compact_history, compact_context, replace_history,
  retry_compaction, last_compaction,
}

module _ {J F W : Type 0} (c : Codec J) (v : Services J F W) (set : Settings) (llm : Option Llm)
    (works : (w : W) → (v.disk w).1 ≡ true) (readable : (m : Message J) → Readable c m) where
  pub messages-Readable : (ms : List (Message J)) → All (Readable c) ms
  messages-Readable [] = tt
  messages-Readable (m ∷ ms) = (readable m, messages-Readable ms)

  -- What the compaction of a soul `s0`'s conversation leaves.
  abbrev Compacts : Soul F W c → List (Message J) → Soul F W c → Type 0
  Compacts s0 ms s = Answered ms × (s.context ≡ s0.context) × (s.denwa_renji ≡ s0.denwa_renji)

  compacted-Post :
      (again : M F W c (List (Message J))) (a : Compacted J ErrorKind) (s s0 : Soul F W c)
      → Sound c s.context
      → ((out : List (Message J)) → a ≡ compacted out → Compacts s0 out s)
      → Post c (Compacts s0) (again s)
      → Post c (Compacts s0) (retry_compaction c v set llm again a s)
  compacted-Post again (compacted ms) s s0 g h f = h ms refl
  compacted-Post again (failed e) s s0 g h f = elim (Bool-cases (is_retryable_error e)) [
    | inl retry ↦ rw (retry) f
    | inr final ↦ rw (final) (g, λ e. cc e)
  ]

  last_compaction-Post :
      (a : Compacted J ErrorKind) (s s0 : Soul F W c)
      → Sound c s.context
      → ((out : List (Message J)) → a ≡ compacted out → Compacts s0 out s)
      → Post c (Compacts s0) (last_compaction c v set llm a s)
  last_compaction-Post (compacted ms) s s0 g h = h ms refl
  last_compaction-Post (failed e) s s0 g h = (g, λ e. cc e)

  compact_history-Post :
      (more : ℕ) (s s0 : Soul F W c)
      → Sound c s.context
      → s.context ≡ s0.context
      → s.denwa_renji ≡ s0.denwa_renji
      → Post c (Compacts s0) (compact_history c v set llm more s)
  unfolding compact_history request_compaction
  compact_history-Post zero s s0 g e d =
      let (w, answer) = v.summarise s.world in
      let s' : Soul F W c = record s { world = w } in
      let history = s.context.loaded.history in
      last_compaction-Post (compact answer set.max_preserved_messages set.compact_prompt history) s'
        s0 g
        (λ out h. (
          compact-Answered answer set.compact_prompt set.max_preserved_messages history out g.now h,
          e,
          d,
        ))
  compact_history-Post (suc more) s s0 g e d =
      let (w, answer) = v.summarise s.world in
      let s' : Soul F W c = record s { world = w } in
      let history = s.context.loaded.history in
      compacted-Post (compact_history c v set llm more)
        (compact answer set.max_preserved_messages set.compact_prompt history) s' s0 g
        (λ out h. (
          compact-Answered answer set.compact_prompt set.max_preserved_messages history out g.now h,
          e,
          d,
        ))
        (compact_history-Post more s' s0 g e d)

  replace_history-Ready :
      (ms : List (Message J)) (s : Soul F W c)
      → Answered ms
      → Ready c s.context s.denwa_renji
      → Post c (Readies c) (replace_history c v set llm ms s)
  unfolding replace_history wire_send
  replace_history-Ready ms s a ready =
      let (fresh, cleared, on_disk) = clear-Sound c s.context ready.on_disk in
      let s1 = after_context c v set llm works (clear c true s.context).0 s in
      let add = set.checkpoint_with_user_message in
      let s2 = after_context c v set llm works (checkpoint c true add s1.context).0 s1 in
      let sound = checkpoint-Sound c add s1.context readable fresh in
      rw
        (
          on_context_works c v set llm works (λ io. clear c io) s cleared,
          checkpoint_soul_works c v set llm works s1,
          append_soul_works c v set llm works ms s2,
        )
        (record {
          sound = append_messages-Sound c ms s2.context (messages-Readable ms) sound a;
          on_disk = unfold append_messages in refl;
          no_dmail = ready.no_dmail;
        })

  pub compact_context-Ready :
      (o : Option Llm) (s : Soul F W c)
      → Ready c s.context s.denwa_renji
      → Post c (Readies c) (compact_context c v set llm o s)
  unfolding compact_context wire_send
  compact_context-Ready none s ready = (ready.sound, λ e. cc e)
  compact_context-Ready (some l) s ready =
      let s1 : Soul F W c = record s { sent = s.sent ++ compaction_begin ∷ [] } in
      next-Post c (Compacts s1) (Readies c) (λ ms. replace_history c v set llm ms)
        (compact_history c v set llm (set.max_retries_per_step - 1) s1)
        (compact_history-Post (set.max_retries_per_step - 1) s1 s1 ready.sound refl refl)
        (λ ms s2 (a, e, d). replace_history-Ready ms s2 a (
          subst (λ k. Ready c k s2.denwa_renji) (sym e) (subst (Ready c s1.context) (sym d) ready)))
