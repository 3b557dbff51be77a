-- ===== src/Soul/Stepping.antt =====
-- One step keeps every tool call answered.
use rusty_kimi.Common.{
  ℕ, zero, suc, ◌-◌, ◌≡◌, refl, sym, subst, true, List, Option, none, some, Bool-cases, inl, inr,
}
use rusty_kimi.Message.{Message, ToolCall}
use rusty_kimi.Generate.{generate}
use rusty_kimi.Context.{Codec, checkpoint}
use rusty_kimi.Context.Replay.{Readable}
use rusty_kimi.Soul.DenwaRenji.{set_n_checkpoints}
use rusty_kimi.Soul.Steps.{StepResult, Stepped, stepped, refused, step_of}
use rusty_kimi.Soul.State.{Settings, Llm, Services, Soul, M, ◌>>◌}
use rusty_kimi.Soul.Answers.{Distinct, call_ids}
use rusty_kimi.Soul.Marks.{Sound, checkpoint-Sound}
use rusty_kimi.Soul.Replies.{Handled, generate-Handled}
use rusty_kimi.Soul.Fit.{
  Pending, send_dmails-Pending, Ready, Fit, Readies, Post, next-Post, checkpoint_soul_works,
  checkpoint-on_disk,
}
use rusty_kimi.Soul.Compacting.{compact_context-Ready}
use rusty_kimi.Soul.Handling.{Ended, handle_step_result-Ended}
use rusty_kimi.Soul.Effects.{is_retryable_error, checkpoint_soul}
use rusty_kimi.Soul.Step.{
  request_step, answered_step, retry_step, last_step, handle_step_result, step, too_long,
  compact_if_long, set_checkpoints, one_step,
}

-- A model none of whose answers has two calls with the same id.
abbrev pub DistinctCalls : {J F W : Type 0} → Services J F W → Type 0
DistinctCalls {J} {F} {W} v =
    (history : List (Message J)) (w : W)
    → let reply = (v.respond history w).1 in
      Distinct (call_ids (generate reply.refusal reply.stream).1.called)

module _ {J F W : Type 0} (c : Codec J) (v : Services J F W) (set : Settings) (llm : Option Llm)
    (works : (w : W) → (v.disk w).1 ≡ true) (readable : (m : Message J) → Readable c m)
    (distinct : DistinctCalls v) where
  -- The retries of a request.
  abbrev Answers : StepResult J → Soul F W c → Type 0
  Answers r s =
      Fit c s.context s.denwa_renji
      × ((called : List (ToolCall J)) × (Handled r called × Distinct (call_ids called)))

  retry_step-Answers :
      (again : M F W c (StepResult J)) (a : Stepped J) (s : Soul F W c)
      → Sound c s.context
      → ((r : StepResult J) → a ≡ stepped r → Answers r s)
      → Post c Answers (again s)
      → Post c Answers (retry_step c v set llm again a s)
  retry_step-Answers again (stepped r) s g h f = h r refl
  retry_step-Answers again (refused e) s g h f = elim (Bool-cases (is_retryable_error e)) [
    | inl retry ↦ rw (retry) f
    | inr final ↦ rw (final) (g, λ x. cc x)
  ]

  last_step-Answers :
      (a : Stepped J) (s : Soul F W c)
      → Sound c s.context
      → ((r : StepResult J) → a ≡ stepped r → Answers r s)
      → Post c Answers (last_step c v set llm a s)
  last_step-Answers (stepped r) s g h = h r refl
  last_step-Answers (refused e) s g h = (g, λ x. cc x)

  -- A request leaves the context alone.
  requested : Soul F W c → Soul F W c
  unfolding request_step
  requested s = (request_step c v set llm s).0

  requested-Fit :
      (s : Soul F W c)
      → Fit c s.context s.denwa_renji
      → Fit c (requested s).context (requested s).denwa_renji
  unfolding requested
  requested-Fit s fit =
      let reply = (v.respond s.context.loaded.history s.world).1 in
      let (known, valid) =
        send_dmails-Pending s.context.loaded.next_checkpoint_id reply.dmails s.denwa_renji fit.known
          fit.valid in
      record { sound = fit.sound; on_disk = fit.on_disk; known = known; valid = valid }

  answered_step-Answers :
      (more : ℕ) (s : Soul F W c)
      → Fit c s.context s.denwa_renji
      → Post c Answers (answered_step c v set llm more s)
  unfolding answered_step request_step requested
  answered_step-Answers zero s fit =
      let fit' = requested-Fit s fit in
      let reply = (v.respond s.context.loaded.history s.world).1 in
      last_step-Answers
        (step_of J reply.handle reply.usage reply.id (generate reply.refusal reply.stream))
        (requested s) fit'.sound
        (λ r e. (
          fit',
          (
            _,
            (
              generate-Handled reply.handle reply.usage reply.id reply.refusal reply.stream r e,
              distinct s.context.loaded.history s.world,
            ),
          ),
        ))
  answered_step-Answers (suc more) s fit =
      let fit' = requested-Fit s fit in
      let reply = (v.respond s.context.loaded.history s.world).1 in
      retry_step-Answers (answered_step c v set llm more)
        (step_of J reply.handle reply.usage reply.id (generate reply.refusal reply.stream))
        (requested s) fit'.sound
        (λ r e. (
          fit',
          (
            _,
            (
              generate-Handled reply.handle reply.usage reply.id reply.refusal reply.stream r e,
              distinct s.context.loaded.history s.world,
            ),
          ),
        ))
        (answered_step-Answers more (requested s) fit')

  step-Ended :
      (o : Option Llm) (s : Soul F W c)
      → Fit c s.context s.denwa_renji
      → Post c (Ended c v set llm works readable) (step c v set llm o s)
  unfolding step
  step-Ended none s fit = (fit.sound, λ e. cc e)
  step-Ended (some l) s fit =
      next-Post c Answers (Ended c v set llm works readable) (handle_step_result c v set llm)
        (answered_step c v set llm (set.max_retries_per_step - 1) s)
        (answered_step-Answers (set.max_retries_per_step - 1) s fit)
        (λ r s' (fit', (called, (h, d))).
          handle_step_result-Ended c v set llm works readable r called s' h d fit')

  compact_if_long-Ready :
      (s : Soul F W c)
      → Ready c s.context s.denwa_renji
      → Post c (Readies c) (compact_if_long c v set llm s)
  unfolding compact_if_long
  compact_if_long-Ready s ready = elim (Bool-cases (too_long c v set llm llm s.context)) [
    | inl long ↦ rw (long) (compact_context-Ready c v set llm works readable llm s ready)
    | inr short ↦ rw (short) ready
  ]

  pub one_step-Ended :
      (s : Soul F W c)
      → Ready c s.context s.denwa_renji
      → Post c (Ended c v set llm works readable) (one_step c v set llm s)
  unfolding one_step set_checkpoints set_n_checkpoints
  one_step-Ended s ready =
      let add = set.checkpoint_with_user_message in
      next-Post c (Readies c) (Ended c v set llm works readable)
        (λ _. checkpoint_soul c v set llm >> (set_checkpoints c v set llm >> step c v set llm llm))
        (compact_if_long c v set llm s) (compact_if_long-Ready s ready)
        (λ _ s1 ready1.
          let k = (checkpoint c true add s1.context).0 in
          rw (checkpoint_soul_works c v set llm works s1) (
            step-Ended llm _ (record {
              sound = checkpoint-Sound c add s1.context readable ready1.sound;
              on_disk = checkpoint-on_disk c v set llm works add s1.context;
              known = refl;
              valid = subst (λ p. Pending p k.loaded.next_checkpoint_id) (sym ready1.no_dmail) tt;
            })))
