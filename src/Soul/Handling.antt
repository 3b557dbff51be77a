-- ===== src/Soul/Handling.antt =====
-- What a model's answer does to the context, and how the step then ends.
use rusty_kimi.Common.{
  ◌⊎◌, append_assoc, ℕ, ◌<◌, ◌≡◌, refl, sym, ◌∙◌, ap, subst, Bool, true, false, List, [], ◌∷◌, ◌++◌,
  map, Option, none, some, is_some, Option-cases, inl, inr,
}
use rusty_kimi.Common.Int.{ℤ, pos}
use rusty_kimi.Message.{Message, ToolCall, user, new as new_message}
use rusty_kimi.Wire.{status_update, TokenUsage}
use rusty_kimi.Context.{Codec, append_messages, update_token_count}
use rusty_kimi.Context.Replay.{Readable}
use rusty_kimi.Soul.DenwaRenji.{DMail, fetch_pending_dmail}
use rusty_kimi.Soul.Steps.{input, total, dispatch, ToolResult, StepResult, tool_results}
use rusty_kimi.Soul.Results.{ModelCapability, check_message, tool_result_to_message}
use rusty_kimi.Soul.State.{
  Settings, Llm, Services, llm_not_supported, StepEnd, goes_on, stops, back_to_the_future, ok, err,
  Soul, wire_send, ◌>>=◌, return,
}
use rusty_kimi.Soul.Answers.{
  Answered, Distinct, call_ids, step-Answered, wanted, append-Answered, tool_results-ids,
}
use rusty_kimi.Soul.Marks.{Sound, append_messages-Logged, update_token_count-Logged, Logged}
use rusty_kimi.Soul.Replies.{Handled}
use rusty_kimi.Soul.Fit.{
  Pending, Ready, Fit, Post, next-Post, after_context, on_context_works, append_soul_works,
}
use rusty_kimi.Soul.Compacting.{messages-Readable}
use rusty_kimi.Soul.Effects.{status_of, send_status, on_context, dmail_message}
use rusty_kimi.Soul.Step.{
  record_usage, record_total, check_messages, grow_context, any_rejected, take_dmail, step_end,
  conclude_step, handle_step_result,
}

List-cases {ℓ} : {A : Type ℓ} (l : List A) → (l ≡ []) ⊎ ((x : A) × (xs : List A) × (l ≡ x ∷ xs))
List-cases [] = inl refl
List-cases (x ∷ xs) = inr (x, xs, refl)

module _ {J F W : Type 0} (c : Codec J) (v : Services J F W) (set : Settings) (llm : Option Llm)
    (works : (w : W) → (v.disk w).1 ≡ true) (readable : (m : Message J) → Readable c m) where
  -- What recording a token count leaves as it was.
  record Counted (s s' : Soul F W c) : Type 0 where
    logged : Logged c s.context → Logged c s'.context
    on_disk : is_some s.context.file ≡ true → is_some s'.context.file ≡ true
    history : s'.context.loaded.history ≡ s.context.loaded.history
    ids : s'.context.loaded.next_checkpoint_id ≡ s.context.loaded.next_checkpoint_id
    dmails : s'.denwa_renji ≡ s.denwa_renji

  count-Counted :
      (n : ℤ) (s : Soul F W c)
      → let s' = after_context c v set llm works (update_token_count c true n s.context).0 s in
        (on_context c v set llm (λ io. update_token_count c io n) s ≡ (s', ok tt)) × Counted s s'
  unfolding update_token_count
  count-Counted n s = (
    on_context_works c v set llm works (λ io. update_token_count c io n) s refl,
    record {
      logged = λ g. unfold update_token_count in update_token_count-Logged c n s.context g;
      on_disk = λ h. refl;
      history = refl;
      ids = refl;
      dmails = refl;
    },
  )

  none-Counted : (s : Soul F W c) → Counted s s
  none-Counted s = record {
    logged = λ g. g;
    on_disk = λ h. h;
    history = refl;
    ids = refl;
    dmails = refl;
  }

  record_usage_works :
      (u : Option TokenUsage) (s : Soul F W c)
      → (s' : Soul F W c) × (tokens : Option ℤ) × (record_usage c v set llm u s ≡ (s', ok tokens))
        × Counted s s'
  unfolding record_usage
  record_usage_works none s = (s, none, refl, none-Counted s)
  record_usage_works (some u) s =
      let (e, counted) = count-Counted (input u) s in
      let s' =
        after_context c v set llm works (update_token_count c true (input u) s.context).0 s in
      (s', some s'.context.loaded.token_count, rw (e) refl, counted)

  record_total_works :
      (u : Option TokenUsage) (s : Soul F W c)
      → (s' : Soul F W c) × (record_total c v set llm u s ≡ (s', ok tt)) × Counted s s'
  unfolding record_total
  record_total_works none s = (s, refl, none-Counted s)
  record_total_works (some u) s = let (e, counted) = count-Counted (total u) s in (_, e, counted)

  pub check_messages_works :
      (capabilities : List ModelCapability) (ms : List (Message J)) (s : Soul F W c)
      → (check_messages c v set llm capabilities ms s ≡ (s, ok tt))
        ⊎ ((missing : List ModelCapability) × (check_messages c v set llm capabilities ms s
              ≡ (s, err (llm_not_supported missing))))
  unfolding check_messages
  check_messages_works capabilities [] s = inl refl
  check_messages_works capabilities (m ∷ ms) s = elim (List-cases (check_message m capabilities)) [
    | inl e ↦ rw (e, check_messages) (check_messages_works capabilities ms s)
    | inr (x, xs, e) ↦ inr (x ∷ xs, rw (e, check_messages) refl)
  ]

  abbrev pub Fits : {A : Type 0} → A → Soul F W c → Type 0
  Fits a s = Fit c s.context s.denwa_renji

  -- The assistant's message and its results are appended with the tokens counted between them.
  grow_context-Fits :
      (o : Option Llm) (r : StepResult J) (results : List (ToolResult J)) (s : Soul F W c)
      → Fit c s.context s.denwa_renji
      → Answered (r.message ∷ map tool_result_to_message results)
      → Post c Fits (grow_context c v set llm o r results s)
  unfolding grow_context append_messages
  grow_context-Fits none r results s fit answered = (fit.sound, λ e. cc e)
  grow_context-Fits (some l) r results s fit answered =
      let tools = map tool_result_to_message results in
      let g = fit.sound in
      let s1 : Soul F W c =
        after_context c v set llm works (append_messages c true (r.message ∷ []) s.context).0 s in
      let (s2, e, counted) = record_total_works r.usage s1 in
      let logged = counted.logged (
        append_messages-Logged c (r.message ∷ []) s.context
          (messages-Readable c v set llm works readable (r.message ∷ []))
          (record { synced = g.synced; marks = g.marks })) in
      let logged' =
        append_messages-Logged c tools s2.context
          (messages-Readable c v set llm works readable tools) logged in
      let all : s2.context.loaded.history ++ tools ≡ s.context.loaded.history ++ r.message ∷ tools =
        ap (λ h. h ++ tools) counted.history
        ∙ append_assoc s.context.loaded.history (r.message ∷ []) tools in
      elim (check_messages_works l.capabilities tools s) [
        | inr (missing, lacking) ↦ rw (lacking) (g, λ e. cc e)
        | inl fine ↦
            rw
              (
                fine,
                append_soul_works c v set llm works (r.message ∷ []) s,
                e,
                append_soul_works c v set llm works tools s2,
              )
              (record {
                sound = record {
                  synced = logged'.synced;
                  marks = logged'.marks;
                  now =
                      ap (wanted []) all
                      ∙ append-Answered s.context.loaded.history (r.message ∷ tools) g.now answered;
                };
                on_disk = refl;
                known =
                    ap (λ d. d.n_checkpoints) counted.dmails ∙ fit.known ∙ ap pos (sym counted.ids);
                valid = subst (Pending s2.denwa_renji.pending) (sym counted.ids) (
                    subst (λ d. Pending d.pending s.context.loaded.next_checkpoint_id)
                      (sym counted.dmails) fit.valid);
              })
      ]

  -- How a step ends well.
  abbrev pub Ended : StepEnd J → Soul F W c → Type 0
  Ended goes_on s = Ready c s.context s.denwa_renji
  Ended (stops reason m) s = Ready c s.context s.denwa_renji
  Ended (back_to_the_future id m) s =
      Ready c s.context s.denwa_renji
      × (m.role ≡ user)
      × ((i : ℕ) × (id ≡ pos i) × (i < s.context.loaded.next_checkpoint_id))

  step_end-Ended :
      (p : Option DMail) (r : StepResult J) (calls : List (ToolCall J)) (s : Soul F W c)
      → Ready c s.context s.denwa_renji
      → Pending p s.context.loaded.next_checkpoint_id
      → Ended (step_end c v set llm p r calls) s
  unfolding step_end dmail_message new_message
  step_end-Ended (some m) r calls s ready h = (ready, refl, h)
  step_end-Ended none r [] s ready h = ready
  step_end-Ended none r (_ ∷ _) s ready h = ready

  conclude_step-Ended :
      (rejected : Bool) (p : Option DMail) (r : StepResult J) (s : Soul F W c)
      → Ready c s.context s.denwa_renji
      → Pending p s.context.loaded.next_checkpoint_id
      → Ended (conclude_step c v set llm rejected p r) s
  conclude_step-Ended true p r s ready h = ready
  conclude_step-Ended false p r s ready h = step_end-Ended p r r.tool_calls s ready h

  results-Answered :
      (r : StepResult J) (called : List (ToolCall J)) (results : List (ToolResult J))
      → Handled r called
      → Distinct (call_ids called)
      → tool_results J r.tool_calls r.receivers ≡ some results
      → Answered (r.message ∷ map tool_result_to_message results)
  results-Answered r called results h d e =
      let e' : tool_results J called (dispatch J h.handle called []) ≡ some results =
        ap (tool_results J called) (sym h.receivers)
        ∙ ap (λ x. tool_results J x r.receivers) (sym h.calls)
        ∙ e in
      step-Answered r.message results h.speaker
        (tool_results-ids h.handle called results d e' ∙ ap call_ids (sym h.same))

  pub handle_step_result-Ended :
      (r : StepResult J) (called : List (ToolCall J)) (s : Soul F W c)
      → Handled r called
      → Distinct (call_ids called)
      → Fit c s.context s.denwa_renji
      → Post c Ended (handle_step_result c v set llm r s)
  unfolding handle_step_result send_status wire_send take_dmail fetch_pending_dmail
  handle_step_result-Ended r called s h d fit =
      let (s1, tokens, e, counted) = record_usage_works r.usage s in
      let logged = counted.logged (record { synced = fit.sound.synced; marks = fit.sound.marks }) in
      let sound1 : Sound c s1.context = record {
        synced = logged.synced;
        marks = logged.marks;
        now = ap (wanted []) counted.history ∙ fit.sound.now;
      } in
      let fit1 : Fit c s1.context s1.denwa_renji = record {
        sound = sound1;
        on_disk = counted.on_disk fit.on_disk;
        known = ap (λ d. d.n_checkpoints) counted.dmails ∙ fit.known ∙ ap pos (sym counted.ids);
        valid = subst (Pending s1.denwa_renji.pending) (sym counted.ids) (
            subst (λ d. Pending d.pending s.context.loaded.next_checkpoint_id) (sym counted.dmails)
              fit.valid);
      } in
      let s2 : Soul F W c = record s1 {
        sent = s1.sent ++ status_update (status_of c v set llm tokens r.usage r.id s1) ∷ [];
      } in
      elim (Option-cases (tool_results J r.tool_calls r.receivers)) [
        | inl lost ↦ rw (e, lost) (sound1, λ x. cc x)
        | inr (results, found) ↦
            rw (e, found)
              (next-Post c Fits Ended
                (λ _. take_dmail c v set llm >>= λ dmail.
                  return (conclude_step c v set llm (any_rejected c v set llm results) dmail r))
                (grow_context c v set llm llm r results s2)
                (grow_context-Fits llm r results s2 fit1
                  (results-Answered r called results h d found))
                (λ _ s3 fit3.
                  conclude_step-Ended (any_rejected c v set llm results) s3.denwa_renji.pending r _
                    (record { sound = fit3.sound; on_disk = fit3.on_disk; no_dmail = refl })
                    fit3.valid))
      ]
