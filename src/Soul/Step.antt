-- ===== src/Soul/Step.antt =====
-- server/dvadva-agent/src/soul/kimisoul.rs: one step of a turn, from the request to its end.
use rusty_kimi.Common.{
  ℕ, zero, suc, ◌-◌, ◌||◌, Bool, true, false, List, [], ◌∷◌, ◌++◌, map, Option, none, some,
  if◌then◌else◌,
}
use rusty_kimi.Common.Int.{ℤ, pos, leb_ℤ, ◌+ℤ◌}
use rusty_kimi.Common.Eq.{string_eq}
use rusty_kimi.Message.{Message, ToolCall}
use rusty_kimi.Wire.{TokenUsage}
use rusty_kimi.Generate.{generate}
use rusty_kimi.Context.{Codec, Context, update_token_count}
use rusty_kimi.Soul.DenwaRenji.{DMail, set_n_checkpoints, fetch_pending_dmail}
use rusty_kimi.Soul.Steps.{
  input, total, ToolResult, StepResult, Stepped, stepped, refused, step_of, tool_results,
}
use rusty_kimi.Soul.Results.{
  ModelCapability, check_message, tool_result_to_message, is_tool_rejected,
}
use rusty_kimi.Soul.State.{
  Settings, Llm, Services, llm_not_set, tool_failed, llm_not_supported, provider_failed,
  no_tool_calls, tool_rejected, StepEnd, goes_on, stops, back_to_the_future, ok, M, return, fail,
  ◌>>=◌, ◌>>◌,
}
use rusty_kimi.Soul.Effects.{
  send_status, is_retryable_error, dmail_message, send_dmails, on_context, checkpoint_soul,
  append_soul, compact_context,
}

module _ {J F W : Type 0} (c : Codec J) (v : Services J F W) (set : Settings)
    (llm : Option Llm) where
  -- One request for an answer (`kosong::step`), with what comes in beside it.
  unfoldable pub request_step : M F W c (Stepped J)
  unfolding step_of generate send_dmails
  request_step s =
      let history = s.context.loaded.history in
      let (w, reply) = v.respond history s.world in
      (
        record s {
          world = w;
          steers = s.steers ++ reply.steers;
          denwa_renji = send_dmails reply.dmails s.denwa_renji;
        },
        ok (step_of J reply.handle reply.usage reply.id (generate reply.refusal reply.stream)),
      )

  abbrev pub retry_step : M F W c (StepResult J) → Stepped J → M F W c (StepResult J)
  retry_step again (stepped r) = return r
  retry_step again (refused e) = if is_retryable_error e then again else fail (provider_failed e)

  abbrev pub last_step : Stepped J → M F W c (StepResult J)
  last_step (stepped r) = return r
  last_step (refused e) = fail (provider_failed e)

  -- The loop of `step`, with the number of retries that are left.
  unfoldable pub answered_step : ℕ → M F W c (StepResult J)
  unfolding request_step is_retryable_error
  answered_step zero = request_step >>= last_step
  answered_step (suc more) = let again = answered_step more in request_step >>= retry_step again

  -- The bookkeeping at the start of `handle_step_result`; its error is only logged.
  unfoldable pub record_usage : Option TokenUsage → M F W c (Option ℤ)
  unfolding on_context input
  record_usage none s = (s, ok none)
  record_usage (some u) s =
      let (s', _) = on_context c v set llm (λ io. update_token_count c io (input u)) s in
      (s', ok (some s'.context.loaded.token_count))

  -- The first message that the model does not support ends the turn.
  unfoldable pub check_messages : List ModelCapability → List (Message J) → M F W c (Unit {0})
  unfolding check_message
  check_messages capabilities [] = return tt
  check_messages capabilities (m ∷ ms) = elim (check_message m capabilities) [
    | [] ↦ check_messages capabilities ms
    | x ∷ missing ↦ fail (llm_not_supported (x ∷ missing))
  ]

  unfoldable pub record_total : Option TokenUsage → M F W c (Unit {0})
  unfolding on_context total
  record_total none = return tt
  record_total (some u) = on_context c v set llm (λ io. update_token_count c io (total u))

  unfoldable pub grow_context : Option Llm → StepResult J → List (ToolResult J) → M F W c (Unit {0})
  unfolding check_messages append_soul tool_result_to_message record_total
  grow_context none r results = fail llm_not_set
  grow_context (some l) r results =
      let tool_messages = map tool_result_to_message results in
      do
        check_messages l.capabilities tool_messages
        append_soul c v set llm (r.message ∷ [])
        record_total r.usage
        append_soul c v set llm tool_messages

  abbrev pub all_results : Option (List (ToolResult J)) → M F W c (List (ToolResult J))
  all_results none = fail tool_failed
  all_results (some results) = return results

  unfoldable pub any_rejected : List (ToolResult J) → Bool
  unfolding is_tool_rejected
  any_rejected [] = false
  any_rejected (r ∷ rs) = is_tool_rejected r.return_value || any_rejected rs

  unfoldable pub take_dmail : M F W c (Option DMail)
  unfolding fetch_pending_dmail
  take_dmail s =
      let (d, dmail) = fetch_pending_dmail s.denwa_renji in (record s { denwa_renji = d }, ok dmail)

  -- What the step comes to when no result was rejected.
  unfoldable pub step_end : Option DMail → StepResult J → List (ToolCall J) → StepEnd J
  unfolding dmail_message
  step_end (some dmail) r calls =
      back_to_the_future dmail.checkpoint_id (dmail_message dmail.message)
  step_end none r [] = stops no_tool_calls r.message
  step_end none r (_ ∷ _) = goes_on

  abbrev pub conclude_step : Bool → Option DMail → StepResult J → StepEnd J
  conclude_step true dmail r = stops tool_rejected r.message
  conclude_step false dmail r = step_end dmail r r.tool_calls

  unfoldable pub handle_step_result : StepResult J → M F W c (StepEnd J)
  unfolding record_usage send_status tool_results grow_context any_rejected take_dmail step_end
  handle_step_result r = do
    context_tokens ← record_usage r.usage
    send_status c v set llm context_tokens r.usage r.id
    results ← all_results (tool_results J r.tool_calls r.receivers)
    grow_context llm r results
    dmail ← take_dmail
    return (conclude_step (any_rejected results) dmail r)

  unfoldable pub step : Option Llm → M F W c (StepEnd J)
  unfolding answered_step handle_step_result
  step none = fail llm_not_set
  step (some _) = answered_step (set.max_retries_per_step - 1) >>= handle_step_result

  -- Is the context too long for another step?
  unfoldable pub too_long : Option Llm → Context c → Bool
  unfolding ◌+ℤ◌
  too_long none k = false
  too_long (some l) k = leb_ℤ l.max_context_size (k.loaded.token_count +ℤ set.reserved_context_size)

  unfoldable pub compact_if_long : M F W c (Unit {0})
  unfolding too_long compact_context
  compact_if_long s =
      (if too_long llm s.context then compact_context c v set llm llm else return tt) s

  unfoldable pub set_checkpoints : M F W c (Unit {0})
  unfolding set_n_checkpoints
  set_checkpoints s = (
    record s {
      denwa_renji = set_n_checkpoints (pos s.context.loaded.next_checkpoint_id) s.denwa_renji;
    },
    ok tt,
  )

  -- The body of `agent_loop`'s inner block.
  unfoldable pub one_step : M F W c (StepEnd J)
  unfolding compact_if_long checkpoint_soul set_checkpoints step
  one_step = do compact_if_long; checkpoint_soul c v set llm; set_checkpoints; step llm
