-- ===== src/Soul/Turn.antt =====
-- server/dvadva-agent/src/soul/kimisoul.rs: a turn of the agent, from the user's message to the
-- answer without tool calls.
use rusty_kimi.Common.{ℕ, zero, suc, ◌+◌, [], ◌∷◌, Option, none, some, if◌then◌else◌}
use rusty_kimi.Common.Int.{pos}
use rusty_kimi.Common.Eq.{string_eq}
use rusty_kimi.Message.{Message}
use rusty_kimi.Wire.{step_begin, step_interrupted}
use rusty_kimi.Context.{Codec}
use rusty_kimi.Soul.State.{
  Settings, Llm, Services, llm_not_set, max_steps_reached, StopReason, no_tool_calls, tool_rejected,
  TurnOutcome, StepEnd, goes_on, stops, back_to_the_future, Result, ok, err, Soul, M, return, fail,
  ◌>>=◌, ◌>>◌, wire_send,
}
use rusty_kimi.Soul.Effects.{
  checkpoint_soul, append_soul, revert_soul, clear_pending_steers, consume_pending_steers,
}
use rusty_kimi.Soul.Step.{check_messages, one_step}

module _ {J F W : Type 0} (c : Codec J) (v : Services J F W) (set : Settings)
    (llm : Option Llm) where
  -- An error of the step is reported before it ends the turn.
  unfoldable pub report : Soul F W c × Result (StepEnd J) → Soul F W c × Result (StepEnd J)
  unfolding wire_send
  report (s, ok e) = (s, ok e)
  report (s, err e) = (wire_send step_interrupted >>= λ _. fail e) s

  unfoldable pub interruptible : M F W c (StepEnd J)
  unfolding one_step report
  interruptible s = report (one_step c v set llm s)

  abbrev pub final_message : StopReason → Message J → Option (Message J)
  final_message no_tool_calls m = some m
  final_message tool_rejected m = none

  abbrev pub outcome_of : ℕ → StopReason → Message J → TurnOutcome J
  outcome_of n reason m = record {
    stop_reason = reason;
    final_message = final_message reason m;
    step_count = n;
  }

  -- What follows step `n`; `rest` is the loop's next round.
  unfoldable pub after_step : ℕ → M F W c (TurnOutcome J) → StepEnd J → M F W c (TurnOutcome J)
  unfolding consume_pending_steers revert_soul checkpoint_soul append_soul
  after_step n rest goes_on = do steered ← consume_pending_steers c v set llm; rest
  after_step n rest (stops reason m) = do
    steered ← consume_pending_steers c v set llm
    if steered then rest else return (outcome_of n reason m)
  after_step n rest (back_to_the_future id m) = do
    revert_soul c v set llm id
    checkpoint_soul c v set llm
    append_soul c v set llm (m ∷ [])
    steered ← consume_pending_steers c v set llm
    rest

  -- The loop after `n` steps, with the number of steps that are left.
  unfoldable pub agent_loop : ℕ → ℕ → M F W c (TurnOutcome J)
  unfolding interruptible after_step wire_send
  agent_loop zero n = fail (max_steps_reached set.max_steps_per_turn)
  agent_loop (suc left) n =
      let rest = agent_loop left (n + 1) in
      do wire_send (step_begin (pos (n + 1))); end ← interruptible; after_step (n + 1) rest end

  unfoldable pub turn_with : Option Llm → Message J → M F W c (TurnOutcome J)
  unfolding check_messages checkpoint_soul append_soul agent_loop
  turn_with none m = fail llm_not_set
  turn_with (some l) m = do
    check_messages c v set llm l.capabilities (m ∷ [])
    checkpoint_soul c v set llm
    append_soul c v set llm (m ∷ [])
    agent_loop set.max_steps_per_turn 0

  unfoldable pub turn : Message J → M F W c (TurnOutcome J)
  unfolding clear_pending_steers turn_with
  turn m = do clear_pending_steers c v set llm; turn_with llm m
