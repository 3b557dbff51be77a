-- ===== src/Soul/Turns.antt =====
-- A turn keeps every tool call answered, however it ends.
use rusty_kimi.Common.{
  ℕ, zero, suc, ◌+◌, ◌≤◌, ◌<◌, ◌≡◌, refl, Bool, true, false, List, [], ◌∷◌, ◌++◌, Option, none,
  some, arith, inl, inr, if◌then◌else◌,
}
use rusty_kimi.Common.Int.{pos}
use rusty_kimi.Message.{Message, user, new as new_message}
use rusty_kimi.Wire.{UserInput, plain, parts, step_begin, steer_input}
use rusty_kimi.Context.{Codec, append_messages, checkpoint, revert_to}
use rusty_kimi.Context.Replay.{Readable}
use rusty_kimi.Soul.State.{
  Settings, Llm, Services, TurnOutcome, StepEnd, goes_on, stops, back_to_the_future, StopReason,
  Result, ok, err, Soul, M, return, ◌>>=◌, wire_send,
}
use rusty_kimi.Soul.Answers.{users-Answered}
use rusty_kimi.Soul.Marks.{Sound, append_messages-Sound, checkpoint-Sound, revert_to-Sound}
use rusty_kimi.Soul.Fit.{
  Ready, Readies, Post, next-Post, after_context, on_context_works, append_soul_works,
  checkpoint_soul_works, checkpoint-on_disk,
}
use rusty_kimi.Soul.Handling.{Ended, check_messages_works}
use rusty_kimi.Soul.Stepping.{DistinctCalls, one_step-Ended}
use rusty_kimi.Soul.Effects.{
  input_message, revert_soul, inject, any_steer, consume_pending_steers, clear_pending_steers,
}
use rusty_kimi.Soul.Step.{one_step}
use rusty_kimi.Soul.Turn.{
  report, interruptible, after_step, outcome_of, agent_loop, turn_with, turn,
}

module _ {J F W : Type 0} (c : Codec J) (v : Services J F W) (set : Settings) (llm : Option Llm)
    (works : (w : W) → (v.disk w).1 ≡ true) (readable : (m : Message J) → Readable c m)
    (distinct : DistinctCalls v) where
  -- A user's message appended to a conversation in which nothing waits.
  append-Ready :
      (m : Message J) (s : Soul F W c)
      → m.role ≡ user
      → Ready c s.context s.denwa_renji
      → Ready c (append_messages c true (m ∷ []) s.context).0 s.denwa_renji
  unfolding append_messages
  append-Ready m s h ready = record {
    sound =
        append_messages-Sound c (m ∷ []) s.context (readable m, tt) ready.sound
          (users-Answered m h);
    on_disk = refl;
    no_dmail = ready.no_dmail;
  }

  checkpoint-Ready :
      (s : Soul F W c)
      → Sound c s.context
      → s.denwa_renji.pending ≡ none
      → Ready c (checkpoint c true set.checkpoint_with_user_message s.context).0 s.denwa_renji
  checkpoint-Ready s sound clear = record {
    sound = checkpoint-Sound c set.checkpoint_with_user_message s.context readable sound;
    on_disk = checkpoint-on_disk c v set llm works set.checkpoint_with_user_message s.context;
    no_dmail = clear;
  }

  pub input-user : (i : UserInput) → (input_message {J = J} i).role ≡ user
  unfolding new_message
  input-user (plain t) = refl
  input-user (parts ps) = refl

  inject-Ready :
      (is : List UserInput) (s : Soul F W c)
      → Ready c s.context s.denwa_renji
      → Post c (Readies c) (inject c v set llm is s)
  unfolding inject wire_send
  inject-Ready [] s ready = ready
  inject-Ready (i ∷ is) s ready =
      let m = input_message i in
      let s1 : Soul F W c =
        after_context c v set llm works (append_messages c true (m ∷ []) s.context).0 s in
      rw (append_soul_works c v set llm works (m ∷ []) s) (
        inject-Ready is (record s1 { sent = s1.sent ++ steer_input i ∷ [] })
          (append-Ready m s (input-user i) ready))

  consume-Ready :
      (s : Soul F W c)
      → Ready c s.context s.denwa_renji
      → Post c (Readies c) (consume_pending_steers c v set llm s)
  unfolding consume_pending_steers
  consume-Ready s ready =
      let s1 : Soul F W c = record s { steers = [] } in
      next-Post c (Readies c) (Readies c) (λ _. return (any_steer c v set llm s.steers))
        (inject c v set llm s.steers s1) (inject-Ready s.steers s1 ready) (λ _ s2 ready2. ready2)

  -- Steers, and then `k`.
  consumed-Post :
      {B : Type 0} (Q : B → Soul F W c → Type 0) (k : Bool → M F W c B) (s : Soul F W c)
      → Ready c s.context s.denwa_renji
      → ((b : Bool) (s' : Soul F W c) → Ready c s'.context s'.denwa_renji → Post c Q (k b s'))
      → Post c Q ((consume_pending_steers c v set llm >>= k) s)
  consumed-Post Q k s ready f =
      next-Post c (Readies c) Q k (consume_pending_steers c v set llm s) (consume-Ready s ready) f

  module _ (Q : TurnOutcome J → Soul F W c → Type 0) (n : ℕ) (rest : M F W c (TurnOutcome J))
      (goes : (s : Soul F W c) → Ready c s.context s.denwa_renji → Post c Q (rest s))
      (ends : (reason : StopReason) (m : Message J) (s : Soul F W c)
        → Ready c s.context s.denwa_renji
        → Q (outcome_of c v set llm n reason m) s) where
    stopped-Post :
        (reason : StopReason) (m : Message J) (b : Bool) (s : Soul F W c)
        → Ready c s.context s.denwa_renji
        → Post c Q ((if b then rest else return (outcome_of c v set llm n reason m)) s)
    stopped-Post reason m true s ready = goes s ready
    stopped-Post reason m false s ready = ends reason m s ready

    after_step-Post :
        (e : StepEnd J) (s : Soul F W c)
        → Ended c v set llm works readable e s
        → Post c Q (after_step c v set llm n rest e s)
    unfolding after_step revert_soul
    after_step-Post goes_on s ready = consumed-Post Q (λ _. rest) s ready (λ _. goes)
    after_step-Post (stops reason m) s ready =
        consumed-Post Q (λ b. if b then rest else return (outcome_of c v set llm n reason m)) s
          ready (stopped-Post reason m)
    after_step-Post (back_to_the_future id m) s (ready, role, (i, at, known)) =
        let (sound, reverted, on_disk) =
          revert_to-Sound c i s.context known ready.on_disk ready.sound in
        let s1 : Soul F W c = after_context c v set llm works (revert_to c true i s.context).0 s in
        let s2 : Soul F W c =
          after_context c v set llm works
            (checkpoint c true set.checkpoint_with_user_message s1.context).0 s1 in
        let s3 : Soul F W c =
          after_context c v set llm works (append_messages c true (m ∷ []) s2.context).0 s2 in
        rw
          (
            at,
            on_context_works c v set llm works (λ io. revert_to c io i) s reverted,
            checkpoint_soul_works c v set llm works s1,
            append_soul_works c v set llm works (m ∷ []) s2,
          )
          (consumed-Post Q (λ _. rest) s3
            (append-Ready m s2 role (checkpoint-Ready s1 sound ready.no_dmail)) (λ _. goes))

  report-Ended :
      (x : Soul F W c × Result (StepEnd J))
      → Post c (Ended c v set llm works readable) x
      → Post c (Ended c v set llm works readable) (report c v set llm x)
  unfolding report wire_send
  report-Ended (s, ok e) h = h
  report-Ended (s, err e) h = h

  -- A conversation with every call answered, after no more steps than there may be.
  abbrev pub Within : ℕ → ℕ → TurnOutcome J → Soul F W c → Type 0
  Within lo hi o s = Ready c s.context s.denwa_renji × (lo < o.step_count) × (o.step_count ≤ hi)

  weaker :
      (n hi : ℕ) (x : Soul F W c × Result (TurnOutcome J))
      → Post c (Within (n + 1) hi) x
      → Post c (Within n hi) x
  weaker n hi (s, ok o) (sound, low, high) = (sound, omega (arith, low), high)
  weaker n hi (s, err e) h = h

  agent_loop-Within :
      (left n hi : ℕ) (s : Soul F W c)
      → n + left ≡ hi
      → Ready c s.context s.denwa_renji
      → Post c (Within n hi) (agent_loop c v set llm left n s)
  unfolding agent_loop interruptible wire_send
  agent_loop-Within zero n hi s e ready = (ready.sound, λ x. cc x)
  agent_loop-Within (suc left) n hi s e ready =
      let s1 : Soul F W c = record s { sent = s.sent ++ step_begin (pos (n + 1)) ∷ [] } in
      let rest = agent_loop c v set llm left (n + 1) in
      let Q = Within n hi in
      next-Post c (Ended c v set llm works readable) Q (after_step c v set llm (n + 1) rest)
        (report c v set llm (one_step c v set llm s1))
        (report-Ended (one_step c v set llm s1)
          (one_step-Ended c v set llm works readable distinct s1 ready))
        (after_step-Post Q (n + 1) rest
          (λ s2 ready2.
            weaker n hi (rest s2) (agent_loop-Within left (n + 1) hi s2 (omega (arith, e)) ready2))
          (λ reason m s2 ready2. (ready2, omega arith, omega (arith, e))))

  turn_with-Within :
      (o : Option Llm) (m : Message J) (s : Soul F W c)
      → m.role ≡ user
      → Sound c s.context
      → s.denwa_renji.pending ≡ none
      → Post c (Within 0 set.max_steps_per_turn) (turn_with c v set llm o m s)
  unfolding turn_with
  turn_with-Within none m s role sound clear = (sound, λ e. cc e)
  turn_with-Within (some l) m s role sound clear =
      let s1 : Soul F W c =
        after_context c v set llm works
          (checkpoint c true set.checkpoint_with_user_message s.context).0 s in
      let s2 : Soul F W c =
        after_context c v set llm works (append_messages c true (m ∷ []) s1.context).0 s1 in
      elim (check_messages_works c v set llm works readable l.capabilities (m ∷ []) s) [
        | inr (missing, lacking) ↦ rw (lacking) (sound, λ e. cc e)
        | inl fine ↦
            rw
              (
                fine,
                checkpoint_soul_works c v set llm works s,
                append_soul_works c v set llm works (m ∷ []) s1,
              )
              (agent_loop-Within set.max_steps_per_turn 0 set.max_steps_per_turn s2 (omega arith)
                (append-Ready m s1 role (checkpoint-Ready s sound clear)))
      ]

  -- For a disk that works, a log that reads every message back as it was written, a model none of
  -- whose answers has two calls of the same id, a user's message, and a soul whose log says what is
  -- in memory, with every tool call answered now and at each checkpoint, and no D-mail waiting: when
  -- the turn is over, the log says again what is in memory, with every call answered now and at each
  -- checkpoint. If the turn ends in an error, it is not one of the context, so every checkpoint that
  -- a D-mail asks for is there; if it ends well, no D-mail waits, and it took at least one step and at
  -- most max_steps_per_turn.
  pub turn-Within :
      (m : Message J) (s : Soul F W c)
      → m.role ≡ user
      → Sound c s.context
      → s.denwa_renji.pending ≡ none
      → Post c (Within 0 set.max_steps_per_turn) (turn c v set llm m s)
  unfolding turn clear_pending_steers
  turn-Within m s role sound clear =
      turn_with-Within llm m (record s { steers = [] }) role sound clear
