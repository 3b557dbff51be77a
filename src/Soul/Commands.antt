-- ===== src/Soul/Commands.antt =====
-- server/dvadva-agent/src/soul/kimisoul.rs: the slash commands that shorten, empty or extend the
-- conversation (`slash_compact`, `slash_clear`, `run_skill`). The text of a skill is read from a
-- file: `none`, if it cannot be.
use rusty_kimi.Common.{
  ◌≡◌, refl, ap, true, false, List, [], ◌∷◌, ◌++◌, Option, none, some, is_some, ◌==◌, if◌then◌else◌,
  Bool-cases, inl, inr, arith,
}
use rusty_kimi.Common.Chars.{codes, trim}
use rusty_kimi.Message.{Text, Message, user, text, new as new_message}
use rusty_kimi.Wire.{content_part}
use rusty_kimi.Context.{Codec, Loaded, cleared, lines, clear}
use rusty_kimi.Context.Replay.{Readable, Log}
use rusty_kimi.Soul.State.{Settings, Llm, Services, Soul, M, return, ◌>>=◌, ◌>>◌, wire_send}
use rusty_kimi.Soul.Fit.{Ready, Readies, Post, next-Post}
use rusty_kimi.Soul.Compacting.{compact_context-Ready}
use rusty_kimi.Soul.Stepping.{DistinctCalls}
use rusty_kimi.Soul.Effects.{on_context, compact_context, send_status}
use rusty_kimi.Soul.Turn.{turn}
use rusty_kimi.Soul.Turns.{Within, turn-Within}
use rusty_kimi.Soul.FlowRuns.{Calm}

module _ {J F W : Type 0} (c : Codec J) (v : Services J F W) (set : Settings)
    (llm : Option Llm) where
  unfoldable pub say : Text → M F W c (Unit {0})
  unfolding wire_send
  say t = wire_send (content_part (text t))

  unfoldable pub slash_compact : M F W c (Unit {0})
  unfolding say compact_context send_status
  slash_compact s =
      if s.context.loaded.next_checkpoint_id == 0
      then say (codes "The context is empty.") s
      else (compact_context c v set llm llm
            >> (say (codes "The context has been compacted.")
                >> send_status c v set llm none none none))
          s

  unfoldable pub slash_clear : M F W c (Unit {0})
  unfolding say on_context send_status
  slash_clear = do
    on_context c v set llm (λ io. clear c io)
    say (codes "The context has been cleared.")
    send_status c v set llm none none none

  abbrev pub with_request : Text → Text → Text
  with_request skill_text [] = skill_text
  with_request skill_text (x ∷ xs) =
      skill_text ++ (10 ∷ 10 ∷ codes "User request:" ++ (10 ∷ x ∷ xs))

  -- `name` is the skill's.
  unfoldable pub run_skill : Text → Option Text → Text → M F W c (Unit {0})
  unfolding say turn trim new_message
  run_skill name none args = say (codes "Failed to load skill \"/skill:" ++ (name ++ codes "\"."))
  run_skill name (some skill_text) args = do
    outcome ← turn c v set llm (new_message user (text (with_request skill_text (trim args)) ∷ []))
    return tt

module _ {J F W : Type 0} (c : Codec J) (v : Services J F W) (set : Settings) (llm : Option Llm)
    (works : (w : W) → (v.disk w).1 ≡ true) (readable : (m : Message J) → Readable c m)
    (distinct : DistinctCalls v) where
  -- A log in which a checkpoint was made is a file.
  counted_file :
      (file : Option (List c.L)) (l : Loaded J)
      → Log c (lines c file) cleared l
      → (l.next_checkpoint_id == 0) ≡ false
      → is_some file ≡ true
  counted_file none l log some_id = ground (arith, ap (λ x. x.next_checkpoint_id) log, some_id)
  counted_file (some ls) l log some_id = refl

  abbrev pub Calms : {A : Type 0} → A → Soul F W c → Type 0
  Calms a s = Calm c v set llm works readable distinct s

  -- For a disk that works, a log that reads every message back as it was written, and a soul whose
  -- log says what is in memory, with every tool call answered now and at each checkpoint, and no
  -- D-mail waiting: a compaction that the user asks for leaves the soul so, and its error, if it ends
  -- in one, is none of the context (so there is a file to clear when there is a checkpoint).
  pub slash_compact-Calm :
      (s : Soul F W c)
      → Calm c v set llm works readable distinct s
      → Post c Calms (slash_compact c v set llm s)
  unfolding slash_compact say send_status wire_send
  slash_compact-Calm s calm = elim (Bool-cases (s.context.loaded.next_checkpoint_id == 0)) [
    | inl empty ↦ rw (empty) (record { sound = calm.sound; no_dmail = calm.no_dmail })
    | inr made ↦
        let ready : Ready c s.context s.denwa_renji = record {
          sound = calm.sound;
          on_disk = counted_file s.context.file s.context.loaded calm.sound.synced.log made;
          no_dmail = calm.no_dmail;
        } in
        rw (made) (
          next-Post c (Readies c) Calms
            (λ _.
              say c v set llm (codes "The context has been compacted.")
              >> send_status c v set llm none none none)
            (compact_context c v set llm llm s)
            (compact_context-Ready c v set llm works readable llm s ready)
            (λ _ s' ready'. record { sound = ready'.sound; no_dmail = ready'.no_dmail }))
  ]

  -- A skill's turn leaves every tool call answered.
  pub run_skill-Calm :
      (name args : Text) (skill_text : Option Text) (s : Soul F W c)
      → Calm c v set llm works readable distinct s
      → Post c Calms (run_skill c v set llm name skill_text args s)
  unfolding run_skill say wire_send
  run_skill-Calm name args none s calm = record { sound = calm.sound; no_dmail = calm.no_dmail }
  run_skill-Calm name args (some t) s calm =
      let m = new_message user (text (with_request c v set llm t (trim args)) ∷ []) in
      next-Post c (Within c v set llm works readable distinct 0 set.max_steps_per_turn) Calms
        (λ _. return tt) (turn c v set llm m s)
        (turn-Within c v set llm works readable distinct m s (unfold new_message in refl) calm.sound
          calm.no_dmail)
        (λ o s' (ready, low, high). record { sound = ready.sound; no_dmail = ready.no_dmail })
