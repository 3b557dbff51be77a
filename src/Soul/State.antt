-- ===== src/Soul/State.antt =====
-- server/dvadva-agent/src/soul/kimisoul.rs: what a turn works on and how it fails.
-- `W` is the world outside. From it come, in order, whether a file operation succeeds (`disk`), the
-- answers of the model and what happens while it answers and its tools run (`respond`: the steers
-- that come in and the D-mails that tools send), and the model's answers to a compaction
-- (`summarise`); `runtime` is the part of the runtime that is shown and `ratio` the division of
-- floating-point numbers. `sent` is what the soul itself sends to the wire: the fragments and tool results
-- that the task beside `step` forwards and the approvals are left out.
use rusty_kimi.Common.{ℕ, String, Bool, List, [], ◌∷◌, ◌++◌, Option}
use rusty_kimi.Common.Int.{ℤ}
use rusty_kimi.Message.{Text, Message, ToolCall}
use rusty_kimi.Tooling.{ToolReturnValue}
use rusty_kimi.Wire.{UserInput, TokenUsage, WireMessage}
use rusty_kimi.Generate.{ErrorKind, Stream}
use rusty_kimi.Context.{Codec, Context}
use rusty_kimi.Compaction.Compact.{Answer}
use rusty_kimi.Soul.DenwaRenji.{DMail, DenwaRenji}
use rusty_kimi.Soul.Results.{ModelCapability}

-- The limits of config.rs's LoopControl, what SimpleCompaction is made with, and
-- `checkpoint_with_user_message`.
pub record Settings : Type 0 where
  pub max_steps_per_turn : ℕ
  pub max_retries_per_step : ℕ
  pub reserved_context_size : ℤ
  pub max_preserved_messages : ℕ
  pub compact_prompt : Text
  pub checkpoint_with_user_message : Bool

pub record Llm : Type 0 where
  pub max_context_size : ℤ
  pub capabilities : List ModelCapability

-- One answer to a request: an error of the request, or what streams in, with the provider's id and
-- usage, and what each tool call comes to.
pub record Reply (J : Type 0) : Type 0 where
  pub refusal : Option ErrorKind
  pub stream : Stream J
  pub usage : Option TokenUsage
  pub id : Option String
  pub handle : ToolCall J → Option (ToolReturnValue J)
  pub steers : List UserInput
  pub dmails : List DMail

-- What a status event tells of the runtime.
pub record Runtime : Type 0 where
  pub model_name : String
  pub yolo_enabled : Bool
  pub thinking : Option Bool

pub record Services (J F W : Type 0) : Type 0 where
  pub disk : W → W × Bool
  pub respond : List (Message J) → W → W × Reply J
  pub summarise : W → W × (Message J → Answer ErrorKind)
  pub runtime : W → Runtime
  pub ratio : ℤ → ℤ → F

pub data TurnError : Type 0 where
  llm_not_set context_failed tool_failed : TurnError
  llm_not_supported : List ModelCapability → TurnError
  max_steps_reached : ℕ → TurnError
  provider_failed : ErrorKind → TurnError

pub data StopReason : Type 0 where
  no_tool_calls tool_rejected : StopReason

pub record TurnOutcome (J : Type 0) : Type 0 where
  pub stop_reason : StopReason
  pub final_message : Option (Message J)
  pub step_count : ℕ

-- How a step ends, but for its other errors: without a stop reason, with one, or with a D-mail
-- (`BackToTheFuture`).
pub data StepEnd (J : Type 0) : Type 0 where
  goes_on : StepEnd J
  stops : StopReason → (assistant_message : Message J) → StepEnd J
  back_to_the_future : (checkpoint_id : ℤ) → Message J → StepEnd J

pub data Result (A : Type 0) : Type 0 where
  ok : A → Result A
  err : TurnError → Result A

module _ {J : Type 0} (F W : Type 0) (c : Codec J) where
  pub record Soul : Type 0 where
    pub context : Context c
    pub steers : List UserInput
    pub denwa_renji : DenwaRenji
    pub sent : List (WireMessage J F)
    pub world : W

-- A computation on a soul that may end in an error.
abbrev pub M : {J : Type 0} → (F W : Type 0) → Codec J → Type 0 → Type 0
M F W c A = Soul F W c → Soul F W c × Result A

module _ {J F W : Type 0} {c : Codec J} where
  abbrev pub return : {A : Type 0} → A → M F W c A
  return a s = (s, ok a)

  abbrev pub fail : {A : Type 0} → TurnError → M F W c A
  fail e s = (s, err e)

  abbrev pub next : {A B : Type 0} → (A → M F W c B) → Soul F W c × Result A → Soul F W c × Result B
  next k (s, ok a) = k a s
  next k (s, err e) = (s, err e)

  infixl 5 ◌>>=◌
  abbrev pub ◌>>=◌ : {A B : Type 0} → M F W c A → (A → M F W c B) → M F W c B
  ◌>>=◌ m k s = next k (m s)

  infixl 5 ◌>>◌
  abbrev pub ◌>>◌ : {B : Type 0} → M F W c (Unit {0}) → M F W c B → M F W c B
  m >> k = m >>= λ _. k

  unfoldable pub wire_send : WireMessage J F → M F W c (Unit {0})
  wire_send message s = (record s { sent = s.sent ++ message ∷ [] }, ok tt)
