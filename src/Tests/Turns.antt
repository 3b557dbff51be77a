-- ===== src/Tests/Turns.antt =====
-- A turn in which the model calls a tool, then answers, and one that a D-mail takes back.
use rusty_kimi.Common.{
  map, ℕ, zero, suc, ◌+◌, ◌≡◌, refl, String, true, false, [], ◌∷◌, Option, none, some,
}
use rusty_kimi.Common.Int.{pos}
use rusty_kimi.Common.Eq.{elem}
use rusty_kimi.Message.{user, assistant, new as new_message, ToolCall, content, tool_call, text}
use rusty_kimi.Tooling.{ToolReturnValue, plain}
use rusty_kimi.Generate.{Stream, end, next, timeout, generate}
use rusty_kimi.Context.{new as new_context, checkpoint, revert_to}
use rusty_kimi.Compaction.Compact.{refused}
use rusty_kimi.Soul.DenwaRenji.{DMail, new as new_denwa_renji}
use rusty_kimi.Soul.State.{Settings, Llm, Reply, Services, TurnOutcome, Result, ok, err, Soul}
use rusty_kimi.Soul.Answers.{wanted, Distinct, call_ids}
use rusty_kimi.Soul.Marks.{Sound}
use rusty_kimi.Soul.Fit.{Post}
use rusty_kimi.Soul.Stepping.{DistinctCalls}
use rusty_kimi.Soul.Turn.{turn}
use rusty_kimi.Soul.Turns.{Within, turn-Within}
use rusty_kimi.Tests.Conversations.{parsed_lines, question}

abbrev pub listing : ToolCall String
listing = record { id = "call"; name = "Shell"; arguments = none; extras = none }

abbrev pub listed : ToolReturnValue String
listed = record {
  is_error = false;
  output = plain (108 ∷ 115 ∷ []);
  message = [];
  display = [];
  extras = none;
}

abbrev reply_of : Stream String → Reply String
reply_of stream = record {
  refusal = none;
  stream = stream;
  usage = none;
  id = none;
  handle = λ c. some listed;
  steers = [];
  dmails = [];
}

-- The world counts the requests.
abbrev reply_at : ℕ → Reply String
reply_at zero = reply_of (next (tool_call listing) end)
reply_at (suc n) = reply_of (next (content (text (111 ∷ 107 ∷ []))) end)

abbrev pub services : Services String (Unit {0}) ℕ
services = record {
  disk = λ w. (w, true);
  respond = λ history w. (w + 1, reply_at w);
  summarise = λ w. (w, λ m. refused timeout);
  runtime = λ w. record { model_name = "model"; yolo_enabled = false; thinking = none };
  ratio = λ tokens limit. tt;
}

abbrev pub limits : Settings
limits = record {
  max_steps_per_turn = 3;
  max_retries_per_step = 1;
  reserved_context_size = pos 1000;
  max_preserved_messages = 2;
  compact_prompt = [];
  checkpoint_with_user_message = false;
}

abbrev pub model : Option Llm
model = some (record { max_context_size = pos 200000; capabilities = [] })

abbrev pub fresh : Soul (Unit {0}) ℕ parsed_lines
fresh = record {
  context = new_context parsed_lines none;
  steers = [];
  denwa_renji = new_denwa_renji;
  sent = [];
  world = 0;
}

pub fresh-Sound : Sound parsed_lines fresh.context
unfolding new_context wanted
fresh-Sound = record { synced = record { log = refl }; marks = tt; now = refl }

reply_at-Distinct :
    (w : ℕ) → Distinct (call_ids (generate (reply_at w).refusal (reply_at w).stream).1.called)
unfolding generate elem
reply_at-Distinct zero = (refl, tt)
reply_at-Distinct (suc n) = tt

pub services-DistinctCalls : DistinctCalls services
services-DistinctCalls history w = reply_at-Distinct w

abbrev steps_of : Result (TurnOutcome String) → ℕ
steps_of (ok o) = o.step_count
steps_of (err e) = 0

-- A step for the call, and one for the answer.
two_steps : steps_of (turn parsed_lines services limits model question fresh).1 ≡ 2
unfolding turn new_context checkpoint
two_steps = refl

-- The first tool sends a D-mail to the checkpoint before its step.
abbrev warning : DMail
warning = record { message = 110 ∷ 111 ∷ []; checkpoint_id = pos 1 }

abbrev warned_at : ℕ → Reply String
warned_at zero = record (reply_at zero) { dmails = warning ∷ [] }
warned_at (suc n) = reply_at (suc n)

abbrev warning_services : Services String (Unit {0}) ℕ
warning_services = record services { respond = λ history w. (w + 1, warned_at w) }

-- The call and its result are gone; the D-mail and the answer follow the question.
went_back :
    map
      (λ m. m.role)
      (turn parsed_lines warning_services limits model question fresh).0.context.loaded.history
    ≡ user ∷ user ∷ assistant ∷ []
unfolding turn new_context checkpoint new_message revert_to
went_back = refl

turn-Within_example :
    Post parsed_lines
      (Within parsed_lines services limits model (λ w. refl) (λ m. refl) services-DistinctCalls 0 3)
      (turn parsed_lines services limits model question fresh)
turn-Within_example =
    turn-Within parsed_lines services limits model (λ w. refl) (λ m. refl) services-DistinctCalls
      question fresh refl fresh-Sound refl
