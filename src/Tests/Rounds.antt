-- ===== src/Tests/Rounds.antt =====
-- A prompt that is repeated until the agent chooses to stop, and the parts of a flow's run.
use rusty_kimi.Common.{
  ℕ, arith, ◌+◌, ◌*◌, ◌≡◌, ◌≢◌, ◌⊎◌, refl, String, List, [], ◌∷◌, ◌++◌, map, some,
}
use rusty_kimi.Common.Int.{pos}
use rusty_kimi.Common.Chars.{codes, trim}
use rusty_kimi.Common.Eq.{elem}
use rusty_kimi.Common.Dict.{lookup, insert, remove}
use rusty_kimi.Message.{ToolCall}
use rusty_kimi.Context.{new as new_context, checkpoint, revert_to, marker, read_record}
use rusty_kimi.Soul.State.{Soul}
use rusty_kimi.Soul.Marks.{Sound}
use rusty_kimi.Soul.Fit.{Post}
use rusty_kimi.Soul.Commands.{Calms, slash_compact, slash_compact-Calm}
use rusty_kimi.Soul.Steps.{ToolResult, dispatch, tool_results}
use rusty_kimi.Soul.Answers.{wanted, call_ids, tool_results-ids}
use rusty_kimi.Soul.Prompts.{FlowRunner, parse_choice, ralph_loop}
use rusty_kimi.Soul.Flows.{Walked, out_of_fuel, run_flow}
use rusty_kimi.Soul.Choices.{parse_choice-last}
use rusty_kimi.Soul.FlowEnds.{Unanswered, run_flow-ends}
use rusty_kimi.Soul.Turn.{turn}
use rusty_kimi.Soul.Ralph.{ralph_loop-BeginsOnce}
use rusty_kimi.Soul.FlowRuns.{Kept, run_flow-Kept}
use rusty_kimi.Tests.Conversations.{parsed_lines, question}
use rusty_kimi.Tests.Turns.{
  services, limits, model, fresh, fresh-Sound, services-DistinctCalls, listing, listed,
}

parse_choice-last_example :
    parse_choice (
      codes "I choose "
      ++ (codes "<choice>" ++ (codes " STOP " ++ (codes "</choice>" ++ codes "."))))
    ≡ some (trim (codes " STOP "))
parse_choice-last_example =
    parse_choice-last (codes "I choose ") (codes " STOP ") (codes ".")
      (refl, (refl, (refl, (refl, (refl, (refl, tt)))))) (refl, tt)

last_of_two : parse_choice (codes "<choice>a</choice> or <choice> b</choice>") ≡ some (codes "b")
unfolding parse_choice trim
last_of_two = refl

abbrev second : ToolCall String
second = record listing { id = "other" }

abbrev both : List (ToolResult String)
both =
    record { tool_call_id = "call"; return_value = listed }
    ∷ record { tool_call_id = "other"; return_value = listed }
    ∷ []

both_come :
    tool_results String
      (listing ∷ second ∷ [])
      (dispatch String (λ c. some listed) (listing ∷ second ∷ []) [])
    ≡ some both
unfolding tool_results dispatch lookup insert remove
both_come = refl

tool_results-ids_example : map (λ r. r.tool_call_id) both ≡ call_ids (listing ∷ second ∷ [])
tool_results-ids_example =
    tool_results-ids (λ c. some listed) (listing ∷ second ∷ []) both
      (unfold elem in (refl, (refl, tt))) both_come

abbrev twice : FlowRunner
twice = ralph_loop question (pos 1)

-- The agent of the example never chooses: the run stops at the decision.
abbrev unanswered : Soul (Unit {0}) ℕ parsed_lines × Walked (Unit {0})
unanswered = run_flow parsed_lines services limits model (2 * 2 + 2) 2 twice [] fresh

no_choice : unanswered.1 ≡ out_of_fuel
unfolding run_flow turn new_context checkpoint ralph_loop lookup trim revert_to
no_choice = refl

run_flow-ends_example :
    (unanswered.1 ≢ out_of_fuel)
    ⊎ Unanswered parsed_lines services limits model 2 twice fresh unanswered
unfolding ralph_loop
run_flow-ends_example =
    run_flow-ends parsed_lines services limits model 1 twice [] fresh
      (ralph_loop-BeginsOnce question (pos 1))

run_flow-Kept_example :
    Kept parsed_lines services limits model
      (λ w. refl)
      (λ m. refl)
      services-DistinctCalls
      (run_flow parsed_lines services limits model 6 3 twice [] fresh)
run_flow-Kept_example =
    run_flow-Kept parsed_lines services limits model (λ w. refl) (λ m. refl) services-DistinctCalls
      6 3 twice [] fresh (record { sound = fresh-Sound; no_dmail = refl })

-- A conversation of which only a checkpoint is recorded.
abbrev started : Soul (Unit {0}) ℕ parsed_lines
started = record fresh {
  context = record {
    file = some (marker (some 0) ∷ []);
    loaded = record { history = []; token_count = pos 0; next_checkpoint_id = 1 };
  };
}

started-Sound : Sound parsed_lines started.context
unfolding read_record wanted
started-Sound = record {
  synced = record { log = (started.context.loaded, refl, refl, omega arith, refl) };
  marks = (refl, λ l' e. tt);
  now = refl;
}

slash_compact-Calm_example :
    Post parsed_lines
      (Calms parsed_lines services limits model (λ w. refl) (λ m. refl) services-DistinctCalls)
      (slash_compact parsed_lines services limits model started)
slash_compact-Calm_example =
    slash_compact-Calm parsed_lines services limits model (λ w. refl) (λ m. refl)
      services-DistinctCalls started (record { sound = started-Sound; no_dmail = refl })
