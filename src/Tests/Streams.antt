-- ===== src/Tests/Streams.antt =====
-- A provider's stream assembled, and streams that fail.
use rusty_kimi.Common.{◌≡◌, refl, String, false, [], ◌∷◌, Option, none, some, if◌then◌else◌}
use rusty_kimi.Message.{
  content, tool_call, tool_call_part, ToolCall, text, merge_part, Text, extract_text,
}
use rusty_kimi.Message.Atoms.{concat_atoms, content_atoms, call_atoms}
use rusty_kimi.Generate.{
  Stream, end, failed, next, ErrorKind, timeout, empty_response, generated, error, generate,
}
use rusty_kimi.Generate.Assembly.{parts}
use rusty_kimi.Generate.Content.{
  content_only, call_only, calls_of, Attached, generate-content, generate-calls,
}
use rusty_kimi.Generate.Errors.{failure, all_fragments, generate-outcome, generate-reports}

abbrev call_of : Option Text → ToolCall String
call_of arguments = record { id = "call_1"; name = "Shell"; arguments = arguments; extras = none }

-- Two text fragments, a call whose arguments come in two fragments, and a text.
abbrev stream : Stream String
stream = next (content (text (72 ∷ []))) (
    next (content (text (105 ∷ []))) (
      next (tool_call (call_of none)) (
        next (tool_call_part (some (123 ∷ [])))
          (next (tool_call_part (some (125 ∷ []))) (next (content (text (33 ∷ []))) end)))))

abbrev stray : Stream String
stray = next (tool_call_part (some (123 ∷ []))) end

abbrev broken : Stream String
broken = next (content (text (72 ∷ []))) (failed timeout)

stream_content :
    (generate none stream).1.message.content ≡ text (72 ∷ 105 ∷ []) ∷ text (33 ∷ []) ∷ []
unfolding generate merge_part
stream_content = refl

stream_calls :
    (generate none stream).1.message.tool_calls ≡ some (call_of (some (123 ∷ 125 ∷ [])) ∷ [])
unfolding generate merge_part
stream_calls = refl

stream_text : extract_text (generate none stream).1.message (32 ∷ []) ≡ 72 ∷ 105 ∷ 32 ∷ 33 ∷ []
unfolding generate merge_part extract_text
stream_text = refl

-- A stray argument fragment alone is reported as an empty response.
stray_empty : (generate none stray).0 ≡ error empty_response
unfolding generate
stray_empty = refl

generate-content_example :
    concat_atoms content_atoms (generate none stream).1.message.content
    ≡ concat_atoms content_only (parts stream)
generate-content_example = generate-content stream tt

stream-Attached : Attached false (parts stream)
unfolding parts
stream-Attached = tt

generate-calls_example :
    concat_atoms call_atoms (calls_of (generate none stream).1.message.tool_calls)
    ≡ concat_atoms call_only (parts stream)
generate-calls_example = generate-calls stream tt stream-Attached

generate-outcome_example :
    ((e : ErrorKind) → failure broken ≡ some e → (generate none broken).0 ≡ error e)
    × (failure broken ≡ none
        → (generate none broken).0 ≡ (
            if all_fragments (parts broken)
            then error empty_response
            else generated (generate none broken).1.message))
generate-outcome_example = generate-outcome broken

generate-reports_example :
    let s = (generate none broken).1 in
    (s.sent ≡ content (text (72 ∷ [])) ∷ []) × (s.called ≡ calls_of s.message.tool_calls)
unfolding parts
generate-reports_example = generate-reports broken
