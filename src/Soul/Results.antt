-- ===== src/Soul/Results.antt =====
-- server/dvadva-agent/src/soul/message.rs: the message that a tool's result becomes, and what a
-- message asks of the model (`ModelCapability` of config.rs). Sets are lists.
use rusty_kimi.Common.{
  ◌≡◌, ◌↔◌, refl, Bool, true, false, not, ◌&&◌, ◌||◌, List, [], ◌∷◌, ◌++◌, none, some, select,
  if◌then◌else◌,
}
use rusty_kimi.Common.Chars.{codes}
use rusty_kimi.Common.Eq.{Eq, text_eq, elem, ◌=?◌}
use rusty_kimi.Message.{Text, ContentPart, text, think, image_url, video_url, Message, tool}
use rusty_kimi.Tooling.{ToolReturnValue, ToolOutput, plain, parts, DisplayBlock, brief, brief_of}
use rusty_kimi.Compaction.Compact.{system_text}
use rusty_kimi.Soul.Steps.{ToolResult}

pub data ModelCapability : Type 0 where
  image_in video_in thinking always_thinking : ModelCapability

unfoldable pub capability_beq : ModelCapability → ModelCapability → Bool
capability_beq image_in image_in = true
capability_beq video_in video_in = true
capability_beq thinking thinking = true
capability_beq always_thinking always_thinking = true
capability_beq _ _ = false

pub capability_beq_iff : (a b : ModelCapability) → (capability_beq a b ≡ true) ↔ (a ≡ b)
unfolding capability_beq
capability_beq_iff image_in image_in = (λ _. refl, λ _. refl)
capability_beq_iff image_in video_in = (λ h. cc h, λ h. cc h)
capability_beq_iff image_in thinking = (λ h. cc h, λ h. cc h)
capability_beq_iff image_in always_thinking = (λ h. cc h, λ h. cc h)
capability_beq_iff video_in image_in = (λ h. cc h, λ h. cc h)
capability_beq_iff video_in video_in = (λ _. refl, λ _. refl)
capability_beq_iff video_in thinking = (λ h. cc h, λ h. cc h)
capability_beq_iff video_in always_thinking = (λ h. cc h, λ h. cc h)
capability_beq_iff thinking image_in = (λ h. cc h, λ h. cc h)
capability_beq_iff thinking video_in = (λ h. cc h, λ h. cc h)
capability_beq_iff thinking thinking = (λ _. refl, λ _. refl)
capability_beq_iff thinking always_thinking = (λ h. cc h, λ h. cc h)
capability_beq_iff always_thinking image_in = (λ h. cc h, λ h. cc h)
capability_beq_iff always_thinking video_in = (λ h. cc h, λ h. cc h)
capability_beq_iff always_thinking thinking = (λ h. cc h, λ h. cc h)
capability_beq_iff always_thinking always_thinking = (λ _. refl, λ _. refl)

instance unfoldable pub capability_eq : Eq ModelCapability
unfolding capability_beq
capability_eq = record { beq = capability_beq; beq_iff = capability_beq_iff }

-- `HashSet::insert`.
unfoldable pub with_capability : ModelCapability → List ModelCapability → List ModelCapability
unfolding elem capability_eq
with_capability c set = if elem c set then set else set ++ c ∷ []

-- The loop of `check_message`.
unfoldable pub needed : List ContentPart → List ModelCapability → List ModelCapability
unfolding with_capability
needed [] set = set
needed (image_url u ∷ ps) set = needed ps (with_capability image_in set)
needed (video_url u ∷ ps) set = needed ps (with_capability video_in set)
needed (think t sealed ∷ ps) set = needed ps (with_capability thinking set)
needed (_ ∷ ps) set = needed ps set

unfoldable pub append_output : List ContentPart → ToolOutput → List ContentPart
append_output content (plain []) = content
append_output content (plain (c ∷ cs)) = content ++ text (c ∷ cs) ∷ []
append_output content (parts ps) = content ++ ps

-- What stands before the output of a tool that failed, of its message and whether it broke down.
unfoldable pub error_part : Text → Bool → List ContentPart
unfolding system_text
error_part [] broke = []
error_part (c ∷ cs) true =
    system_text (
      codes "ERROR: "
      ++ ((c ∷ cs)
          ++ (10 ∷ codes "This is an unexpected error and the tool is probably not working.")))
    ∷ []
error_part (c ∷ cs) false = system_text (codes "ERROR: " ++ c ∷ cs) ∷ []

unfoldable pub success_part : Text → List ContentPart
unfolding system_text
success_part [] = []
success_part (c ∷ cs) = system_text (c ∷ cs) ∷ []

unfoldable pub or_placeholder : List ContentPart → List ContentPart
unfolding system_text
or_placeholder [] = system_text (codes "Tool output is empty.") ∷ []
or_placeholder (p ∷ ps) = p ∷ ps

module _ {J : Type 0} where
  -- `check_message`: the capabilities that are missing.
  unfoldable pub check_message : Message J → List ModelCapability → List ModelCapability
  unfolding needed elem capability_eq
  check_message m capabilities = select (λ c. not (elem c capabilities)) (needed m.content [])

  unfoldable pub is_tool_runtime_error : List (DisplayBlock J) → Bool
  unfolding text_eq
  is_tool_runtime_error [] = false
  is_tool_runtime_error (brief t ∷ blocks) =
      t =? codes "Tool runtime error" || is_tool_runtime_error blocks
  is_tool_runtime_error (_ ∷ blocks) = is_tool_runtime_error blocks

  unfoldable pub result_content : ToolReturnValue J → List ContentPart
  unfolding append_output is_tool_runtime_error error_part success_part or_placeholder
  result_content value =
      if value.is_error
      then append_output (error_part value.message (is_tool_runtime_error value.display))
          value.output
      else or_placeholder (append_output (success_part value.message) value.output)

  unfoldable pub tool_result_to_message : ToolResult J → Message J
  unfolding result_content
  tool_result_to_message r = record {
    role = tool;
    content = result_content r.return_value;
    name = none;
    tool_calls = none;
    tool_call_id = some r.tool_call_id;
    partial = none;
  }

  -- `is_tool_rejected`, of server/dvadva-agent/src/tools/utils.rs.
  unfoldable pub is_tool_rejected : ToolReturnValue J → Bool
  unfolding brief_of text_eq
  is_tool_rejected value = value.is_error && brief_of value.display =? codes "Rejected by user"
