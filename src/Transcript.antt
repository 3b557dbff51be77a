-- ===== src/Transcript.antt =====
-- client/wire-client/src/transcript.rs: the wire's events folded into the blocks that a client
-- shows, with a nested transcript for each subagent. `J` stands for JSON values, `F` for
-- floating-point numbers. Not modelled: the labels of the status bar, which only read.
pub mod Titles
pub mod Events
pub mod Changes
pub mod Idle
pub mod Live
pub mod Words
pub mod Spoken
pub mod Nested
use rusty_kimi.Common.{
  ℕ, zero, ◌+◌, ◌%◌, ◌^◌, String, Bool, true, false, List, [], ◌∷◌, ◌++◌, map, Option, none, some,
  length, take, drop, ltb, ◌>>=◌, ◌||◌, if◌then◌else◌,
}
use rusty_kimi.Common.Int.{ℤ}
use rusty_kimi.Common.Eq.{string_eq, ◌=?◌}
use rusty_kimi.Common.Chars.{codes}
use rusty_kimi.Message.{
  Text, ContentPart, text, think, image_url, audio_url, video_url, ToolCall, merge_call, join,
}
use rusty_kimi.Transcript.Titles.{Json, clip_title, or_else, subagent_title}
use rusty_kimi.Tooling.{DisplayBlock, ToolReturnValue}
use rusty_kimi.Wire.{
  UserInput, plain, parts, StatusUpdate, ApprovalResponseKind, Notification, WireMessage,
  turn_begin, turn_end, steer_input, step_begin, step_interrupted, compaction_begin, compaction_end,
  status_update, content_part, tool_call, tool_call_part, tool_result, approval_response,
  subagent_event, approval_request, tool_call_request, notification,
}

abbrev pub max_subagent_tools_shown : ℕ
max_subagent_tools_shown = 4

abbrev pub part_text : ContentPart → Text
part_text (text t) = t
part_text (think t _) = codes "[thinking]"
part_text (image_url _) = codes "[image]"
part_text (audio_url _) = codes "[audio]"
part_text (video_url _) = codes "[video]"

unfoldable pub user_input_text : UserInput → Text
unfolding join
user_input_text (plain t) = t
user_input_text (parts ps) = join (10 ∷ []) (map part_text ps)

pub record SubagentSummary : Type 0 where
  pub events : ℕ
  pub recent_tools : List String

-- `iter_mut().rev()`: the last element that `f` takes is changed; `none`: it takes none.
unfoldable pub update_last {ℓ} : {A : Type ℓ} → (A → Option A) → List A → Option (List A)
update_last f [] = none
update_last f (x ∷ xs) = elim (update_last f xs) [
  | some xs' ↦ some (x ∷ xs')
  | none ↦ elim (f x) [ none ↦ none | some x' ↦ some (x' ∷ xs) ]
]

unfoldable pub find_last {ℓ κ} : {A : Type ℓ} {B : Type κ} → (A → Option B) → List A → Option B
find_last f [] = none
find_last f (x ∷ xs) = elim (find_last f xs) [ some b ↦ some b | none ↦ f x ]

abbrev pub changed_to {ℓ} : {A : Type ℓ} → Option A → Option A → Option A
changed_to old none = old
changed_to old (some a) = some a

module _ (J F : Type 0) where
  pub record ApprovalInfo : Type 0 where
    pub request_id : String
    pub sender : String
    pub action : String
    pub description : Text
    pub display : List (DisplayBlock J)

  pub data Block : Type 0 where
    user : Text → (steer : Bool) → Block
    assistant thinking info : Text → Block
    call :
        ToolCall J
        → Option (ToolReturnValue J)
        → Option SubagentSummary
        → (abandoned : Bool) → Block
    approval : ApprovalInfo → Option ApprovalResponseKind → Block

  pub record Status : Type 0 where
    pub model : Option String
    pub context_usage : Option F
    pub context_tokens : Option ℤ
    pub max_context_tokens : Option ℤ
    pub yolo_enabled : Option Bool
    pub thinking : Option Bool

  abbrev pub default_status : Status
  default_status = record {
    model = none;
    context_usage = none;
    context_tokens = none;
    max_context_tokens = none;
    yolo_enabled = none;
    thinking = none;
  }

  unfoldable pub merge_status : StatusUpdate F → Status → Status
  merge_status u s = record {
    model = changed_to s.model u.model;
    context_usage = changed_to s.context_usage u.context_usage;
    context_tokens = changed_to s.context_tokens u.context_tokens;
    max_context_tokens = changed_to s.max_context_tokens u.max_context_tokens;
    yolo_enabled = changed_to s.yolo_enabled u.yolo_enabled;
    thinking = changed_to s.thinking u.thinking;
  }

  -- `Transcript`, by its blocks, status, subagents and version, and the list of
  -- `SubagentTranscript`, by id, title, transcript and whether its turn ended.
  mutual
    pub data Transcript : Type 0 where
      made : List Block → Status → Subagents → (version : ℕ) → Transcript

    pub data Subagents : Type 0 where
      nobody : Subagents
      subagent :
          (task_tool_call_id : String) (title : Text)
          → Transcript
          → (done : Bool) → Subagents
          → Subagents

  abbrev pub default : Transcript
  default = made [] default_status nobody 0

  -- A message that changes the last block that `f` takes.
  abbrev pub with_blocks : Transcript → List Block → Transcript
  with_blocks (made _ status subagents version) blocks = made blocks status subagents version

  abbrev pub updated : Transcript → Option (List Block) → Transcript × Bool
  updated t none = (t, false)
  updated t (some blocks) = (with_blocks t blocks, true)

  abbrev pub blocks_of : Transcript → List Block
  blocks_of (made blocks _ _ _) = blocks

  abbrev pub pushed : Block → Transcript → Transcript × Bool
  pushed b t = (with_blocks t (blocks_of t ++ b ∷ []), true)

  -- What a text or a thought does to the last block, if that is one of its kind.
  unfoldable pub say : Text → List Block → List Block
  say t [] = assistant t ∷ []
  say t (assistant u ∷ []) = assistant (u ++ t) ∷ []
  say t (b ∷ []) = b ∷ assistant t ∷ []
  say t (b ∷ c ∷ bs) = b ∷ say t (c ∷ bs)

  unfoldable pub ponder : Text → List Block → List Block
  ponder t [] = thinking t ∷ []
  ponder t (thinking u ∷ []) = thinking (u ++ t) ∷ []
  ponder t (b ∷ []) = b ∷ thinking t ∷ []
  ponder t (b ∷ c ∷ bs) = b ∷ ponder t (c ∷ bs)

  unfoldable pub apply_content_part : ContentPart → List Block → List Block
  unfolding say ponder
  apply_content_part (text t) bs = say t bs
  apply_content_part (think t _) bs = ponder t bs
  apply_content_part (image_url _) bs = bs ++ info (codes "[image]") ∷ []
  apply_content_part (audio_url _) bs = bs ++ info (codes "[audio]") ∷ []
  apply_content_part (video_url _) bs = bs ++ info (codes "[video]") ∷ []

  abbrev pub is_live : Block → Bool
  is_live (call _ none _ false) = true
  is_live _ = false

  abbrev pub abandon : Block → Block
  abandon (call c none s false) = call c none s true
  abandon b = b

  abbrev pub any_live : List Block → Bool
  any_live [] = false
  any_live (b ∷ bs) = is_live b || any_live bs

  unfoldable pub abandon_open_tool_calls : Transcript → Transcript × Bool
  abandon_open_tool_calls t = (with_blocks t (map abandon (blocks_of t)), any_live (blocks_of t))

  abbrev pub merge_fragment : Option Text → Block → Option Block
  merge_fragment part (call c none s a) = some (call (merge_call c part) none s a)
  merge_fragment part _ = none

  abbrev pub set_result : String → ToolReturnValue J → Block → Option Block
  set_result id value (call c none s a) =
      if c.id =? id then some (call c (some value) s a) else none
  set_result id value _ = none

  abbrev pub answer : String → ApprovalResponseKind → Block → Option Block
  answer id response (approval i _) =
      if i.request_id =? id then some (approval i (some response)) else none
  answer id response _ = none

  abbrev pub summary_of : Option SubagentSummary → SubagentSummary
  summary_of none = record { events = 0; recent_tools = [] }
  summary_of (some s) = s

  abbrev pub capped : List String → List String
  capped names = if ltb max_subagent_tools_shown (length names) then drop 1 names else names

  abbrev pub recent : WireMessage J F → List String → List String
  recent (tool_call c) names = capped (names ++ c.name ∷ [])
  recent _ names = names

  abbrev pub counted : WireMessage J F → SubagentSummary → SubagentSummary
  counted inner s = record {
    events = (s.events + 1) % 2 ^ 64;
    recent_tools = recent inner s.recent_tools;
  }

  abbrev pub count_event : String → WireMessage J F → Block → Option Block
  count_event id inner (call c r s a) =
      if c.id =? id then some (call c r (some (counted inner (summary_of s))) a) else none
  count_event id inner _ = none

  abbrev pub arguments_of : String → Block → Option (Option Text)
  arguments_of id (call c r s a) = if c.id =? id then some c.arguments else none
  arguments_of id _ = none

  abbrev pub kept_or {ℓ} : {A : Type ℓ} → A → Option A → A
  kept_or old none = old
  kept_or old (some new) = new

  abbrev pub prompt_title : WireMessage J F → Option Text
  prompt_title (turn_begin input) = clip_title (user_input_text input)
  prompt_title _ = none

  abbrev pub is_turn_end : WireMessage J F → Bool
  is_turn_end turn_end = true
  is_turn_end _ = false

  -- The subagent's transcript is changed by `f`; a subagent that is new is added.
  unfoldable pub feed : String → Text → Bool → (Transcript → Transcript) → Subagents → Subagents
  feed id title ended f nobody = subagent id title (f default) ended nobody
  feed id title ended f (subagent i u t done rest) =
      if i =? id
      then subagent i u (f t) (done || ended) rest
      else subagent i u t done (feed id title ended f rest)

  unfoldable pub push_approval : ApprovalInfo → Transcript → Transcript × ℕ
  push_approval i (made blocks status subagents version) = (
    made (blocks ++ approval i none ∷ []) status subagents ((version + 1) % 2 ^ 64),
    length blocks,
  )
