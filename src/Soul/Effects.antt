-- ===== src/Soul/Effects.antt =====
-- server/dvadva-agent/src/soul/kimisoul.rs: what a turn does to the context, the steers and the
-- D-mails, and the compaction. The model that is set stays the same in a turn (`llm`).
use rusty_kimi.Common.{
  String, ℕ, zero, suc, ◌-◌, ◌||◌, Bool, true, false, List, [], ◌∷◌, ◌++◌, Option, none, some,
  if◌then◌else◌,
}
use rusty_kimi.Common.Int.{leb_ℤ, ℤ, pos, negsuc}
use rusty_kimi.Common.Chars.{codes, trim}
use rusty_kimi.Common.Eq.{◌=?◌, string_eq}
use rusty_kimi.Message.{Text, Message, user, text, new as new_message}
use rusty_kimi.Wire.{
  TokenUsage, StatusUpdate, status_update, UserInput, plain, parts, steer_input, compaction_begin,
  compaction_end,
}
use rusty_kimi.Generate.{ErrorKind, connection, timeout, empty_response, other, status}
use rusty_kimi.Context.{Codec, Context, append_messages, checkpoint, revert_to, clear}
use rusty_kimi.Compaction.Compact.{Compacted, compacted, failed, compact, system_text}
use rusty_kimi.Soul.DenwaRenji.{DMail, DenwaRenji, send_dmail}
use rusty_kimi.Soul.State.{
  Settings, Llm, Services, llm_not_set, context_failed, provider_failed, Result, ok, err, Soul, M,
  return, fail, ◌>>=◌, ◌>>◌, wire_send,
}

unfoldable pub is_retryable_error : ErrorKind → Bool
is_retryable_error connection = true
is_retryable_error timeout = true
is_retryable_error empty_response = true
is_retryable_error (status code) = code =? "429" || code =? "500" || code =? "502" || code =? "503"
is_retryable_error other = false

abbrev pub input_message : {J : Type 0} → UserInput → Message J
input_message (plain t) = new_message user (text t ∷ [])
input_message (parts ps) = new_message user ps

-- The message that brings a D-mail.
unfoldable pub dmail_message : {J : Type 0} → Text → Message J
unfolding system_text trim new_message
dmail_message message = new_message user (
    system_text (
      codes
        "You just got a D-Mail from your future self. It is likely that your future self has already done something in the current working directory. Please read the D-Mail and decide what to do next. You MUST NEVER mention to the user about this information. D-Mail content:"
      ++ (10 ∷ 10 ∷ trim message))
    ∷ [])

-- The tools' D-mails, in order; an error goes to the tool.
unfoldable pub send_dmails : List DMail → DenwaRenji → DenwaRenji
unfolding send_dmail
send_dmails [] d = d
send_dmails (m ∷ ms) d = send_dmails ms (send_dmail m d).0

module _ {J F W : Type 0} (c : Codec J) (v : Services J F W) (set : Settings)
    (llm : Option Llm) where
  abbrev pub set_context : W → Context c × Bool → Soul F W c → Soul F W c × Result (Unit {0})
  set_context w (k, true) s = (record s { context = k; world = w }, ok tt)
  set_context w (k, false) s = (record s { context = k; world = w }, err context_failed)

  -- An operation of the context, whose error ends the turn.
  unfoldable pub on_context : (Bool → Context c → Context c × Bool) → M F W c (Unit {0})
  on_context f s = let (w, io) = v.disk s.world in set_context w (f io s.context) s

  -- `KimiSoul::checkpoint`.
  unfoldable pub checkpoint_soul : M F W c (Unit {0})
  unfolding on_context
  checkpoint_soul = on_context (λ io. checkpoint c io set.checkpoint_with_user_message)

  unfoldable pub append_soul : List (Message J) → M F W c (Unit {0})
  unfolding on_context
  append_soul ms = on_context (λ io. append_messages c io ms)

  -- No negative id comes here: `send_dmail` refuses it.
  unfoldable pub revert_soul : ℤ → M F W c (Unit {0})
  unfolding on_context
  revert_soul (pos id) = on_context (λ io. revert_to c io id)
  revert_soul (negsuc _) = fail context_failed

  unfoldable pub steer : UserInput → Soul F W c → Soul F W c
  steer user_input s = record s { steers = s.steers ++ user_input ∷ [] }

  unfoldable pub clear_pending_steers : M F W c (Unit {0})
  clear_pending_steers s = (record s { steers = [] }, ok tt)

  unfoldable pub inject : List UserInput → M F W c (Unit {0})
  unfolding append_soul wire_send new_message
  inject [] = return tt
  inject (i ∷ is) = do append_soul (input_message i ∷ []); wire_send (steer_input i); inject is

  abbrev pub any_steer : List UserInput → Bool
  any_steer [] = false
  any_steer (_ ∷ _) = true

  unfoldable pub consume_pending_steers : M F W c Bool
  unfolding inject
  consume_pending_steers s =
      (inject s.steers >>= λ _. return (any_steer s.steers)) (record s { steers = [] })

  -- The limit is shown if it is positive.
  abbrev pub shown_limit : Option Llm → Option ℤ
  shown_limit none = none
  shown_limit (some l) = if leb_ℤ l.max_context_size (pos 0) then none else some l.max_context_size

  abbrev pub known_or_counted : Option ℤ → ℤ → ℤ
  known_or_counted none counted = counted
  known_or_counted (some known) counted = known

  abbrev pub usage_of : ℤ → Option ℤ → Option F
  usage_of tokens none = none
  usage_of tokens (some limit) = some (v.ratio tokens limit)

  -- `KimiSoul::status_update` and `context_stats`, when no lock is held.
  unfoldable pub status_of :
      Option ℤ → Option TokenUsage → Option String → Soul F W c → StatusUpdate F
  status_of known usage id s =
      let tokens = known_or_counted known s.context.loaded.token_count in
      let runtime = v.runtime s.world in
      record {
        context_usage = usage_of tokens (shown_limit llm);
        context_tokens = some tokens;
        max_context_tokens = shown_limit llm;
        token_usage = usage;
        message_id = id;
        model = some runtime.model_name;
        yolo_enabled = some runtime.yolo_enabled;
        thinking = runtime.thinking;
      }

  unfoldable pub send_status : Option ℤ → Option TokenUsage → Option String → M F W c (Unit {0})
  unfolding status_of wire_send
  send_status known usage id s = wire_send (status_update (status_of known usage id s)) s

  -- One request for a compaction.
  unfoldable pub request_compaction : M F W c (Compacted J ErrorKind)
  unfolding compact
  request_compaction s =
      let (w, answer) = v.summarise s.world in
      (
        record s { world = w },
        ok (compact answer set.max_preserved_messages set.compact_prompt s.context.loaded.history),
      )

  abbrev pub retry_compaction :
      M F W c (List (Message J)) → Compacted J ErrorKind → M F W c (List (Message J))
  retry_compaction again (compacted ms) = return ms
  retry_compaction again (failed e) =
      if is_retryable_error e then again else fail (provider_failed e)

  abbrev pub last_compaction : Compacted J ErrorKind → M F W c (List (Message J))
  last_compaction (compacted ms) = return ms
  last_compaction (failed e) = fail (provider_failed e)

  -- The loop of `compact_context`, with the number of retries that are left.
  unfoldable pub compact_history : ℕ → M F W c (List (Message J))
  unfolding request_compaction is_retryable_error
  compact_history zero = request_compaction >>= last_compaction
  compact_history (suc more) =
      let again = compact_history more in request_compaction >>= retry_compaction again

  -- The compacted history takes the place of the old one.
  unfoldable pub replace_history : List (Message J) → M F W c (Unit {0})
  unfolding on_context checkpoint_soul append_soul wire_send
  replace_history ms = do
    on_context (λ io. clear c io)
    checkpoint_soul
    append_soul ms
    wire_send compaction_end

  unfoldable pub compact_context : Option Llm → M F W c (Unit {0})
  unfolding compact_history wire_send replace_history
  compact_context none = do wire_send compaction_begin; fail llm_not_set
  compact_context (some _) = do
    wire_send compaction_begin
    ms ← compact_history (set.max_retries_per_step - 1)
    replace_history ms
