-- ===== src/Tests/Approvals.antt =====
-- Two requests for the same action, of which the first is approved for the session.
use rusty_kimi.Common.{◌≡◌, refl, String, true, false, [], ◌∷◌, Option, none, some, arith}
use rusty_kimi.Common.Eq.{string_eq}
use rusty_kimi.Common.Dict.{lookup, insert, remove}
use rusty_kimi.Wire.{ApprovalRequest, approve_for_session, reject}
use rusty_kimi.Approval.{Approval, granted, Fetched, fetched, ask, resolve_request, fetch_request}
use rusty_kimi.Approval.Session.{fetches, resolves, sets_yolo, run, resolve_request-session}
use rusty_kimi.Approval.Fetch.{Keyed, Outcome, fetch_request-Outcome}

abbrev request_of : String → String → ApprovalRequest String
request_of id action = record {
  id = id;
  tool_call_id = "call_1";
  sender = "Shell";
  action = action;
  description = [];
  display = [];
}

abbrev waiting : Approval String
waiting = record {
  request_queue = record {
    sender_open = true;
    items = request_of "u1" "run command" ∷ request_of "u2" "edit file" ∷ [];
    shut = false;
    len = 2;
  };
  requests = ("u1", request_of "u1" "run command") ∷ ("u2", request_of "u2" "edit file") ∷ [];
  cells = [];
  yolo = false;
  auto_approve_actions = "run command" ∷ [];
}

abbrev handed_out : Fetched String → Option String
handed_out (fetched r s) = some r.id
handed_out _ = none

-- The first request is approved by itself, and the user gets the second.
second_fetched : handed_out (fetch_request waiting) ≡ some "u2"
unfolding fetch_request lookup remove insert
second_fetched = refl

resolve_request-session_example :
    let s' =
      run
        (sets_yolo false ∷ fetches ∷ resolves "u1" reject ∷ [])
        (resolve_request "u2" approve_for_session waiting).0 in
    ask "u3" (some "call_2") "StrReplaceFile" "edit file" [] [] s' ≡ granted
unfolding lookup
resolve_request-session_example =
    resolve_request-session (request_of "u2" "edit file") "u2"
      (sets_yolo false ∷ fetches ∷ resolves "u1" reject ∷ []) waiting "u3" "call_2" "StrReplaceFile"
      [] [] refl

waiting-Keyed : Keyed waiting
unfolding lookup
waiting-Keyed k r h = ground (arith, h, string_eq.beq_iff "u1" k, string_eq.beq_iff "u2" k)

fetch_request-Outcome_example :
    Outcome waiting.request_queue.items waiting.auto_approve_actions (fetch_request waiting)
unfolding lookup
fetch_request-Outcome_example = fetch_request-Outcome waiting waiting-Keyed (refl, (refl, tt))
