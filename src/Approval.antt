-- ===== src/Approval.antt =====
-- server/dvadva-agent/src/soul/approval.rs: a tool's request for the user's approval.
-- `request` is two steps, up to its wait (`ask`) and after it (`finish`). A request's answer cell
-- (`PendingResponse` of wire/types.rs) stands in `cells` under the request's id, a fresh UUID. The
-- state that `share` shares stands beside the queue and the table of one `Approval`.
pub mod Session
pub mod Fetch
use rusty_kimi.Common.{
  ℕ, String, Bool, true, false, List, [], ◌∷◌, Option, none, some, if◌then◌else◌,
}
use rusty_kimi.Common.Eq.{string_eq, ◌=?◌}
use rusty_kimi.Common.Dict.{Dict, lookup, insert, remove}
use rusty_kimi.Message.{Text}
use rusty_kimi.Tooling.{DisplayBlock}
use rusty_kimi.Queue.{Queue, Received, item, ended, waits, empty, put_nowait, receive}
use rusty_kimi.Wire.{ApprovalRequest, ApprovalResponseKind, approve, approve_for_session, reject}

pub data ApprovalError : Type 0 where
  no_tool_call queue_shut_down : ApprovalError
  request_not_found : String → ApprovalError

-- A `HashSet` of actions.
unfoldable pub contains : String → List String → Bool
contains a [] = false
contains a (b ∷ bs) = if b =? a then true else contains a bs

unfoldable pub insert_action : String → List String → List String
unfolding contains
insert_action a bs = if contains a bs then bs else a ∷ bs

pub record Approval (J : Type 0) : Type 0 where
  pub request_queue : Queue (ApprovalRequest J)
  pub requests : Dict String (ApprovalRequest J)
  pub cells : Dict String ApprovalResponseKind
  pub yolo : Bool
  pub auto_approve_actions : List String

-- What `request` meets before it waits: an error, the approval at once, or a request to wait for.
pub data Asked (J : Type 0) : Type 0 where
  refused : ApprovalError → Asked J
  granted : Asked J
  pending : ApprovalRequest J → Approval J → Asked J

-- What `fetch_request` meets: a request, the end of the queue, or nothing yet, so it waits.
pub data Fetched (J : Type 0) : Type 0 where
  fetched : ApprovalRequest J → Approval J → Fetched J
  fetch_ended fetch_waits : Approval J → Fetched J

module _ {J : Type 0} where
  unfoldable pub new : Bool → Approval J
  unfolding empty
  new yolo = record {
    request_queue = empty;
    requests = [];
    cells = [];
    yolo = yolo;
    auto_approve_actions = [];
  }

  unfoldable pub set_yolo : Bool → Approval J → Approval J
  set_yolo yolo s = record s { yolo = yolo }

  -- A queue and a table of its own, with the shared state.
  unfoldable pub share : Approval J → Approval J
  unfolding empty
  share s = record s { request_queue = empty; requests = [] }

  unfoldable pub enqueue :
      ApprovalRequest J → Option (Queue (ApprovalRequest J)) → Approval J → Asked J
  enqueue r none s = refused queue_shut_down
  enqueue r (some q) s =
      pending r (record s { request_queue = q; requests = insert r.id r s.requests })

  -- `call`: the id of the current tool call, if there is one; `id`: the new UUID.
  unfoldable pub ask :
      String → Option String → String → String → Text → List (DisplayBlock J) → Approval J → Asked J
  unfolding enqueue put_nowait contains
  ask id none sender action description display s = refused no_tool_call
  ask id (some call) sender action description display s =
      let r : ApprovalRequest J = record {
        id = id;
        tool_call_id = call;
        sender = sender;
        action = action;
        description = description;
        display = display;
      } in
      if s.yolo
      then granted
      else if contains action s.auto_approve_actions
      then granted
      else enqueue r (put_nowait r s.request_queue) s

  abbrev pub remember : String → Approval J → Approval J
  remember action s = record s {
    auto_approve_actions = insert_action action s.auto_approve_actions;
  }

  -- `none`: nobody has answered yet, so the request waits on.
  unfoldable pub finish_with :
      ApprovalRequest J → Option ApprovalResponseKind → Approval J → Option (Bool × Approval J)
  unfolding insert_action
  finish_with r none s = none
  finish_with r (some approve) s = some (true, s)
  finish_with r (some approve_for_session) s = some (true, remember r.action s)
  finish_with r (some reject) s = some (false, s)

  unfoldable pub finish : ApprovalRequest J → Approval J → Option (Bool × Approval J)
  unfolding finish_with
  finish r s = finish_with r (lookup r.id s.cells) s

  -- `PendingResponse::resolve`: the first answer stays.
  unfoldable pub resolve :
      String → ApprovalResponseKind → Option ApprovalResponseKind → Approval J → Approval J
  resolve id response (some _) s = s
  resolve id response none s = record s { cells = insert id response s.cells }

  abbrev pub remember_if : ApprovalResponseKind → String → Approval J → Approval J
  remember_if approve_for_session action s = remember action s
  remember_if approve action s = s
  remember_if reject action s = s

  unfoldable pub resolve_found :
      String
      → ApprovalResponseKind
      → Option (ApprovalRequest J)
      → Approval J
      → Approval J × Option ApprovalError
  unfolding resolve insert_action
  resolve_found id response none s = (s, some (request_not_found id))
  resolve_found id response (some r) s =
      let s' = remember_if response r.action (record s { requests = remove id s.requests }) in
      (resolve r.id response (lookup r.id s'.cells) s', none)

  -- `none` is `Ok(())`.
  unfoldable pub resolve_request :
      String → ApprovalResponseKind → Approval J → Approval J × Option ApprovalError
  unfolding resolve_found
  resolve_request id response s = resolve_found id response (lookup id s.requests) s

  unfoldable pub taken : Received (ApprovalRequest J) → Approval J → Approval J
  taken (item r q) s = record s { request_queue = q }
  taken ended s = s
  taken waits s = s

  -- The loop, over the items that the queue holds: `get` takes the first, and the loop goes on
  -- while what it took is approved already.
  unfoldable pub fetch_items : List (ApprovalRequest J) → Approval J → Fetched J
  unfolding taken receive resolve_request contains
  fetch_items [] s = if s.request_queue.sender_open then fetch_waits s else fetch_ended s
  fetch_items (r ∷ rest) s =
      let s' = taken (receive (r ∷ rest) s.request_queue) s in
      let on = fetch_items rest (resolve_request r.id approve s').0 in
      if contains r.action s.auto_approve_actions then on else fetched r s'

  unfoldable pub fetch_request : Approval J → Fetched J
  unfolding fetch_items
  fetch_request s = fetch_items s.request_queue.items s
