-- ===== src/Approval/Session.antt =====
-- An action approved for the session stays approved.
use rusty_kimi.Common.{
  ◌≡◌, refl, ◌∙◌, ap, String, Bool, true, false, List, [], ◌∷◌, Option, none, some, Bool-cases, inl,
  inr, if◌then◌else◌,
}
use rusty_kimi.Common.Eq.{string_eq, ◌=?◌, =?_self}
use rusty_kimi.Common.Dict.{lookup, remove}
use rusty_kimi.Message.{Text}
use rusty_kimi.Tooling.{DisplayBlock}
use rusty_kimi.Queue.{Queue}
use rusty_kimi.Wire.{ApprovalRequest, ApprovalResponseKind, approve, approve_for_session, reject}
use rusty_kimi.Approval.{
  Approval, Asked, refused, granted, pending, Fetched, fetched, fetch_ended, fetch_waits, contains,
  insert_action, ask, enqueue, remember, remember_if, finish, finish_with, resolve, resolve_found,
  resolve_request, set_yolo, fetch_items, fetch_request,
}

contains-insert_action :
    (a b : String) (bs : List String)
    → contains a bs ≡ true
    → contains a (insert_action b bs) ≡ true
unfolding insert_action contains
contains-insert_action a b bs h = elim (Bool-cases (contains b bs)) [
  | inl present ↦ rw (present) h
  | inr missing ↦
      rw (missing)
        (elim (Bool-cases (b =? a)) [ inl same ↦ rw (same) refl | inr other ↦ rw (other) h ])
]

contains-inserted : (a : String) (bs : List String) → contains a (insert_action a bs) ≡ true
unfolding insert_action contains
contains-inserted a bs = elim (Bool-cases (contains a bs)) [
  | inl present ↦ rw (present) present
  | inr missing ↦ rw (missing) (rw (=?_self a) refl)
]

pub data Call (J : Type 0) : Type 0 where
  asks : String → Option String → String → String → Text → List (DisplayBlock J) → Call J
  finishes : ApprovalRequest J → Call J
  resolves : String → ApprovalResponseKind → Call J
  fetches : Call J
  sets_yolo : Bool → Call J

module _ {J : Type 0} where
  abbrev pub after_ask : Approval J → Asked J → Approval J
  after_ask s (refused e) = s
  after_ask s granted = s
  after_ask s (pending r s') = s'

  abbrev pub after_finish : Approval J → Option (Bool × Approval J) → Approval J
  after_finish s none = s
  after_finish s (some (approved, s')) = s'

  abbrev pub after_fetch : Fetched J → Approval J
  after_fetch (fetched r s) = s
  after_fetch (fetch_ended s) = s
  after_fetch (fetch_waits s) = s

  unfoldable pub call : Call J → Approval J → Approval J
  call (asks id tool_call sender action description display) s =
      after_ask s (ask id tool_call sender action description display s)
  call (finishes r) s = after_finish s (finish r s)
  call (resolves id response) s = (resolve_request id response s).0
  call fetches s = after_fetch (fetch_request s)
  call (sets_yolo yolo) s = set_yolo yolo s

  unfoldable pub run : List (Call J) → Approval J → Approval J
  unfolding call
  run [] s = s
  run (c ∷ cs) s = run cs (call c s)

  -- The action is approved for the session.
  abbrev pub Remembers : String → Approval J → Type 0
  Remembers a s = contains a s.auto_approve_actions ≡ true

  enqueue-Remembers :
      (a : String) (r : ApprovalRequest J) (q : Option (Queue (ApprovalRequest J))) (s : Approval J)
      → Remembers a s
      → Remembers a (after_ask s (enqueue r q s))
  unfolding enqueue
  enqueue-Remembers a r none s h = h
  enqueue-Remembers a r (some q) s h = h

  branch-Remembers :
      (a : String) (s : Approval J) (b : Bool) (x y : Asked J)
      → Remembers a (after_ask s x)
      → Remembers a (after_ask s y)
      → Remembers a (after_ask s (if b then x else y))
  branch-Remembers a s true x y h g = h
  branch-Remembers a s false x y h g = g

  ask-Remembers :
      (a id : String) (tool_call : Option String) (sender action : String) (description : Text)
      (display : List (DisplayBlock J)) (s : Approval J)
      → Remembers a s
      → Remembers a (after_ask s (ask id tool_call sender action description display s))
  unfolding ask
  ask-Remembers a id none sender action description display s h = h
  ask-Remembers a id (some t) sender action description display s h =
      branch-Remembers a s s.yolo _ _ h (
        branch-Remembers a s (contains action s.auto_approve_actions) _ _ h
          (enqueue-Remembers a _ _ s h))

  finish_with-Remembers :
      (a : String) (r : ApprovalRequest J) (o : Option ApprovalResponseKind) (s : Approval J)
      → Remembers a s
      → Remembers a (after_finish s (finish_with r o s))
  unfolding finish_with
  finish_with-Remembers a r none s h = h
  finish_with-Remembers a r (some approve) s h = h
  finish_with-Remembers a r (some approve_for_session) s h =
      contains-insert_action a r.action s.auto_approve_actions h
  finish_with-Remembers a r (some reject) s h = h

  resolve-actions :
      (id : String) (response : ApprovalResponseKind) (o : Option ApprovalResponseKind)
      (s : Approval J)
      → (resolve id response o s).auto_approve_actions ≡ s.auto_approve_actions
  unfolding resolve
  resolve-actions id response none s = refl
  resolve-actions id response (some _) s = refl

  remember_if-Remembers :
      (a : String) (response : ApprovalResponseKind) (action : String) (s : Approval J)
      → Remembers a s
      → Remembers a (remember_if response action s)
  remember_if-Remembers a approve action s h = h
  remember_if-Remembers a approve_for_session action s h =
      contains-insert_action a action s.auto_approve_actions h
  remember_if-Remembers a reject action s h = h

  resolve_found-Remembers :
      (a id : String) (response : ApprovalResponseKind) (o : Option (ApprovalRequest J))
      (s : Approval J)
      → Remembers a s
      → Remembers a (resolve_found id response o s).0
  unfolding resolve_found
  resolve_found-Remembers a id response none s h = h
  resolve_found-Remembers a id response (some r) s h =
      let s' = remember_if response r.action (record s { requests = remove id s.requests }) in
      ap (contains a) (resolve-actions r.id response (lookup r.id s'.cells) s')
      ∙ remember_if-Remembers a response r.action (record s { requests = remove id s.requests }) h

  resolve_request-Remembers :
      (a id : String) (response : ApprovalResponseKind) (s : Approval J)
      → Remembers a s
      → Remembers a (resolve_request id response s).0
  unfolding resolve_request
  resolve_request-Remembers a id response s h =
      resolve_found-Remembers a id response (lookup id s.requests) s h

  fetch_items-Remembers :
      (a : String) (rs : List (ApprovalRequest J)) (s : Approval J)
      → Remembers a s
      → Remembers a (after_fetch (fetch_items rs s))
  unfolding fetch_items
  fetch_items-Remembers a [] s h = elim (Bool-cases s.request_queue.sender_open) [
    | inl on ↦ rw (on) h
    | inr off ↦ rw (off) h
  ]
  fetch_items-Remembers a (r ∷ rs) s h =
      elim (Bool-cases (contains r.action s.auto_approve_actions)) [
        | inl known ↦
            rw (known, fetch_items)
              (fetch_items-Remembers a rs _ (resolve_request-Remembers a r.id approve _ h))
        | inr unknown ↦ rw (unknown, fetch_items) h
      ]

  call-Remembers :
      (a : String) (c : Call J) (s : Approval J) → Remembers a s → Remembers a (call c s)
  unfolding call finish fetch_request set_yolo
  call-Remembers a (asks id tool_call sender action description display) s h =
      ask-Remembers a id tool_call sender action description display s h
  call-Remembers a (finishes r) s h = finish_with-Remembers a r (lookup r.id s.cells) s h
  call-Remembers a (resolves id response) s h = resolve_request-Remembers a id response s h
  call-Remembers a fetches s h = fetch_items-Remembers a s.request_queue.items s h
  call-Remembers a (sets_yolo yolo) s h = h

  run-Remembers :
      (a : String) (cs : List (Call J)) (s : Approval J) → Remembers a s → Remembers a (run cs s)
  unfolding run
  run-Remembers a [] s h = h
  run-Remembers a (c ∷ cs) s h = run-Remembers a cs (call c s) (call-Remembers a c s h)

  resolve_found-session :
      (id : String) (r : ApprovalRequest J) (s : Approval J)
      → Remembers r.action (resolve_found id approve_for_session (some r) s).0
  unfolding resolve_found
  resolve_found-session id r s =
      let s' = remember r.action (record s { requests = remove id s.requests }) in
      ap (contains r.action) (resolve-actions r.id approve_for_session (lookup r.id s'.cells) s')
      ∙ contains-inserted r.action s.auto_approve_actions

  ask-granted :
      (id t sender action : String) (description : Text) (display : List (DisplayBlock J))
      (s : Approval J)
      → Remembers action s
      → ask id (some t) sender action description display s ≡ granted
  unfolding ask
  ask-granted id t sender action description display s h = elim (Bool-cases s.yolo) [
    | inl on ↦ rw (on) refl
    | inr off ↦ rw (off) (rw (h) refl)
  ]

  -- When a request that is pending is answered "approve for this session", then after any further
  -- calls, whatever they ask and answer, every tool call that asks for the same action is granted
  -- it at once, with nobody asked.
  pub resolve_request-session :
      (r : ApprovalRequest J) (request_id : String) (cs : List (Call J)) (s : Approval J)
      (id t sender : String) (description : Text) (display : List (DisplayBlock J))
      → lookup request_id s.requests ≡ some r
      → let s' = run cs (resolve_request request_id approve_for_session s).0 in
        ask id (some t) sender r.action description display s' ≡ granted
  unfolding resolve_request
  resolve_request-session r request_id cs s id t sender description display found =
      let s1 = (resolve_found request_id approve_for_session (lookup request_id s.requests) s).0 in
      let known : Remembers r.action s1 = rw (found) (resolve_found-session request_id r s) in
      ask-granted id t sender r.action description display (run cs s1)
        (run-Remembers r.action cs s1 known)
