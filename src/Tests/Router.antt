-- ===== src/Tests/Router.antt =====
-- Clients attached to one session: a broadcast, an answer and a catch-up.
use rusty_kimi.Common.{
  ℕ, ◌≡◌, refl, true, false, List, [], ◌∷◌, ◌++◌, none, some, length, arith, All,
}
use rusty_kimi.Common.Eq.{nat_eq}
use rusty_kimi.Common.Dict.{lookup, insert, DistinctKeys}
use rusty_kimi.Queue.{Queue, put_nowait}
use rusty_kimi.Queue.Store.{held, put_at}
use rusty_kimi.Fanout.{Fanout, broadcast, send_to, begin_catch_up, end_catch_up}
use rusty_kimi.Fanout.Routing.{Broadcasts, broadcast-reaches, Answers, send_to-Answers}
use rusty_kimi.Fanout.Calls.{
  Call, broadcasts, sends, attaches, detaches, begins, calls, Leaves, live, replies,
}
use rusty_kimi.Fanout.CatchUp.{catch_up-order}

abbrev open_queue : List ℕ → Queue ℕ
open_queue items = record { sender_open = true; items = items; shut = false; len = length items }

-- Connection 1 is live, 2 is catching up, and 3 is live with a queue that was shut down.
abbrev session : Fanout ℕ
session = record {
  attachments = (1, none) ∷ (2, some (40 ∷ [])) ∷ (3, none) ∷ [];
  queues =
      (1, open_queue [])
      ∷ (2, open_queue (30 ∷ []))
      ∷ (3, record { sender_open = false; items = []; shut = true; len = 0 })
      ∷ [];
  next_id = 4;
}

session-DistinctKeys : DistinctKeys session.attachments
unfolding lookup
session-DistinctKeys = (refl, (refl, (refl, tt)))

-- The broadcast stages for 2 and drops 3.
session-broadcast : (broadcast 41 session).attachments ≡ (1, none) ∷ (2, some (40 ∷ 41 ∷ [])) ∷ []
unfolding broadcast lookup put_at put_nowait insert
session-broadcast = refl

session_caught_up : held (lookup 2 (end_catch_up 2 session).queues) ≡ 30 ∷ 40 ∷ []
unfolding end_catch_up lookup put_at put_nowait insert
session_caught_up = refl

broadcast-reaches_example :
    Broadcasts 41 session.attachments session.queues
      ((broadcast 41 session).attachments, (broadcast 41 session).queues)
      3
broadcast-reaches_example = broadcast-reaches 41 session session-DistinctKeys 3

send_to-Answers_example : Answers 2 50 session (send_to 2 50 session) 2
send_to-Answers_example = send_to-Answers 2 50 session 2

-- While 1 catches up, others are answered, come and go.
abbrev meanwhile : List (Call ℕ)
meanwhile =
    broadcasts 60 ∷ sends 1 61 ∷ detaches 2 ∷ attaches ∷ sends 3 62 ∷ begins 4 ∷ broadcasts 63 ∷ []

meanwhile-Leaves : All (Leaves 1) meanwhile
meanwhile-Leaves = (tt, (tt, (refl, (tt, (tt, (refl, (tt, tt)))))))

catch_up-order_example :
    let g = end_catch_up 1 (calls meanwhile (begin_catch_up 1 session)) in
    (held (lookup 1 g.queues)
      ≡ held (lookup 1 session.queues) ++ (replies 1 meanwhile ++ live meanwhile))
    × (lookup 1 g.attachments ≡ some none)
unfolding lookup
catch_up-order_example =
    catch_up-order 1 meanwhile session session-DistinctKeys refl refl (omega arith) (omega arith)
      meanwhile-Leaves
