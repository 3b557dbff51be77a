-- ===== src/Tests/Queues.antt =====
-- The queue, its fan-out and the two sides of a wire at work.
use rusty_kimi.Common.{
  ℕ, ◌%◌, ◌≡◌, refl, true, false, List, [], ◌∷◌, ◌++◌, none, some, length, String, arith, ==_iff,
}
use rusty_kimi.Common.Eq.{nat_eq}
use rusty_kimi.Common.Dict.{lookup, insert}
use rusty_kimi.Queue.{Queue, usize_mod, empty, put_nowait, get, ended, shutdown}
use rusty_kimi.Queue.Store.{held, grown}
use rusty_kimi.Queue.Fifo.{
  Call, puts, gets, shuts, Log, start, step, run, run-fifo, shutdown_drains,
}
use rusty_kimi.Wire.Broadcast.{Broadcast, publish_nowait}
use rusty_kimi.Wire.Broadcast.Delivery.{mem, Live, publish_nowait-delivers}
use rusty_kimi.Wire.Channel
use rusty_kimi.Wire.Channel.{SoulSide, send}
use rusty_kimi.Wire.Channel.Atoms.{wire_atoms}
use rusty_kimi.Wire.Channel.Merge.{Listens, heard, send_all, send_all-heard}
use rusty_kimi.Wire.{WireMessage, content_part, tool_call, tool_call_part, turn_end}
use rusty_kimi.Message.{text, ToolCall, merge_content}
use rusty_kimi.Message.Atoms.{concat_atoms}

abbrev queue_calls : List (Call ℕ)
queue_calls = puts 5 ∷ puts 6 ∷ gets ∷ shuts false ∷ puts 7 ∷ gets ∷ gets ∷ []

queue_calls-run : (run start queue_calls).delivered ≡ 5 ∷ 6 ∷ []
unfolding run start step empty put_nowait get shutdown
queue_calls-run = refl

abbrev two_waiting : Log ℕ
two_waiting = record {
  queue = record { sender_open = true; items = 6 ∷ 7 ∷ []; shut = false; len = 2 };
  accepted = 5 ∷ 6 ∷ 7 ∷ [];
  delivered = 5 ∷ [];
  dropped = [];
}

abbrev shut_down : Log ℕ
shut_down = record {
  queue = record { sender_open = false; items = 6 ∷ []; shut = true; len = 1 };
  accepted = 6 ∷ [];
  delivered = [];
  dropped = [];
}

run-fifo_example :
    let l = run start queue_calls in
    (l.accepted ≡ l.delivered ++ (l.queue.items ++ l.dropped))
    × (l.queue.len ≡ length l.queue.items % usize_mod)
run-fifo_example = run-fifo queue_calls

shutdown_drains_example :
    let r = run (step two_waiting (shuts false)) (gets ∷ gets ∷ []) in
    (r.delivered ≡ 5 ∷ 6 ∷ 7 ∷ []) × (r.dropped ≡ []) × (get r.queue ≡ ended)
shutdown_drains_example = shutdown_drains two_waiting refl

-- One publisher with two subscribers, of which the first already has an item.
abbrev open_queue : {A : Type 0} → List A → Queue A
open_queue items = record { sender_open = true; items = items; shut = false; len = length items }

abbrev two_listeners : Broadcast ℕ
two_listeners = record {
  subscribers = 0 ∷ 1 ∷ [];
  store = (0, open_queue (4 ∷ [])) ∷ (1, open_queue []) ∷ [];
  next_handle = 2;
}

two_listeners-Live : Live two_listeners
unfolding lookup
two_listeners-Live = record {
  distinct = (refl, (refl, tt));
  all_open = λ k m. ground (arith, m, ==_iff 0 k, ==_iff 1 k);
}

publish_nowait-delivers_example :
    let r = publish_nowait 9 two_listeners in
    (r.1 ≡ true)
    × ((k : ℕ)
        → held (lookup k r.0.store)
          ≡ grown (mem k two_listeners.subscribers) 9 (held (lookup k two_listeners.store)))
    × (r.0.subscribers ≡ two_listeners.subscribers)
    × Live r.0
publish_nowait-delivers_example = publish_nowait-delivers 9 two_listeners two_listeners-Live

abbrev one_call : ToolCall String
one_call = record { id = "call_1"; name = "ReadFile"; arguments = none; extras = none }

abbrev messages : List (WireMessage String ℕ)
messages =
    content_part (text (72 ∷ []))
    ∷ content_part (text (105 ∷ []))
    ∷ tool_call one_call
    ∷ tool_call_part (some (123 ∷ []))
    ∷ tool_call_part (some (125 ∷ []))
    ∷ turn_end
    ∷ []

abbrev one_listener : SoulSide String ℕ
one_listener = record {
  raw_queue = record { subscribers = []; store = []; next_handle = 0 };
  merged_queue = record { subscribers = 0 ∷ []; store = (0, open_queue []) ∷ []; next_handle = 1 };
  merge_buffer = none;
  closed = false;
}

-- Six messages reach the merged queue as three.
messages_sent :
    held (lookup 0 (send_all messages one_listener).merged_queue.store)
    ≡ content_part (text (72 ∷ 105 ∷ []))
      ∷ tool_call (record one_call { arguments = some (123 ∷ 125 ∷ []) })
      ∷ turn_end
      ∷ []
unfolding send_all send lookup publish_nowait merge_content put_nowait insert
messages_sent = refl

one_listener-Listens : Listens 0 one_listener
unfolding lookup
one_listener-Listens = record {
  subscribed = refl;
  live = record { distinct = (refl, tt); all_open = λ k m. ground (arith, m, ==_iff 0 k) };
}

send_all-heard_example :
    let t = Channel.flush (send_all messages one_listener) in
    (concat_atoms wire_atoms (held (lookup 0 t.merged_queue.store))
      ≡ heard 0 one_listener ++ concat_atoms wire_atoms messages)
    × (t.merge_buffer ≡ none)
send_all-heard_example = send_all-heard 0 messages one_listener one_listener-Listens
