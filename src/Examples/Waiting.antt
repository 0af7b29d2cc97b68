-- ===== src/Examples/Waiting.antt =====
-- The theorems on the end of the receive queue, and on a reconnection, at a small connection.
use libmio.Base.{◌≡◌, refl, ℕ, true, false, [], ◌∷◌, ◌++◌, none, some, arith}
use libmio.Run.{write, done, fault}
use libmio.Response.{response_new}
use libmio.Connection.{HashTable, functions, Conn, Presence, request_new, rx_queue_clear}
use libmio.Connection.Clear.{without_all, rx_queue_clear-freed}
use libmio.Connection.Queue.{with_queue}
use libmio.Connection.Reconnect.{Session, conn_connect, trigger_all, handler_conn_generic}
use libmio.Connection.Reconnect.Handled.{handler_conn_generic-Reconnects}
use libmio.Decimal.{pos}
use libmio.Connection.Reconnect.Triggered.{freed_requests, interrupted, trigger_all-Strands}
use libmio.Send.{World, signalled, response_wait}

abbrev C : Type 0
C = Conn (HashTable.Table functions) ℕ

-- Three publications in the queue, at 4, 5 and 6, and two requests, of which the one at 9 waits for
-- an answer and the one at 8 for publications.
abbrev busy : C
busy = record {
  requests =
      write (write (λ _. none) 8 (some (record request_new { id = "pubsub_data_rx" }))) 9
        (some (record request_new { id = "q1" }));
  responses = λ _. some response_new;
  table = λ _. none;
  open_requests = 98;
  handlers = [];
  sent = [];
  authenticated = true;
  presence_status = Presence.present;
  conn_predicate = false;
  conn_mutex_held = false;
  rx_queue = 4 ∷ 5 ∷ 6 ∷ [];
  rx_queue_len = 3;
  rx_listening = true;
}

rx_queue_clear-freed_example :
    rx_queue_clear 4 busy
    ≡ done
        (some (record (with_queue busy []) { responses = without_all (5 ∷ 6 ∷ []) busy.responses }))
unfolding write
rx_queue_clear-freed_example =
    rx_queue_clear-freed 4 busy (record { counted = refl; bounded = omega arith }) (omega arith)
      (response_new, refl, (response_new, refl, tt))

abbrev waiting : World C
waiting = record {
  fresh = 9;
  locked = true;
  attempts = λ _. record { text = some "<iq/>"; authenticated = true; locked = true; wakes = [] };
  others = λ c. c;
  request_locked = true;
  delete_locked = true;
  meanwhile = λ c. c;
  wait = signalled;
}

trigger_all-Strands_example :
    (response_wait functions (interrupted functions waiting ((8 ∷ []) ++ (9 ∷ []))) busy 9 ≡ fault)
    × ((c' : C) × (trigger_all functions ((8 ∷ []) ++ (9 ∷ [])) busy ≡ done c')
        × (c'.open_requests ≡ 98))
unfolding write
trigger_all-Strands_example =
    trigger_all-Strands functions waiting busy (8 ∷ []) [] 9 (record request_new { id = "q1" })
      (
        record request_new { id = "pubsub_data_rx" },
        refl,
        (record request_new { id = "q1" }, refl, tt),
      )
      refl refl refl refl

abbrev lost : Session (HashTable.Table functions) ℕ
lost = record {
  conn = record busy { rx_queue = []; rx_queue_len = 0 };
  has_connected = true;
  retries = 2;
  response = none;
}

handler_conn_generic-Reconnects_example :
    (s' : Session (HashTable.Table functions) ℕ) × (handler_conn_generic functions true
        "<presence/>"
        (λ _. 8 ∷ 9 ∷ [])
        (pos 1)
        (λ s. s)
        (λ s. s)
        conn_connect
        lost
      ≡ done s')
    × (s'.conn.requests ≡ freed_requests (8 ∷ 9 ∷ []) busy.requests)
    × (s'.conn.open_requests ≡ 98)
    × (s'.conn.conn_predicate ≡ true)
    × (s'.has_connected ≡ true)
    × (s'.retries ≡ 0)
unfolding write
handler_conn_generic-Reconnects_example =
    handler_conn_generic-Reconnects functions true "<presence/>" (λ _. 8 ∷ 9 ∷ []) (pos 1) (λ s. s)
      (λ s. s) lost (omega arith) refl
      (
        record request_new { id = "pubsub_data_rx" },
        refl,
        (record request_new { id = "q1" }, refl, tt),
      )
