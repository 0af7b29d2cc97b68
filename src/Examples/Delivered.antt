-- ===== src/Examples/Delivered.antt =====
-- A query for subscriptions, from its stanza to the list that the caller gets.
use libmio.Base.{◌≡◌, refl, true, false, List, [], ◌∷◌, none, some, arith}
use libmio.Run.{done}
use libmio.Xml.{start, stop}
use libmio.Xml.Scan.{scan}
use libmio.Response.{Code, Response, ResponseType, PacketType, response_new, packet}
use libmio.Handlers.{Document, complete, xml_parse, read, update_start, update_end}
use libmio.Connection.{HashTable, functions, Conn, Presence}
use libmio.Send.{World, signalled, send_blocking}
use libmio.Send.Stages.{Ready, Keeps}
use libmio.Answer.{Answering}
use libmio.Answer.Delivered.{delivers, send_blocking-delivers}
use libmio.Affiliations.{Subscription, subscription_add}
use libmio.Affiliations.Query.{handler_subscriptions_query, start_subscriptions_query}

abbrev C : Type 0
C = Conn (HashTable.Table functions) (List Subscription)

-- No request is open, and the caller's response is at address 7.
abbrev idle : C
idle = record {
  requests = λ _. none;
  responses = λ _. some response_new;
  table = λ _. none;
  open_requests = 100;
  handlers = [];
  sent = [];
  authenticated = true;
  presence_status = Presence.present;
  conn_predicate = false;
  conn_mutex_held = false;
  rx_queue = [];
  rx_queue_len = 0;
  rx_listening = true;
}

abbrev nothing : C → C
nothing c = c

-- `malloc` returns 9, the first attempt is taken, and the wait is signalled.
abbrev world : World C
world = record {
  fresh = 9;
  locked = true;
  attempts = λ _. record { text = some "<iq/>"; authenticated = true; locked = true; wakes = [] };
  others = nothing;
  request_locked = true;
  delete_locked = true;
  meanwhile = nothing;
  wait = signalled;
}

ready : Ready functions world idle "q1" 7
ready = record {
  slots = omega arith;
  unused = refl;
  label = response_new;
  answerable = refl;
  locked = refl;
  request_locked = refl;
  delete_locked = refl;
  authenticated = refl;
  loop_locked = refl;
}

keeps : Keeps functions {P = List Subscription} 9 nothing
keeps d r here found = (here, found, refl)

abbrev handler : Answering (List Subscription)
handler = handler_subscriptions_query

abbrev document : Document
document = complete (
    start "iq" []
    ∷ start "pubsub" []
    ∷ start "subscriptions" []
    ∷ start "subscription" (("subid", "17") ∷ ("node", "door") ∷ [])
    ∷ stop "subscription"
    ∷ stop "subscriptions"
    ∷ stop "pubsub"
    ∷ stop "iq"
    ∷ [])

abbrev expected : Response (List Subscription)
expected = record {
  id = "q1";
  response_type = ResponseType.packet;
  response = packet (record {
    type = PacketType.subscriptions;
    payload = record { subscription = "door"; sub_id = "17" } ∷ [];
    num_payloads = 1;
  });
}

document_read :
    xml_parse handler.reader (handler.prepare (record response_new { id = "q1" })) document
    ≡ some (Code.ok, expected)
unfolding xml_parse read update_start update_end start_subscriptions_query scan subscription_add
document_read = refl

send_blocking-delivers_example :
    (d : C) × (send_blocking functions
        (delivers functions handler 7 "q1" document world)
        idle
        1
        "q1"
        7
      ≡ done (Code.ok, d))
    × (d.responses 7 ≡ some (handler.finish expected))
    × (d.requests 9 ≡ none)
    × (d.table "q1" ≡ none)
    × (d.open_requests ≡ 100)
send_blocking-delivers_example =
    send_blocking-delivers functions handler world idle 1 "q1" 7 document response_new expected
      ready refl keeps (λ d. refl) refl document_read
