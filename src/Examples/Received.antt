-- ===== src/Examples/Received.antt =====
-- A publication that arrives while a caller waits, and a listening that is stopped meanwhile.
use libmio.Base.{
  ◌≡◌, refl, true, false, List, [], ◌∷◌, none, some, str_eq, if◌then◌else◌, ◌==◌, arith,
}
use libmio.Run.{done, fault}
use libmio.Xml.{start, stop}
use libmio.Xml.Scan.{scan}
use libmio.Response.{Code, ResponseType, PacketType, response_new, packet}
use libmio.Handlers.{Document, complete, xml_parse, read, update_start, update_end}
use libmio.Connection.{HashTable, functions, Conn, Request, request_new, Presence}
use libmio.Transducer.{MioData, transducer_data, linked}
use libmio.Transducer.Query.{Receiving, data_reader, start_data_receive}
use libmio.Receive.{Surroundings, Turn, data_receive, data_response}
use libmio.Receive.Delivered.{
  Listens, published, stopped, data_receive-received, data_receive-stopped,
}

abbrev C : Type 0
C = Conn (HashTable.Table functions) MioData

abbrev request : Request
request = record request_new { id = "pubsub_data_rx" }

-- The request is at address 4, and the caller's response at 7.
abbrev listening : C
listening = record {
  requests = λ p. if p == 4 then some request else none;
  responses = λ p. if p == 7 then some response_new else none;
  table = λ k. if str_eq k "pubsub_data_rx" then some 4 else none;
  open_requests = 99;
  handlers = [];
  sent = [];
  authenticated = true;
  presence_status = Presence.present;
  conn_predicate = false;
  conn_mutex_held = false;
  rx_queue = [];
  rx_queue_len = 0;
  rx_listening = true;
}

listens : Listens functions listening 4 request
listens = record {
  authenticated = refl;
  empty = refl;
  counted = refl;
  listening = refl;
  found = refl;
  allocated = refl;
  quiet = refl;
}

abbrev document : Document
document = complete (
    start "message" []
    ∷ start "event" []
    ∷ start "items" (("node", "lamp") ∷ [])
    ∷ start "item" []
    ∷ start "transducerData" (("name", "on") ∷ ("value", "1") ∷ [])
    ∷ stop "transducerData"
    ∷ stop "item"
    ∷ stop "items"
    ∷ stop "event"
    ∷ stop "message"
    ∷ [])

abbrev arrived : Receiving
arrived = record {
  response = record {
    id = "pubsub_data_rx";
    response_type = ResponseType.packet;
    response = packet (record {
      type = PacketType.data_packet;
      num_payloads = 1;
      payload = record {
        event = some "lamp";
        num_transducers = 1;
        transducers = linked (
            record { type = transducer_data; name = some "on"; value = some "1"; timestamp = none }
            ∷ []);
      };
    });
  };
  pointed = true;
}

document_read : xml_parse (data_reader "now") data_response document ≡ some (Code.ok, arrived)
unfolding xml_parse read update_start update_end start_data_receive scan
document_read = refl

abbrev surroundings : List (Turn C) → Surroundings C
surroundings turns = record {
  locked = true;
  presence = "<presence/>";
  register = λ c. c;
  uuid = "u1";
  fresh = 5;
  address = 1;
  turns = turns;
}

data_receive-received_example :
    (d : C) × (data_receive functions
        (surroundings (published functions "now" 9 document ∷ []))
        7
        listening
      ≡ done (Code.ok, d))
    × (d.responses 7 ≡ some arrived.response)
    × (d.responses 9 ≡ none)
    × Listens functions d 4 request
data_receive-received_example =
    data_receive-received functions "now" 9 4 7 document
      (surroundings (published functions "now" 9 document ∷ [])) [] listening request arrived
      response_new refl refl listens (omega arith) refl document_read refl

data_receive-stopped_example :
    data_receive functions (surroundings (stopped functions ∷ [])) 7 listening ≡ fault
data_receive-stopped_example =
    data_receive-stopped functions 4 7 (surroundings (stopped functions ∷ [])) [] listening request
      refl refl listens
