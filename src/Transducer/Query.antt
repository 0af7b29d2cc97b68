-- ===== src/Transducer/Query.antt =====
-- What the receivers of published values read: `mio_XMLstart_pubsub_data_receive` of
-- src/mio_pubsub.c.
use libmio.Base.{
  ◌+◌, String, Bool, true, false, [], ◌∷◌, Option, none, some, str_eq, ◌||◌, if◌then◌else◌, ◌>>=◌,
}
use libmio.Xml.{Attrs}
use libmio.Xml.Scan.{scan}
use libmio.Response.{Response, ResponseType, Packet, on_packet, packet}
use libmio.Handlers.{Reader}
use libmio.Transducer.{
  DataType, transducer_data, transducer_set_data, TransducerData, transducer_data_new, MioData,
  Chain, linked, dangling, Placed, refused, alone, kept, replaced, transducer_data_add,
}

-- The response, and whether `xml_data->payload` is set: it then points where `transducers` does.
pub record Receiving : Type 0 where
  pub response : Response MioData
  pub pointed : Bool

-- One attribute of an `items` element.
abbrev pub items_attribute : String → String → Packet MioData → Packet MioData
items_attribute k v p = record {
  type = p.type;
  num_payloads = if str_eq k "node" then p.num_payloads + 1 else p.num_payloads;
  payload = if str_eq k "node" then record p.payload { event = some v } else p.payload;
}

-- One attribute of a value.
abbrev pub data_attribute : String → String → TransducerData → TransducerData
data_attribute k v t = record {
  type = t.type;
  name = if str_eq k "name" then some v else t.name;
  value = if str_eq k "value" then some v else t.value;
  timestamp = if str_eq k "timestamp" then some v else t.timestamp;
}

-- What the head of the list is, behind `mio_transducer_data_add`.
abbrev pub settled : Chain → Placed → Chain
settled c (refused _) = c
settled c (alone _) = c
settled c (kept ts) = linked ts
settled c (replaced _) = dangling

-- A value behind the first.
abbrev pub add_to : (now : String) → TransducerData → MioData → Option MioData
add_to now t d = elim d.transducers [
  | linked ts ↦ some (record d {
    num_transducers = d.num_transducers + 1;
    transducers = settled (linked ts) (transducer_data_add now ts t);
  })
  | dangling ↦ none
]

abbrev pub data_type_of : String → DataType
data_type_of name = if str_eq name "transducerData" then transducer_data else transducer_set_data

abbrev pub is_value : String → Bool
is_value name = str_eq name "transducerData" || str_eq name "transducerSetData"

-- A value that is the first of a document starts the list anew.
abbrev pub take_value : (now : String) → TransducerData → Receiving → Option Receiving
take_value now t s =
    if s.pointed
    then (elim s.response.response [
      | packet p ↦ add_to now t p.payload >>= λ d. some (record s {
        response = record s.response { response = packet (record p { payload = d }) };
      })
      | _ ↦ none
    ])
    else (on_packet (record s.response { response_type = ResponseType.packet })
          (λ p. record p {
            payload = record p.payload {
              num_transducers = p.payload.num_transducers + 1;
              transducers = linked (t ∷ []);
            };
          })
        >>= λ r. some (record { response = r; pointed = true }))

-- `mio_XMLstart_pubsub_data_receive`
unfoldable pub start_data_receive : (now : String) → Receiving → String → Attrs → Option Receiving
start_data_receive now s name attrs =
    if str_eq name "items"
    then (on_packet s.response (λ p. scan items_attribute p attrs) >>= λ r.
        some (record s { response = r }))
    else if is_value name
    then take_value now
        (scan data_attribute (record transducer_data_new { type = data_type_of name }) attrs) s
    else (on_packet s.response (λ p. p) >>= λ r. some (record s { response = r }))

-- The callbacks of `mio_handler_pubsub_data_receive` and `mio_handler_item_recent_get`.
abbrev pub data_reader : (now : String) → Reader Receiving
data_reader now = record {
  renames = false;
  at_start = λ s _ _ name attrs. start_data_receive now s name attrs;
  at_chars = λ s _ _. some s;
}
