-- ===== src/Collection/Query.antt =====
-- The callbacks of the queries for the children and the parents of a node, and their handlers, of
-- src/mio_collection.c.
use libmio.Base.{String, Bool, true, false, List, [], Option, none, some, str_eq, if◌then◌else◌}
use libmio.Xml.{Attrs}
use libmio.Xml.Scan.{scan}
use libmio.Response.{
  Response, ResponseType, PacketType, Body, packet, packet_new, on_packet, xml_error_handler,
}
use libmio.Handlers.{Reader, starts_only}
use libmio.Answer.{Answering}
use libmio.Collection.{Collection, collection_add}

abbrev pub item_attribute : String → String → Collection → Collection
item_attribute k v e = record {
  node = if str_eq k "node" then some v else e.node;
  name = if str_eq k "name" then some v else e.name;
}

abbrev pub collection_new : Collection
collection_new = record { node = none; name = none }

-- `mio_XMLstart_collection_children_query`
unfoldable pub start_children_query :
    Response (List Collection) → String → Attrs → Option (Response (List Collection))
start_children_query r name attrs =
    if str_eq name "item"
    then (let e = scan item_attribute collection_new attrs in
        on_packet r (λ p. collection_add p e.node e.name))
    else if str_eq name "error"
    then some (xml_error_handler attrs r)
    else some r

abbrev pub children_reader : Reader (Response (List Collection))
children_reader = starts_only start_children_query

-- What both handlers write behind a text that was read to its end: the type of the packet that they
-- made is set, also where the response has come to point to an error.
abbrev pub marked : Body (List Collection) → Body (List Collection)
marked (packet p) = packet (record p { type = PacketType.collections })
marked b = b

abbrev pub mark_packet : Response (List Collection) → Response (List Collection)
mark_packet r = record r { response_type = ResponseType.packet; response = marked r.response }

-- `mio_handler_collection_children_query`
abbrev pub handler_children_query : Answering (List Collection)
handler_children_query = record {
  prepare = λ r. record r { response = packet (packet_new []) };
  reader = children_reader;
  finish = mark_packet;
}

-- `xml_data->payload`: `NULL`, the packet of the handler, or an error that has taken its place in
-- the response.
pub data Payload : Type 0 where
  no_payload to_packet to_error : Payload

-- What the callbacks of the other query share: the response, whether texts are read, and where
-- `xml_data->payload` points.
pub record Parents : Type 0 where
  pub response : Response (List Collection)
  pub reading : Bool
  pub payload : Payload

abbrev pub payload_of : Body (List Collection) → Payload
payload_of (packet p) = to_packet
payload_of _ = to_error

-- One attribute of a `field` element.
abbrev pub field_attribute : String → String → Parents → Parents
field_attribute k v s =
    if str_eq k "var"
    then (if str_eq "pubsub#collection" v
        then record s { reading = true; payload = payload_of s.response.response }
        else s)
    else record s { reading = false }

-- `mio_XMLstart_collection_parents_query`
unfoldable pub start_parents_query : Parents → String → Attrs → Option Parents
start_parents_query s name attrs =
    if str_eq name "field"
    then some (scan field_attribute s attrs)
    else if str_eq name "error"
    then some (record s { response = xml_error_handler attrs s.response })
    else some s

-- A text that is added to the packet; nobody sees it once an error has taken the packet's place.
abbrev pub add_text : String → Response (List Collection) → Response (List Collection)
add_text t r = elim r.response [
  | packet p ↦ record r { response = packet (collection_add p (some t) none) }
  | _ ↦ r
]

-- `mio_XMLString_collection_query`
unfoldable pub string_collection_query : Parents → Option String → String → Option Parents
string_collection_query s none t = none
string_collection_query s (some name) t =
    if str_eq name "value"
    then (elim s.payload [
      | to_packet ↦ some (record s { response = add_text t s.response })
      | _ ↦ none
    ])
    else some s

-- The callbacks of `mio_handler_collection_parents_query`. The start callback sets the names once more
-- behind the update of the place, which leaves the current one.
abbrev pub parents_reader : Reader Parents
parents_reader = record {
  renames = false;
  at_start = λ s _ _ name attrs. start_parents_query s name attrs;
  at_chars =
      λ s curr t. let read = string_collection_query s curr t in if s.reading then read else some s;
}
