-- ===== src/Node/Types.antt =====
-- The answer to a query for the type of a node: `mio_XMLstart_node_type_query` and
-- `mio_handler_node_type_query` of src/mio_meta.c.
use libmio.Base.{String, Option, none, some, str_eq, if◌then◌else◌}
use libmio.Xml.{Attrs}
use libmio.Xml.Scan.{scan}
use libmio.Response.{
  Response, ResponseType, PacketType, packet, packet_new, on_packet, xml_error_handler,
}
use libmio.Handlers.{starts_only}
use libmio.Answer.{Answering}
use libmio.Node.{NodeType}

abbrev pub type_named : String → NodeType
type_named v =
    if str_eq v "collection"
    then NodeType.collection
    else if str_eq v "leaf"
    then NodeType.leaf
    else NodeType.unknown

abbrev pub identity_attribute : String → String → Option NodeType → Option NodeType
identity_attribute k v t = if str_eq k "type" then some (type_named v) else t

-- `mio_XMLstart_node_type_query`; the payload is `NULL` at first.
unfoldable pub start_node_type_query :
    Response (Option NodeType) → String → Attrs → Option (Response (Option NodeType))
start_node_type_query r name attrs =
    if str_eq name "identity"
    then (elim (scan identity_attribute none attrs) [
      | none ↦ some r
      | some t ↦
          on_packet (record r { response_type = ResponseType.packet })
            (λ p. record p { type = PacketType.node_type; num_payloads = 1; payload = some t })
    ])
    else if str_eq name "error"
    then some (xml_error_handler attrs r)
    else some r

-- `mio_handler_node_type_query`
abbrev pub handler_node_type_query : Answering (Option NodeType)
handler_node_type_query = record {
  prepare = λ r. record r { response = packet (packet_new none) };
  reader = starts_only start_node_type_query;
  finish = λ r. r;
}
