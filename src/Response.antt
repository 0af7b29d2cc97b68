-- ===== src/Response.antt =====
-- Responses and packets (src/mio_connection.h, src/mio_packet.h, src/mio_packet.c), and the parser
-- of error elements (src/mio_error.c). `P` is what the payload's `void *` points to.
pub mod Errors
pub mod Payloads
use libmio.Base.{
  ℕ, ◌≡◌, refl, String, Bool, true, false, List, [], ◌∷◌, Option, none, some, str_eq, if◌then◌else◌,
}
use libmio.Decimal.{ℤ, pos, negsuc, atoi}
use libmio.Xml.{Attrs}
use libmio.Xml.Scan.{scan}

-- The codes that the functions return. (Those that no modelled function returns are left out.)
pub data Code : Type 0 where
  ok error_connection error_disconnected error_request_not_found : Code
  error_mutex error_cond_wait error_too_many_open_requests error_predicate : Code
  error_xml_null_stanza error_xml_parsing error_handler_add : Code
  error_timeout error_rw_lock error_no_response error_duplicate_entry : Code
  error_unexpected_response error_unexpected_payload error_reference_loop : Code
  error_unknown_affiliation_type transducer_null_name transducer_null_value : Code
  handler_keep handler_remove error_already_subscribed : Code
  -- the 0 of an `err` that nothing sets
  zero_code : Code

-- `err == MIO_OK`
abbrev pub is_ok : Code → Bool
is_ok Code.ok = true
is_ok _ = false

pub data ResponseType : Type 0 where
  unknown ok error packet : ResponseType

pub data PacketType : Type 0 where
  unknown data_packet meta subscriptions affiliations collections node_type schedule : PacketType
  references : PacketType

pub record ResponseError : Type 0 where
  pub err_num : ℤ
  pub description : Option String

pub record Packet (P : Type 0) : Type 0 where
  pub type : PacketType
  pub num_payloads : ℕ
  pub payload : P

-- what `response->response` points to
pub data Body (P : Type 0) : Type 0 where
  null : Body P
  err : ResponseError → Body P
  packet : Packet P → Body P

-- The fields `ns`, `name`, `type` and `stanza` only label a response and are left out.
pub record Response (P : Type 0) : Type 0 where
  pub id : String
  pub response_type : ResponseType
  pub response : Body P

abbrev pub response_new : {P : Type 0} → Response P
response_new = record { id = ""; response_type = ResponseType.unknown; response = null }

abbrev pub packet_new : {P : Type 0} → P → Packet P
packet_new p = record { type = PacketType.unknown; num_payloads = 0; payload = p }

abbrev pub response_error_new : ResponseError
response_error_new = record { err_num = pos 0; description = none }

-- `(mio_packet_t *) response->response`; another type behind the pointer is a fault.
abbrev pub on_packet : {P : Type 0} → Response P → (Packet P → Packet P) → Option (Response P)
on_packet r f = elim r.response [
  | packet p ↦ some (record r { response = packet (f p) })
  | _ ↦ none
]

-- One attribute of an `error` element: the error, and whether the response has come to point to it.
abbrev pub error_attribute : String → String → ResponseError × Bool → ResponseError × Bool
error_attribute k v (e, linked) =
    if str_eq k "type"
    then (record e { description = some v }, true)
    else if str_eq k "code"
    then (record e { err_num = atoi v }, linked)
    else (e, linked)

-- `mio_XML_error_handler`: an error without a type leaves the response alone.
unfoldable pub xml_error_handler : {P : Type 0} → Attrs → Response P → Response P
xml_error_handler attrs r =
    let (e, linked) = scan error_attribute (response_error_new, false) attrs in
    if linked then record r { response_type = ResponseType.error; response = err e } else r
