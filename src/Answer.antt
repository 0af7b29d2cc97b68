-- ===== src/Answer.antt =====
-- The handlers that read the answer to a request: `mio_handler_generic_id` of src/mio_handlers.c,
-- `mio_handler_error` of src/mio_error.c, and what the handlers of src/mio_affiliations.c and src/mio_collection.c share.
pub mod Delivered
use libmio.Base.{
  String, Bool, true, false, List, [], ◌∷◌, Option, none, some, str_eq, if◌then◌else◌,
}
use libmio.Run.{Ptr, write, Run, done, fault, ◌>>=◌, load}
use libmio.Xml.{Attrs}
use libmio.Response.{Code, Response, ResponseType, packet, packet_new, xml_error_handler}
use libmio.Handlers.{Reader, Document, xml_parse, starts_only}
use libmio.Connection.{HashTable, Conn, request_get, cond_signal}
use libmio.Send.{remove_id}

-- A `none` of the callbacks is undefined behaviour.
abbrev pub or_fault : {A : Type 0} → Option A → Run A
or_fault none = fault
or_fault (some a) = done a

-- How a handler reads: what it makes of the response before, the callbacks, and what it makes of
-- the response behind a text that was read to its end.
pub record Answering (P : Type 0) : Type 0 where
  pub prepare : Response P → Response P
  pub reader : Reader (Response P)
  pub finish : Response P → Response P

-- A handler that puts an empty packet into the response.
abbrev pub with_packet : {A : Type 0} → Reader (Response (List A)) → Answering (List A)
with_packet reader = record {
  prepare = λ r. record r { response = packet (packet_new []) };
  reader = reader;
  finish = λ r. r;
}

-- `mio_XMLstart_error`
unfoldable pub start_error : {P : Type 0} → Response P → String → Attrs → Option (Response P)
start_error r name attrs =
    let s = if str_eq name "error" then xml_error_handler attrs r else r in
    some (elim s.response_type [
      | ResponseType.error ↦ s
      | _ ↦ record s { response_type = ResponseType.ok }
    ])

-- `mio_handler_error`
abbrev pub handler_error : {P : Type 0} → Answering P
handler_error = record { prepare = λ r. r; reader = starts_only start_error; finish = λ r. r }

module _ (H : HashTable) {P : Type 0} where
  open H use {Table}

  -- Behind a text that was read to its end, the request is signalled.
  abbrev pub answered :
      Ptr
      → Ptr
      → (Response P → Response P)
      → Conn Table P
      → Code × Response P
      → Run (Code × Conn Table P)
  answered p response finish c (Code.ok, r) = do
    d ← cond_signal H (record c { responses = write c.responses response (some (finish r)) }) p
    done (Code.ok, d)
  answered p response finish c (code, r) =
      done (code, record c { responses = write c.responses response (some r) })

  abbrev pub read_answer :
      Answering P
      → Ptr
      → Document
      → Conn Table P
      → Response P
      → Option Ptr
      → Run (Code × Conn Table P)
  read_answer h response document c r none = done (Code.error_request_not_found, c)
  read_answer h response document c r (some p) = do
    read ← or_fault (xml_parse h.reader (h.prepare r) document)
    answered p response h.finish c read

  -- A handler of the answer to the request that is named in the response. `locked` tells whether
  -- the lock of the table was had.
  unfoldable pub answer_handler :
      Answering P
      → (locked : Bool) → (response : Ptr) → Document
      → Conn Table P
      → Run (Code × Conn Table P)
  answer_handler h locked response document c = do
    r ← load c.responses response
    read_answer h response document c r (request_get H locked c r.id)

  -- libstrophe removes the handler of an id when `mio_handler_generic_id` returns 0.
  abbrev pub kept_or_removed : String → Code × Conn Table P → Conn Table P
  kept_or_removed id (Code.ok, c) = record c { handlers = remove_id id c.handlers }
  kept_or_removed id (_, c) = c

  -- `mio_handler_generic_id`
  unfoldable pub handler_generic_id :
      (handler : Conn Table P → Run (Code × Conn Table P))
      → String
      → Conn Table P
      → Run (Conn Table P)
  handler_generic_id handler id c = do result ← handler c; done (kept_or_removed id result)
