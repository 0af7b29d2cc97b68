-- ===== src/Schedule/Query.antt =====
-- The callbacks of the schedule query of src/mio_schedule.c.
use libmio.Base.{
  ◌+◌, String, Bool, true, false, List, Option, none, some, str_eq, if◌then◌else◌, ◌>>=◌, add_last,
  update_last,
}
use libmio.Xml.{Attrs}
use libmio.Xml.Scan.{scan}
use libmio.Geoloc.{fill}
use libmio.Response.{Response, ResponseType, PacketType, packet, on_packet, xml_error_handler}
use libmio.Handlers.{Reader}
use libmio.Schedule.{Event, Recurrence, event_new, recurrence_new, scan_id}

-- What the callbacks share: the response, whether texts go to the recurrence, and whether
-- `xml_data->payload` points to an event, which is the last of the packet.
pub record Reading : Type 0 where
  pub response : Response (List Event)
  pub filling : Bool
  pub pointed : Bool

-- A write to the event. When an error has taken the place of the packet, nobody sees it.
abbrev pub on_event : Reading → (Event → Option Event) → Option Reading
on_event s f =
    let changed : Option Reading = elim s.response.response [
      | packet p ↦ update_last f p.payload >>= λ l. some (record s {
        response = record s.response { response = packet (record p { payload = l }) };
      })
      | _ ↦ some s
    ] in
    if s.pointed then changed else none

-- One attribute of an `event` element.
abbrev pub event_attribute : String → String → Event → Event
event_attribute k v e = record {
  id = if str_eq k "id" then scan_id v e.id else e.id;
  tranducer_name = if str_eq k "transducerName" then some v else e.tranducer_name;
  transducer_value = if str_eq k "transducerValue" then some v else e.transducer_value;
  time = if str_eq k "time" then some v else e.time;
  info = if str_eq k "info" then some v else e.info;
  recurrence = e.recurrence;
}

-- `mio_XMLstart_schedule_query`
unfoldable pub start_schedule_query : Reading → String → Attrs → Option Reading
start_schedule_query s name attrs =
    let with_items =
      if str_eq name "items"
      then on_packet (record s.response { response_type = ResponseType.packet })
          (λ p. record p { type = PacketType.schedule })
      else some s.response in
    with_items >>= λ r.
    if str_eq name "event"
    then (on_packet r (λ p. record p {
      num_payloads = p.num_payloads + 1;
      payload = add_last p.payload (scan event_attribute event_new attrs);
    })
        >>= λ r'. some (record { response = r'; filling = false; pointed = true }))
    else if str_eq name "recurrence"
    then (on_event (record s { response = r })
          (λ e. some (record e { recurrence = some recurrence_new }))
        >>= λ s'. some (record s' { filling = true }))
    else if str_eq name "error"
    then some (record s { response = xml_error_handler attrs r })
    else some (record s { response = r })

-- A text within the element `name`.
abbrev pub recurrence_chars : String → String → Recurrence → Recurrence
recurrence_chars name t r = record {
  freq = fill (str_eq name "freq") t r.freq;
  interval = fill (str_eq name "interval") t r.interval;
  count = fill (str_eq name "count") t r.count;
  until = fill (str_eq name "until") t r.until;
  bymonth = fill (str_eq name "bymonth") t r.bymonth;
  byday = fill (str_eq name "byday") t r.byday;
  exdate = fill (str_eq name "exdate") t r.exdate;
}

-- `mio_XMLString_recurrence`
unfoldable pub string_recurrence : Reading → Option String → String → Option Reading
string_recurrence s none t = none
string_recurrence s (some name) t =
    on_event s
      (λ e. e.recurrence >>= λ r. some (record e { recurrence = some (recurrence_chars name t r) }))

-- The callbacks of `mio_handler_schedule_query`. There is no text callback before the first
-- recurrence, and none from the next event on.
abbrev pub schedule_reader : Reader Reading
schedule_reader = record {
  renames = true;
  at_start = λ s _ _ name attrs. start_schedule_query s name attrs;
  at_chars =
      λ s curr t. let filled = string_recurrence s curr t in if s.filling then filled else some s;
}
