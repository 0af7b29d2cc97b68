-- ===== src/Schedule/Callbacks.antt =====
-- The callbacks of the schedule query as functions of the attributes.
use libmio.Base.{
  ◌+◌, ◌≡◌, refl, String, true, false, Option, none, some, str_eq, if◌then◌else◌, ◌>>=◌, add_last,
}
use libmio.Decimal.{negsuc}
use libmio.Xml.{Attrs, attribute, Distinct}
use libmio.Xml.Scan.{scan, apply_to, member-scan, member-untouched}
use libmio.Response.{ResponseType, PacketType, on_packet}
use libmio.Response.Errors.{noted, xml_error_handler-noted}
use libmio.Handlers.Renamed.{renaming}
use libmio.Handlers.Visit.{Visitor, Agrees, >>=-cong}
use libmio.Schedule.{Event, event_new, recurrence_new, scan_id}
use libmio.Schedule.Query.{
  Reading, on_event, event_attribute, start_schedule_query, schedule_reader,
}

-- What the scan over the attributes of an `event` element yields.
abbrev pub received : (String → Option String) → Event
received a = record {
  id = apply_to scan_id (negsuc 0) (a "id");
  tranducer_name = apply_to (λ v _. some v) none (a "transducerName");
  transducer_value = apply_to (λ v _. some v) none (a "transducerValue");
  time = apply_to (λ v _. some v) none (a "time");
  info = apply_to (λ v _. some v) none (a "info");
  recurrence = none;
}

scan-received :
    (attrs : Attrs)
    → Distinct attrs
    → scan event_attribute event_new attrs ≡ received (λ k. attribute k attrs)
scan-received attrs once =
    let i =
      member-scan event_attribute (λ e. e.id) "id" scan_id (λ _ _ _. refl) attrs event_new once in
    let n =
      member-scan event_attribute (λ e. e.tranducer_name) "transducerName" (λ v _. some v)
        (λ _ _ _. refl) attrs event_new once in
    let v =
      member-scan event_attribute (λ e. e.transducer_value) "transducerValue" (λ v _. some v)
        (λ _ _ _. refl) attrs event_new once in
    let t =
      member-scan event_attribute (λ e. e.time) "time" (λ v _. some v) (λ _ _ _. refl) attrs
        event_new once in
    let f =
      member-scan event_attribute (λ e. e.info) "info" (λ v _. some v) (λ _ _ _. refl) attrs
        event_new once in
    let r = member-untouched event_attribute (λ e. e.recurrence) (λ _ _ _. refl) attrs event_new in
    λ j. record {
      id = i j;
      tranducer_name = n j;
      transducer_value = v j;
      time = t j;
      info = f j;
      recurrence = r j;
    }

abbrev pub visitor : Visitor Reading
visitor = record {
  enter = λ s _ _ name a.
      let with_items =
        if str_eq name "items"
        then on_packet (record s.response { response_type = ResponseType.packet })
            (λ p. record p { type = PacketType.schedule })
        else some s.response in
      with_items >>= λ r.
      if str_eq name "event"
      then (on_packet r (λ p. record p {
        num_payloads = p.num_payloads + 1;
        payload = add_last p.payload (received a);
      })
          >>= λ r'. some (record { response = r'; filling = false; pointed = true }))
      else if str_eq name "recurrence"
      then (on_event (record s { response = r })
            (λ e. some (record e { recurrence = some recurrence_new }))
          >>= λ s'. some (record s' { filling = true }))
      else if str_eq name "error"
      then some (record s { response = noted a r })
      else some (record s { response = r });
  on_text = schedule_reader.at_chars;
}

pub schedule_reader-visitor : Agrees (renaming false schedule_reader) visitor
unfolding start_schedule_query
schedule_reader-visitor = record {
  plain = refl;
  at_start = λ s prev around n attrs once.
      let with_items =
        if str_eq n "items"
        then on_packet (record s.response { response_type = ResponseType.packet })
            (λ p. record p { type = PacketType.schedule })
        else some s.response in
      >>=-cong with_items
        (λ r. rw (scan-received attrs once, xml_error_handler-noted attrs r once));
  at_chars = λ _ _ _. refl;
}
