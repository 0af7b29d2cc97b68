-- ===== src/Examples/Schedules.antt =====
-- A schedule, published and read back, and the lists of events.
use libmio.Base.{
  ◌≡◌, refl, String, List, [], ◌∷◌, map, Bool, false, Option, none, some, arith, str_eq,
  if◌then◌else◌,
}
use libmio.Decimal.{pos, truncate, write}
use libmio.Geoloc.{element_add_string}
use libmio.Xml
use libmio.Xml.{trees, Attrs, attribute, start, stop, chars, Tree, element, text, nil, cons}
use libmio.Examples.Told.{no_attributes, Told, around, around_all, none_told, first_told, with_text}
use libmio.Response.{Code, ResponseType, PacketType, response_new, packet_new}
use libmio.Response.Payloads.{answer, with_more}
use libmio.Handlers.{complete, xml_parse}
use libmio.Schedule.{
  Event, Recurrence, recurrence_new, event_new, event_to_item, event_remove, event_renumber,
  event_merge,
}
use libmio.Schedule.Query.{schedule_reader}
use libmio.Schedule.Lists.{event_remove-numbered, event_merge-found, Updates}
use libmio.Schedule.Events.{at, sent}
use libmio.Schedule.Walk.{is_plain}
use libmio.Schedule.Item.{AreSent}
use libmio.Schedule.RoundTrip.{schedule_reader-event_to_item}

abbrev yearly : Recurrence
yearly = record recurrence_new { freq = some "YEARLY"; bymonth = some "5"; byday = some "MO" }

abbrev lamp_on : Event
lamp_on = record event_new { id = pos 0; info = some "lamp"; recurrence = some yearly }

abbrev lamp_off : Event
lamp_off = record event_new { id = pos 0; info = some "off" }

abbrev lamp_attributes : Attrs
lamp_attributes = ("id", "0") ∷ ("info", "lamp") ∷ []

abbrev callbacks : List Xml.Event
callbacks =
    start "iq" []
    ∷ start "pubsub" []
    ∷ start "items" []
    ∷ start "item" (("id", "schedule") ∷ [])
    ∷ start "schedule" []
    ∷ start "event" lamp_attributes
    ∷ start "recurrence" []
    ∷ start "freq" []
    ∷ chars "YEARLY"
    ∷ stop "freq"
    ∷ start "bymonth" []
    ∷ chars "5"
    ∷ stop "bymonth"
    ∷ start "byday" []
    ∷ chars "5"
    ∷ stop "byday"
    ∷ stop "recurrence"
    ∷ stop "event"
    ∷ stop "schedule"
    ∷ stop "item"
    ∷ stop "items"
    ∷ stop "pubsub"
    ∷ stop "iq"
    ∷ []

abbrev written : String → Option String
written k = if str_eq "info" k then some "lamp" else if str_eq "id" k then some "0" else none

same_attributes : (k : String) → attribute k lamp_attributes ≡ written k
same_attributes k = ground arith

abbrev item_of : Option Tree → Tree
item_of none = text ""
item_of (some t) = t

told :
    Told
      (answer no_attributes no_attributes no_attributes
        (item_of (event_to_item trees (lamp_on ∷ []))))
      callbacks
unfolding event_to_item element_add_string truncate write
told =
    around "iq" [] no_attributes tt (λ _. refl)
      (around "pubsub" [] no_attributes tt (λ _. refl)
        (around "items" [] no_attributes tt (λ _. refl)
          (around "item" (("id", "schedule") ∷ [])
            (λ k. if str_eq "id" k then some "schedule" else none) (refl, tt) (λ _. refl)
            (around "schedule" [] no_attributes tt (λ _. refl)
              (around "event" lamp_attributes written (refl, (refl, tt)) same_attributes
                (around_all "recurrence" [] no_attributes tt (λ _. refl)
                  (first_told (with_text "freq" "Y" "EARLY") (
                    first_told (with_text "bymonth" "5" "")
                      (first_told (with_text "byday" "5" "") none_told)))))))))

sendable : AreSent (lamp_on ∷ [])
unfolding is_plain
sendable = (
  record {
    number = 0;
    named = refl;
    small = omega arith;
    texts = record {
      freq = refl;
      interval = tt;
      count = tt;
      until = tt;
      bymonth = refl;
      exdate = tt;
    };
  },
  tt,
)

schedule_reader-event_to_item_example :
    (filling : Bool) × (pointed : Bool) × (xml_parse schedule_reader
        (at response_new (packet_new []) false false)
        (complete callbacks)
      ≡ some (
        Code.ok,
        at
            (record response_new { response_type = ResponseType.packet })
            (with_more
              (map sent (lamp_on ∷ []))
              (record (packet_new []) { type = PacketType.schedule }))
            filling
            pointed,
      ))
unfolding event_to_item element_add_string truncate write
schedule_reader-event_to_item_example =
    schedule_reader-event_to_item trees (lamp_on ∷ [])
      (item_of (event_to_item trees (lamp_on ∷ []))) no_attributes no_attributes no_attributes
      callbacks response_new (packet_new []) sendable refl told.reports

event_remove-numbered_example :
    (event_remove (event_renumber (lamp_on ∷ lamp_off ∷ [])) (pos 1)
      ≡ event_renumber (lamp_on ∷ []))
    × (event_remove (event_renumber (lamp_on ∷ lamp_off ∷ [])) (pos 7)
        ≡ event_renumber (lamp_on ∷ lamp_off ∷ []))
event_remove-numbered_example = event_remove-numbered (lamp_on ∷ []) lamp_off [] 7 (omega arith)

event_merge-found_example :
    (u : Event) × (event_merge (event_renumber (lamp_on ∷ [])) (lamp_off ∷ [])
      ≡ some (event_renumber (u ∷ [])))
    × Updates lamp_off lamp_on u
event_merge-found_example = event_merge-found [] lamp_on [] lamp_off refl
