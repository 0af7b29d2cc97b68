-- ===== src/Schedule/RoundTrip.antt =====
-- The item that publishes a schedule, and what a query for it reads.
use libmio.Base.{◌≡◌, refl, ap, ◌∙◌, String, Bool, false, List, map, Option, none, some, ◌>>=◌}
use libmio.Xml
use libmio.Xml.{Strophe, Tree, Forest, element, text, nil, cons, snoc, with_child, Reports}
use libmio.Response.{Code, Response, ResponseType, PacketType, Packet}
use libmio.Response.Payloads.{with_more, answer}
use libmio.Handlers.{open_name, unset, complete, xml_parse}
use libmio.Handlers.Visit.{visit, xml_parse-visit}
use libmio.Handlers.Renamed.{renaming, xml_parse-renaming}
use libmio.Schedule.{Event, event_to_item}
use libmio.Schedule.Query.{schedule_reader}
use libmio.Schedule.Callbacks.{visitor, schedule_reader-visitor}
use libmio.Schedule.Events.{sent, at}
use libmio.Schedule.Item.{Lists, AreSent, item_attributes, tree-item}

visit-answer :
    (iq pubsub items a : String → Option String) (t : Tree) (es : List Event)
    (r : Response (List Event)) (p : Packet (List Event))
    → Lists t es
    → (filling : Bool) × (pointed : Bool) × (visit visitor none unset
          (answer iq pubsub items (element (some "item") a (cons t nil)))
          (at r p false false)
        ≡ some (
            at
              (record r { response_type = ResponseType.packet })
              (with_more es (record p { type = PacketType.schedule }))
              filling
              pointed))
visit-answer iq pubsub items a t es r p l =
    let (filling, pointed, ran) =
      l.runs (some "schedule") (open_name "schedule")
        (record r { response_type = ResponseType.packet }) (record p { type = PacketType.schedule })
        false false in
    (filling, pointed, rw (l.shape, ran))

-- When a list of events has an item, its ids are numbers below 10^7, and the texts of its
-- recurrences but byday are not empty and have no character that libstrophe escapes and no line
-- end, so that expat reports each in one callback: the callbacks of the schedule query, run over
-- any text that reports the server's answer around this item, return MIO_OK, mark the response as
-- a schedule, count each event and append the list, in order, to the payload, with every byday
-- that is set replaced by the bymonth beside it.
pub schedule_reader-event_to_item :
    (x : Strophe) (es : List Event) (item : x.Stanza) (iq pubsub items : String → Option String)
    (events : List Xml.Event) (r : Response (List Event)) (p : Packet (List Event))
    → AreSent es
    → event_to_item x es ≡ some item
    → Reports (answer iq pubsub items (x.tree item)) events
    → (filling : Bool) × (pointed : Bool) × (xml_parse schedule_reader
          (at r p false false)
          (complete events)
        ≡ some (
          Code.ok,
          at
              (record r { response_type = ResponseType.packet })
              (with_more (map sent es) (record p { type = PacketType.schedule }))
              filling
              pointed,
        ))
schedule_reader-event_to_item x es item iq pubsub items events r p h e reported =
    let (t, l, shape) = tree-item x es item h e in
    let (filling, pointed, ran) =
      visit-answer iq pubsub items (item_attributes x) t (map sent es) r p l in
    (
      filling,
      pointed,
      xml_parse-renaming schedule_reader (λ _ _ _ _ _ _ _. refl) events (at r p false false) _
          (xml_parse-visit (renaming false schedule_reader) visitor schedule_reader-visitor
              (answer iq pubsub items (x.tree item)) events (at r p false false) reported
            ∙ ap
                (λ u.
                  visit visitor none unset (answer iq pubsub items u) (at r p false false) >>= λ s.
                  some (Code.ok, s))
                shape
            ∙ ap (λ m. m >>= λ s. some (Code.ok, s)) ran),
    )
