-- ===== src/Examples/References.antt =====
-- A list of references, published and read back.
use libmio.Base.{
  ◌>>=◌, ◌≡◌, refl, String, List, [], ◌∷◌, Option, none, some, arith, str_eq, if◌then◌else◌,
}
use libmio.Xml.{trees, Attrs, attribute, Event, start, stop, Tree, element, text, nil}
use libmio.Examples.Told.{no_attributes, Told, around}
use libmio.Meta.{device}
use libmio.Response.{Code, ResponseType, PacketType, response_new, packet_new}
use libmio.Handlers.{unset, complete, xml_parse}
use libmio.Reference.{Reference, child, references_to_item, references_reader}
use libmio.Handlers.Visit.{visit, xml_parse-visit}
use libmio.Reference.Callbacks.{visitor, references_reader-visitor}
use libmio.Response.Payloads.{answer, holding, with_more}
use libmio.Reference.RoundTrip.{references_reader-references_to_item}

abbrev lamp : Reference
lamp = record { type = child; node = some "lamp"; name = none; meta_type = device }

abbrev lamp_attributes : Attrs
lamp_attributes = ("type", "child") ∷ ("metaType", "device") ∷ ("node", "lamp") ∷ []

abbrev callbacks : List Event
callbacks =
    start "iq" []
    ∷ start "pubsub" []
    ∷ start "items" []
    ∷ start "item" (("id", "references") ∷ [])
    ∷ start "references" []
    ∷ start "reference" lamp_attributes
    ∷ stop "reference"
    ∷ stop "references"
    ∷ stop "item"
    ∷ stop "items"
    ∷ stop "pubsub"
    ∷ stop "iq"
    ∷ []

abbrev item_of : Option Tree → Tree
item_of none = text ""
item_of (some t) = t

abbrev written : String → Option String
written k =
    if str_eq "node" k
    then some "lamp"
    else if str_eq "metaType" k
    then some "device"
    else if str_eq "type" k
    then some "child"
    else none

abbrev lamp_tree : Tree
lamp_tree = element (some "reference") written nil

leaf : (k : String) → attribute k lamp_attributes ≡ written k
leaf k = ground arith

told :
    Told
      (answer no_attributes no_attributes no_attributes
        (item_of (references_to_item trees (lamp ∷ []))))
      callbacks
unfolding references_to_item
told =
    around "iq" [] no_attributes tt (λ _. refl)
      (around "pubsub" [] no_attributes tt (λ _. refl)
        (around "items" [] no_attributes tt (λ _. refl)
          (around "item" (("id", "references") ∷ [])
            (λ k. if str_eq "id" k then some "references" else none) (refl, tt) (λ _. refl)
            (around "references" [] no_attributes {t = lamp_tree} tt (λ _. refl)
              (record {
                reports = (lamp_attributes, [], (refl, (refl, (refl, tt))), leaf, refl, refl);
              })))))

references_reader-references_to_item_example :
    xml_parse references_reader (holding response_new (packet_new [])) (complete callbacks)
    ≡ some (
      Code.ok,
      holding
          (record response_new { response_type = ResponseType.packet })
          (with_more (lamp ∷ []) (record (packet_new []) { type = PacketType.references })),
    )
unfolding references_to_item
references_reader-references_to_item_example =
    references_reader-references_to_item trees (lamp ∷ [])
      (item_of (references_to_item trees (lamp ∷ []))) no_attributes no_attributes no_attributes
      callbacks response_new (packet_new []) refl told.reports

abbrev answered : Tree
answered =
    answer no_attributes no_attributes no_attributes
      (item_of (references_to_item trees (lamp ∷ [])))

xml_parse-visit_example :
    xml_parse references_reader (holding response_new (packet_new [])) (complete callbacks) ≡ (
      visit visitor none unset answered (holding response_new (packet_new [])) >>= λ s.
      some (Code.ok, s))
xml_parse-visit_example =
    xml_parse-visit references_reader visitor references_reader-visitor answered callbacks
      (holding response_new (packet_new [])) told.reports
