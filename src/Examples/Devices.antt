-- ===== src/Examples/Devices.antt =====
-- Meta data of a device, published and read back.
use libmio.Base.{◌≡◌, refl, String, List, [], ◌∷◌, ◌++◌, none, some, arith, is_some, ◌↔◌, true}
use libmio.Xml.{trees, Attrs, attribute, Event, start, stop, Tree}
use libmio.Examples.Told.{no_attributes, Told, around, around_all, first_told, none_told}
use libmio.Geoloc.{Doubles}
use libmio.Response.{Code, ResponseType, PacketType, response_new, packet_new}
use libmio.Response.Payloads.{answer}
use libmio.Handlers.{complete, xml_parse}
use libmio.Meta.{device, EnumMap, Property, TransducerMeta, Meta, transducer_meta_new, meta_new}
use libmio.Meta.Item.{type_attribute, meta_to_item}
use libmio.Meta.Reading.{object, the_transducer}
use libmio.Meta.Query.{meta_reader}
use libmio.Meta.Trees.{map_tree, property_tree, transducer_attributes, pair_attributes}
use libmio.Meta.Trees.Whole.{meta_attributes, meta_tree, meta_item_tree}
use libmio.Meta.Walk.{on}
use libmio.Meta.RoundTrip.{start_reading, meta_reader-meta_to_item}
use libmio.Meta.Interfaces.{HaveInterfaces, meta_to_item-HaveInterfaces}

-- Numbers as their texts.
abbrev pub texts : Doubles
texts = record { Double = String; print = λ s. s; scan = λ s. s }

abbrev pub switched_on : EnumMap
switched_on = record { name = some "on"; value = some "1" }

abbrev pub room : Property
room = record { name = some "room"; value = some "12" }

abbrev pub switch : TransducerMeta String
switch = record transducer_meta_new {
  name = some "switch";
  interface = some "i2c";
  manufacturer = some "acme";
  enumeration = switched_on ∷ [];
  properties = room ∷ [];
}

abbrev pub lamp : Meta String
lamp = record meta_new {
  name = some "lamp";
  meta_type = device;
  transducers = switch ∷ [];
  properties = record { name = some "floor"; value = none } ∷ room ∷ [];
}

abbrev pair_attrs : (n v : String) → Attrs
pair_attrs n v = ("name", n) ∷ ("value", v) ∷ []

same_pair : (n v k : String) → attribute k (pair_attrs n v) ≡ pair_attributes (some n) (some v) k
same_pair n v k = ground arith

abbrev switch_attrs : Attrs
switch_attrs = ("interface", "i2c") ∷ ("manufacturer", "acme") ∷ ("name", "switch") ∷ []

same_switch : (k : String) → attribute k switch_attrs ≡ transducer_attributes switch k
same_switch k = ground arith

abbrev lamp_attrs : Attrs
lamp_attrs =
    ("xmlns", "http://jabber.org/protocol/mio") ∷ ("type", "device") ∷ ("name", "lamp") ∷ []

same_lamp : (k : String) → attribute k lamp_attrs ≡ meta_attributes lamp "device" k
same_lamp k = ground arith

abbrev item_attrs : Attrs
item_attrs = ("id", "meta") ∷ []

abbrev property_events : List Event
property_events = start "property" (pair_attrs "room" "12") ∷ stop "property" ∷ []

abbrev map_events : List Event
map_events = start "map" (pair_attrs "on" "1") ∷ stop "map" ∷ []

abbrev switch_events : List Event
switch_events =
    start "transducer" switch_attrs
    ∷ ((map_events ++ (property_events ++ [])) ++ (stop "transducer" ∷ []))

abbrev lamp_events : List Event
lamp_events =
    start "meta" lamp_attrs ∷ ((switch_events ++ (property_events ++ [])) ++ (stop "meta" ∷ []))

property_told : Told (property_tree room) property_events
property_told =
    around_all "property" (pair_attrs "room" "12") (pair_attributes (some "room") (some "12"))
      (refl, (refl, tt)) (same_pair "room" "12") none_told

map_told : Told (map_tree switched_on) map_events
map_told =
    around_all "map" (pair_attrs "on" "1") (pair_attributes (some "on") (some "1"))
      (refl, (refl, tt)) (same_pair "on" "1") none_told

lamp_told : Told (meta_tree lamp "device") lamp_events
lamp_told =
    around_all "meta" lamp_attrs (meta_attributes lamp "device") (refl, (refl, (refl, tt)))
      same_lamp
      (first_told
        (around_all "transducer" switch_attrs (transducer_attributes switch)
          (refl, (refl, (refl, tt))) same_switch
          (first_told map_told (first_told property_told none_told)))
        (first_told property_told none_told))

abbrev callbacks : List Event
callbacks =
    start "iq" []
    ∷ ((start "pubsub" []
          ∷ ((start "items" []
                ∷ ((start "item" item_attrs ∷ (lamp_events ++ (stop "item" ∷ [])))
                    ++ (stop "items" ∷ [])))
              ++ (stop "pubsub" ∷ [])))
        ++ (stop "iq" ∷ []))

told :
    Told
      (answer no_attributes no_attributes no_attributes (meta_item_tree (meta_tree lamp "device")))
      callbacks
told =
    around "iq" [] no_attributes tt (λ _. refl)
      (around "pubsub" [] no_attributes tt (λ _. refl)
        (around "items" [] no_attributes tt (λ _. refl)
          (around "item" item_attrs _ (refl, tt) (λ _. refl) lamp_told)))

lamp_item : meta_to_item trees texts lamp ≡ some (some (meta_item_tree (meta_tree lamp "device")))
unfolding meta_to_item
lamp_item = refl

meta_reader-meta_to_item_example :
    xml_parse
      (meta_reader texts)
      (start_reading texts response_new (packet_new none))
      (complete callbacks)
    ≡ some (
      Code.ok,
      on texts
          (record response_new { response_type = ResponseType.packet })
          (record (packet_new none) { type = PacketType.meta; num_payloads = 1 })
          (record lamp { properties = room ∷ [] })
          (object the_transducer),
    )
meta_reader-meta_to_item_example =
    meta_reader-meta_to_item trees texts lamp (meta_item_tree (meta_tree lamp "device"))
      no_attributes no_attributes no_attributes callbacks response_new (packet_new none) refl
      (refl, tt) lamp_item told.reports

meta_to_item-HaveInterfaces_example :
    ((item : Tree) × (meta_to_item trees texts lamp ≡ some (some item)))
    ↔ ((is_some (type_attribute device) ≡ true) × HaveInterfaces (switch ∷ []))
meta_to_item-HaveInterfaces_example = meta_to_item-HaveInterfaces trees texts lamp refl (refl, tt)
