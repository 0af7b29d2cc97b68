-- ===== src/Meta/Item.antt =====
-- The item that publishes meta data: `mio_meta_to_item` of src/mio_meta.c.

use libmio.Base.{String, List, [], ◌∷◌, Option, none, some, ◌>>=◌}
use libmio.Xml.{Strophe}
use libmio.Geoloc.{Doubles, Geoloc, geoloc_to_stanza}
use libmio.Meta.{MetaType, EnumMap, Property, TransducerMeta, Meta, device, location}
use libmio.Reference.{attribute_if_set, pubsub_item_new}

abbrev pub type_attribute : MetaType → Option String
type_attribute device = some "device"
type_attribute location = some "location"
type_attribute _ = none

module _ (x : Strophe) where
  open x use {Stanza, new, set_name, set_attribute, add_child}

  abbrev pub enum_map_to_stanza : EnumMap → Stanza
  enum_map_to_stanza e =
      attribute_if_set x "value" e.value (attribute_if_set x "name" e.name (set_name new "map"))

  abbrev pub add_enum_maps : Stanza → List EnumMap → Stanza
  add_enum_maps s [] = s
  add_enum_maps s (e ∷ es) = add_enum_maps (add_child s (enum_map_to_stanza e)) es

  abbrev pub property_to_stanza : Property → Stanza
  property_to_stanza p =
      attribute_if_set x "value" p.value
        (attribute_if_set x "name" p.name (set_name new "property"))

  -- The properties of a transducer.
  abbrev pub add_properties : Stanza → List Property → Stanza
  add_properties s [] = s
  add_properties s (p ∷ ps) = add_properties (add_child s (property_to_stanza p)) ps

  -- A property of the meta data, which needs a name and a value.
  abbrev pub add_property : Stanza → (name value : Option String) → Stanza
  add_property s (some n) (some v) =
      add_child s (set_attribute (set_attribute (set_name new "property") "name" n) "value" v)
  add_property s _ _ = s

  abbrev pub add_meta_properties : Stanza → List Property → Stanza
  add_meta_properties s [] = s
  add_meta_properties s (p ∷ ps) = add_meta_properties (add_property s p.name p.value) ps

  -- The manufacturer: first with the text of the interface, a fault where there is none.
  abbrev pub add_manufacturer : (manufacturer interface : Option String) → Stanza → Option Stanza
  add_manufacturer none interface s = some s
  add_manufacturer (some m) interface s = do
    i ← interface
    some (set_attribute (set_attribute s "manufacturer" i) "manufacturer" m)

  module _ (d : Doubles) where
    open d use {Double}

    abbrev pub add_geoloc : Option (Geoloc Double) → Stanza → Option Stanza
    add_geoloc none s = some s
    add_geoloc (some g) s = do c ← geoloc_to_stanza x d g; some (add_child s c)

    -- The element of a transducer; its `info` is not printed.
    abbrev pub transducer_to_stanza : TransducerMeta Double → Option Stanza
    transducer_to_stanza t = do
      let s0 = attribute_if_set x "accuracy" t.accuracy (set_name new "transducer")
      s1 ← add_geoloc t.geoloc s0
      let s2 = attribute_if_set x "interface" t.interface s1
      s3 ← add_manufacturer t.manufacturer t.interface s2
      let s4 = attribute_if_set x "maxValue" t.max_value s3
      let s5 = attribute_if_set x "minValue" t.min_value s4
      let s6 = attribute_if_set x "name" t.name s5
      let s7 = attribute_if_set x "precision" t.precision s6
      let s8 = attribute_if_set x "resolution" t.resolution s7
      let s9 = attribute_if_set x "serial" t.serial s8
      let s10 = attribute_if_set x "type" t.type s9
      let s11 = attribute_if_set x "unit" t.unit s10
      some (add_properties (add_enum_maps s11 t.enumeration) t.properties)

    abbrev pub add_transducers : Stanza → List (TransducerMeta Double) → Option Stanza
    add_transducers s [] = some s
    add_transducers s (t ∷ ts) = do c ← transducer_to_stanza t; add_transducers (add_child s c) ts

    -- The rest of `mio_meta_to_item`, for a type that has a name.
    abbrev pub meta_to_stanza : Meta Double → (type : String) → Option Stanza
    meta_to_stanza m type = do
      let spaced = set_attribute (set_name new "meta") "xmlns" "http://jabber.org/protocol/mio"
      let s0 = set_attribute spaced "type" type
      let s1 = attribute_if_set x "timestamp" m.timestamp s0
      s2 ← add_geoloc m.geoloc (attribute_if_set x "info" m.info s1)
      s3 ← add_transducers (attribute_if_set x "name" m.name s2) m.transducers
      some (add_child (pubsub_item_new x "meta") (add_meta_properties s3 m.properties))

    -- `mio_meta_to_item`: a type without a name has no item.
    unfoldable pub meta_to_item : Meta Double → Option (Option Stanza)
    meta_to_item m = elim (type_attribute m.meta_type) [
      | none ↦ some none
      | some type ↦ do item ← meta_to_stanza m type; some (some item)
    ]
