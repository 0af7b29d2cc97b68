-- ===== src/Meta/Query.antt =====
-- What a query of meta data reads: `mio_XMLstart_pubsub_meta_receive` of src/mio_meta.c, with
-- `mio_XMLString_geoloc` of src/mio_geolocation.c for the texts.
use libmio.Base.{
  ◌+◌, String, Bool, true, false, Option, none, some, str_eq, if◌then◌else◌, ◌>>=◌, add_last,
  update_last, not, strcmp_eq,
}
use libmio.Xml.{Attrs, attribute}
use libmio.Xml.Scan.{scan}
use libmio.Geoloc.{Doubles, Geoloc, geoloc_new, geoloc_chars}
use libmio.Meta.{
  device, EnumMap, Property, TransducerMeta, Meta, meta_new, transducer_meta_new, enum_map_meta_new,
  property_meta_new, transducer_meta_add, property_meta_add, enum_map_meta_add,
}
use libmio.Response.{ResponseType, PacketType, Body, null, err, packet, xml_error_handler}
use libmio.Handlers.{reused, closed_name, open_name, unset, ElementName, Reader}
use libmio.Meta.Reading.{
  Target, the_meta, the_transducer, old_meta, old_transducer, Pointer, nowhere, object, location_of,
  MetaReading, meta_attribute, transducer_attribute, enum_map_attribute, property_attribute,
  outdated_pointer, is_unknown, target_of, any_stored, is_location_member,
}

module _ {D : Type 0} where
  -- The meta data of the packet; an error in its place is no meta data, and reading `NULL` a fault.
  abbrev pub meta_in : Body (Option (Meta D)) → Option (Option (Meta D))
  meta_in null = none
  meta_in (err _) = some none
  meta_in (packet p) = some p.payload

  abbrev pub with_meta : Meta D → Body (Option (Meta D)) → Body (Option (Meta D))
  with_meta m (packet p) = packet (record p { payload = some m })
  with_meta m b = b

  -- A change of the meta data, a fault where there is none.
  abbrev pub on_meta : MetaReading D → (Meta D → Option (Meta D)) → Option (MetaReading D)
  on_meta s f = do
    found ← meta_in s.response.response
    m ← found
    m' ← f m
    some (record s { response = record s.response { response = with_meta m' s.response.response } })

  -- An `items` element.
  abbrev pub start_items : MetaReading D → Option (MetaReading D)
  start_items s = elim s.response.response [
    | packet p ↦ some (record s {
      response = record s.response {
        response_type = ResponseType.packet;
        response = packet (record p {
          type = PacketType.meta;
          num_payloads = p.num_payloads + 1;
          payload = some (record meta_new { meta_type = device });
        });
      };
      payload = outdated_pointer s.payload;
    })
    | _ ↦ none
  ]

  -- A change of a location through its pointer: that of the meta data or of the last transducer.
  abbrev pub on_location : MetaReading D → (Geoloc D → Geoloc D) → Target → Option (MetaReading D)
  on_location s f the_meta =
      on_meta s (λ m. do g ← m.geoloc; some (record m { geoloc = some (f g) }))
  on_location s f the_transducer = on_meta s (λ m. do
    ts ← update_last (λ t. do g ← t.geoloc; some (record t { geoloc = some (f g) })) m.transducers
    some (record m { transducers = ts }))
  on_location s f _ = some s

  -- A `geoloc` element: behind a `transducer` element it is the location of the transducer that the
  -- payload is, and behind any other that of the meta data that the payload is. The payload read as
  -- what it is not is a fault.
  abbrev pub place_geoloc : Bool → Pointer → MetaReading D → Option (MetaReading D)
  place_geoloc false (object the_meta) s =
      on_meta s (λ m. some (record m { geoloc = some geoloc_new }))
  place_geoloc false (object old_meta) s = some s
  place_geoloc true (object the_transducer) s = on_meta s (λ m. do
    ts ← update_last (λ t. some (record t { geoloc = some geoloc_new })) m.transducers
    some (record m { transducers = ts }))
  place_geoloc true (object old_transducer) s = some s
  place_geoloc _ _ s = none

  -- A `meta` element, with what its attributes make of the meta data.
  abbrev pub start_meta :
      MetaReading D → (stored : Bool) → (Meta D → Meta D) → Option (MetaReading D)
  start_meta s stored f = do
    found ← meta_in s.response.response
    elim found [
      | some m ↦ do
        s' ← on_meta s (λ m'. some (f m'))
        some (record s' { payload = object the_meta; texts = false })
      | none ↦ if stored then none else some (record s { payload = nowhere; texts = false })
    ]

  -- A `transducer` element. (Meta data of an unknown type take no transducer.)
  abbrev pub start_transducer : MetaReading D → TransducerMeta D → Option (MetaReading D)
  start_transducer s t = do
    found ← meta_in s.response.response
    m ← found
    s' ← on_meta s (λ m'. some (if is_unknown m'.meta_type then m' else transducer_meta_add m' t))
    some (record s' {
      payload = object (if is_unknown m.meta_type then old_transducer else the_transducer);
      texts = false;
    })

  -- A change of the last transducer, a fault where there is none.
  abbrev pub on_last :
      MetaReading D → (TransducerMeta D → TransducerMeta D) → Option (MetaReading D)
  on_last s f = on_meta s (λ m. do
    ts ← update_last (λ t. some (f t)) m.transducers
    some (record m { transducers = ts }))

  -- A `map` element.
  abbrev pub start_map : MetaReading D → EnumMap → Option (MetaReading D)
  start_map s e = do s' ← on_last s (λ t. enum_map_meta_add t e); some (record s' { texts = false })

  -- A property of the transducer that the payload is.
  abbrev pub add_to_payload : Pointer → Property → MetaReading D → Option (MetaReading D)
  add_to_payload (object the_transducer) p s =
      on_last s (λ t. record t { properties = add_last t.properties p })
  add_to_payload (object old_transducer) p s = some s
  add_to_payload _ p s = none

  -- A `property` element.
  abbrev pub start_property :
      MetaReading D → (parent : Option String) → Property → Option (MetaReading D)
  start_property s around p = strcmp_eq around "transducer" >>= λ inside.
      (if inside
        then add_to_payload s.payload p s
        else on_meta s (λ m. some (property_meta_add m p)))
      >>= λ s'. some (record s' { texts = false })

  -- A `geoloc` element. (Behind no element it belongs to nothing; behind a closed one the test reads a
  -- name that is overwritten.)
  abbrev pub start_geoloc : MetaReading D → (prev : ElementName) → Option (MetaReading D)
  start_geoloc s unset = some (record s { payload = location_of old_meta; texts = true })
  start_geoloc s (closed_name _) = none
  start_geoloc s reused = none
  start_geoloc s (open_name prev) = do
    s' ← place_geoloc (str_eq prev "transducer") s.payload s
    some (record s' { payload = location_of (target_of s.payload); texts = true })

  -- `mio_XMLstart_pubsub_meta_receive`
  unfoldable pub start_meta_receive :
      MetaReading D
      → (prev : ElementName) (parent : Option String) → String
      → Attrs
      → Option (MetaReading D)
  start_meta_receive s prev around name attrs = do
    _ ← meta_in s.response.response
    s1 ← if str_eq name "items" then start_items s else some s
    if str_eq name "meta"
        then start_meta s1 (any_stored (λ k. attribute k attrs)) (λ m. scan meta_attribute m attrs)
        else if str_eq name "transducer"
        then start_transducer s1 (scan transducer_attribute transducer_meta_new attrs)
        else if str_eq name "map"
        then start_map s1 (scan enum_map_attribute enum_map_meta_new attrs)
        else if str_eq name "property"
        then start_property s1 around (scan property_attribute property_meta_new attrs)
        else if str_eq name "geoloc"
        then start_geoloc s1 prev
        else if str_eq name "error"
        then some (record s1 { response = xml_error_handler attrs s1.response })
        else some s1

-- `mio_XMLString_geoloc`, where it is set. What is no location has none of the members.
unfoldable pub meta_chars :
    (d : Doubles) → MetaReading d.Double → Option String → String → Option (MetaReading d.Double)
meta_chars d s name text =
    if not s.texts
    then some s
    else name >>= λ n. elim s.payload [
      | location_of t ↦ on_location s (geoloc_chars d n text) t
      | _ ↦ if is_location_member n then none else some s
    ]

-- The callbacks of `mio_handler_meta_query`.
abbrev pub meta_reader : (d : Doubles) → Reader (MetaReading d.Double)
meta_reader d = record {
  renames = false;
  at_start = λ s prev around name attrs. start_meta_receive s prev around name attrs;
  at_chars = λ s name text. meta_chars d s name text;
}
