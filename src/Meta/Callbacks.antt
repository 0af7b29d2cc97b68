-- ===== src/Meta/Callbacks.antt =====
-- The callbacks of the query of meta data as functions of the attributes.
use mathlib.Core.Path.{fun_ext}
use libmio.Base.{◌≡◌, refl, String, Option, none, some, str_eq, if◌then◌else◌, ◌>>=◌}
use libmio.Xml.{Attrs, attribute, Distinct}
use libmio.Xml.Scan.{scan, apply_to, member-scan, member-untouched}
use libmio.Geoloc.{Doubles}
use libmio.Meta.{
  EnumMap, Property, TransducerMeta, Meta, transducer_meta_new, enum_map_meta_new,
  property_meta_new,
}
use libmio.Reference.{meta_type_of}
use libmio.Response.Errors.{noted, xml_error_handler-noted}
use libmio.Handlers.Visit.{Visitor, Agrees, >>=-cong}
use libmio.Meta.Reading.{
  MetaReading, meta_attribute, transducer_attribute, enum_map_attribute, property_attribute,
  any_stored,
}
use libmio.Meta.Query.{
  meta_in, start_items, start_meta, start_transducer, start_map, start_property, start_geoloc,
  start_meta_receive, meta_chars, meta_reader,
}

abbrev pub set_text : Option String → Option String → Option String
set_text old o = apply_to (λ v _. some v) old o

-- What the scans over the attributes yield.
module _ {D : Type 0} where
  abbrev pub received_meta : (String → Option String) → Meta D → Meta D
  received_meta a m = record m {
    name = set_text m.name (a "name");
    timestamp = set_text m.timestamp (a "timestamp");
    info = set_text m.info (a "info");
    meta_type = apply_to meta_type_of m.meta_type (a "type");
  }

  abbrev pub received_transducer : (String → Option String) → TransducerMeta D
  received_transducer a = record transducer_meta_new {
    name = set_text none (a "name");
    type = set_text none (a "type");
    interface = set_text none (a "interface");
    unit = set_text none (a "unit");
    manufacturer = set_text none (a "manufacturer");
    serial = set_text none (a "serial");
    info = set_text none (a "info");
    min_value = set_text none (a "minValue");
    max_value = set_text none (a "maxValue");
    resolution = set_text none (a "resolution");
    precision = set_text none (a "precision");
    accuracy = set_text none (a "accuracy");
  }

abbrev pub received_map : (String → Option String) → EnumMap
received_map a = record { name = set_text none (a "name"); value = set_text none (a "value") }

abbrev pub received_property : (String → Option String) → Property
received_property a = record { name = set_text none (a "name"); value = set_text none (a "value") }

module _ {D : Type 0} (attrs : Attrs) (once : Distinct attrs) where
  scan-meta : (λ (m : Meta D). scan meta_attribute m attrs) ≡ received_meta (λ k. attribute k attrs)
  scan-meta = fun_ext λ m.
      let text =
        λ (member : Meta D → Option String) (key : String)
            (sets : (k v : String) (s : Meta D)
              → member (meta_attribute k v s) ≡ (if str_eq k key then some v else member s)).
          member-scan meta_attribute member key (λ v _. some v) sets attrs m once in
      let n = text (λ m. m.name) "name" (λ _ _ _. refl) in
      let t = text (λ m. m.timestamp) "timestamp" (λ _ _ _. refl) in
      let i = text (λ m. m.info) "info" (λ _ _ _. refl) in
      let y =
        member-scan meta_attribute (λ m. m.meta_type) "type" meta_type_of (λ _ _ _. refl) attrs m
          once in
      let g = member-untouched meta_attribute (λ m. m.geoloc) (λ _ _ _. refl) attrs m in
      let ts = member-untouched meta_attribute (λ m. m.transducers) (λ _ _ _. refl) attrs m in
      let ps = member-untouched meta_attribute (λ m. m.properties) (λ _ _ _. refl) attrs m in
      λ j. record {
        name = n j;
        timestamp = t j;
        info = i j;
        meta_type = y j;
        geoloc = g j;
        transducers = ts j;
        properties = ps j;
      }

  scan-transducer :
      scan (transducer_attribute {D = D}) transducer_meta_new attrs
      ≡ received_transducer (λ k. attribute k attrs)
  scan-transducer =
      let new : TransducerMeta D = transducer_meta_new in
      let text =
        λ (member : TransducerMeta D → Option String) (key : String)
            (sets : (k v : String) (s : TransducerMeta D)
              → member (transducer_attribute k v s) ≡ (if str_eq k key then some v else member s)).
          member-scan transducer_attribute member key (λ v _. some v) sets attrs new once in
      let n = text (λ t. t.name) "name" (λ _ _ _. refl) in
      let y = text (λ t. t.type) "type" (λ _ _ _. refl) in
      let i = text (λ t. t.interface) "interface" (λ _ _ _. refl) in
      let u = text (λ t. t.unit) "unit" (λ _ _ _. refl) in
      let m = text (λ t. t.manufacturer) "manufacturer" (λ _ _ _. refl) in
      let s = text (λ t. t.serial) "serial" (λ _ _ _. refl) in
      let f = text (λ t. t.info) "info" (λ _ _ _. refl) in
      let l = text (λ t. t.min_value) "minValue" (λ _ _ _. refl) in
      let h = text (λ t. t.max_value) "maxValue" (λ _ _ _. refl) in
      let r = text (λ t. t.resolution) "resolution" (λ _ _ _. refl) in
      let p = text (λ t. t.precision) "precision" (λ _ _ _. refl) in
      let a = text (λ t. t.accuracy) "accuracy" (λ _ _ _. refl) in
      let e =
        member-untouched transducer_attribute (λ t. t.enumeration) (λ _ _ _. refl) attrs new in
      let g = member-untouched transducer_attribute (λ t. t.geoloc) (λ _ _ _. refl) attrs new in
      let ps =
        member-untouched transducer_attribute (λ t. t.properties) (λ _ _ _. refl) attrs new in
      λ j. record {
        name = n j;
        type = y j;
        interface = i j;
        unit = u j;
        manufacturer = m j;
        serial = s j;
        info = f j;
        min_value = l j;
        max_value = h j;
        resolution = r j;
        precision = p j;
        accuracy = a j;
        enumeration = e j;
        geoloc = g j;
        properties = ps j;
      }

module _ (attrs : Attrs) (once : Distinct attrs) where
  scan-map : scan enum_map_attribute enum_map_meta_new attrs ≡ received_map (λ k. attribute k attrs)
  scan-map =
      let n =
        member-scan enum_map_attribute (λ e. e.name) "name" (λ v _. some v) (λ _ _ _. refl) attrs
          enum_map_meta_new once in
      let v =
        member-scan enum_map_attribute (λ e. e.value) "value" (λ v _. some v) (λ _ _ _. refl) attrs
          enum_map_meta_new once in
      λ j. record { name = n j; value = v j }

  scan-property :
      scan property_attribute property_meta_new attrs ≡ received_property (λ k. attribute k attrs)
  scan-property =
      let n =
        member-scan property_attribute (λ e. e.name) "name" (λ v _. some v) (λ _ _ _. refl) attrs
          property_meta_new once in
      let v =
        member-scan property_attribute (λ e. e.value) "value" (λ v _. some v) (λ _ _ _. refl) attrs
          property_meta_new once in
      λ j. record { name = n j; value = v j }

module _ (d : Doubles) where
  open d use {Double}

  abbrev pub visitor : Visitor (MetaReading Double)
  visitor = record {
    enter = λ s prev around name a. meta_in s.response.response >>= λ _.
        (if str_eq name "items" then start_items s else some s) >>= λ s1.
        if str_eq name "meta"
        then start_meta s1 (any_stored a) (received_meta a)
        else if str_eq name "transducer"
        then start_transducer s1 (received_transducer a)
        else if str_eq name "map"
        then start_map s1 (received_map a)
        else if str_eq name "property"
        then start_property s1 around (received_property a)
        else if str_eq name "geoloc"
        then start_geoloc s1 prev
        else if str_eq name "error"
        then some (record s1 { response = noted a s1.response })
        else some s1;
    on_text = λ s name text. meta_chars d s name text;
  }

  pub meta_reader-visitor : Agrees (meta_reader d) visitor
  unfolding start_meta_receive
  meta_reader-visitor = record {
    plain = refl;
    at_start = λ s prev around name attrs once. >>=-cong (meta_in s.response.response) (λ _.
        >>=-cong (if str_eq name "items" then start_items s else some s) (λ s1 i.
          if str_eq name "meta"
          then start_meta s1 (any_stored (λ k. attribute k attrs)) (scan-meta attrs once i)
          else if str_eq name "transducer"
          then start_transducer s1 (scan-transducer attrs once i)
          else if str_eq name "map"
          then start_map s1 (scan-map attrs once i)
          else if str_eq name "property"
          then start_property s1 around (scan-property attrs once i)
          else if str_eq name "geoloc"
          then start_geoloc s1 prev
          else if str_eq name "error"
          then some (record s1 { response = xml_error_handler-noted attrs s1.response once i })
          else some s1));
    at_chars = λ _ _ _. refl;
  }
