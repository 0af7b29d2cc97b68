-- ===== src/Geoloc.antt =====
-- Geographic locations: src/mio_geolocation.c and `mio_geoloc_t` of src/mio_meta.h.
use libmio.Base.{String, Bool, Option, none, some, str_eq, or_keep, if◌then◌else◌, ◌>>=◌}
use libmio.Decimal.{truncate}
use libmio.Xml.{Strophe}

-- What the C library does with a `double`: `print` is `%lf`, `scan` is what `sscanf` of `%lf`
-- leaves in the variable.
pub record Doubles : Type 1 where
  pub Double : Type 0
  pub print : Double → String
  pub scan : String → Double

pub record Geoloc (Double : Type 0) : Type 0 where
  pub accuracy : Option Double
  pub alt : Option Double
  pub area : Option String
  pub bearing : Option Double
  pub building : Option String
  pub country : Option String
  pub country_code : Option String
  pub datum : Option String
  pub description : Option String
  pub floor : Option String
  pub lat : Option Double
  pub locality : Option String
  pub lon : Option Double
  pub postal_code : Option String
  pub region : Option String
  pub room : Option String
  pub speed : Option Double
  pub street : Option String
  pub text : Option String
  pub timestamp : Option String
  pub tzo : Option String
  pub uri : Option String

abbrev pub geoloc_new : {Double : Type 0} → Geoloc Double
geoloc_new = record {
  accuracy = none;
  alt = none;
  area = none;
  bearing = none;
  building = none;
  country = none;
  country_code = none;
  datum = none;
  description = none;
  floor = none;
  lat = none;
  locality = none;
  lon = none;
  postal_code = none;
  region = none;
  room = none;
  speed = none;
  street = none;
  text = none;
  timestamp = none;
  tzo = none;
  uri = none;
}

-- `mio_geoloc_merge`: every member that is set overwrites.
unfoldable pub geoloc_merge : {Double : Type 0} → Geoloc Double → Geoloc Double → Geoloc Double
geoloc_merge to_update g = record {
  accuracy = or_keep g.accuracy to_update.accuracy;
  alt = or_keep g.alt to_update.alt;
  area = or_keep g.area to_update.area;
  bearing = or_keep g.bearing to_update.bearing;
  building = or_keep g.building to_update.building;
  country = or_keep g.country to_update.country;
  country_code = or_keep g.country_code to_update.country_code;
  datum = or_keep g.datum to_update.datum;
  description = or_keep g.description to_update.description;
  floor = or_keep g.floor to_update.floor;
  lat = or_keep g.lat to_update.lat;
  locality = or_keep g.locality to_update.locality;
  lon = or_keep g.lon to_update.lon;
  postal_code = or_keep g.postal_code to_update.postal_code;
  region = or_keep g.region to_update.region;
  room = or_keep g.room to_update.room;
  speed = or_keep g.speed to_update.speed;
  street = or_keep g.street to_update.street;
  text = or_keep g.text to_update.text;
  timestamp = or_keep g.timestamp to_update.timestamp;
  tzo = or_keep g.tzo to_update.tzo;
  uri = or_keep g.uri to_update.uri;
}

module _ (x : Strophe) where
  open x use {Stanza, new, set_name, set_attribute, set_text, add_child}

  -- An element that holds a text; `_mio_recurrence_element_add` has the same body.
  unfoldable pub element_add_string : Stanza → String → String → Stanza
  element_add_string parent name text =
      add_child parent (add_child (set_name new name) (set_text new text))

  -- The same, if the member is set.
  abbrev pub add_if_set : String → Option String → Stanza → Stanza
  add_if_set name none parent = parent
  add_if_set name (some v) parent = element_add_string parent name v

  module _ (d : Doubles) where
    open d use {Double, print}

    -- `_mio_geoloc_element_add_double`, which reads through its pointer; the buffer has 128 bytes
    unfoldable pub element_add_double : Stanza → String → Option Double → Option Stanza
    element_add_double parent name none = none
    element_add_double parent name (some v) =
        some (element_add_string parent name (truncate 127 (print v)))

    -- `member` is tested and `value` is printed.
    abbrev pub add_double_if_set : String → Option Double → Option Double → Stanza → Option Stanza
    add_double_if_set name none value parent = some parent
    add_double_if_set name (some _) value parent = element_add_double parent name value

    -- `mio_geoloc_to_stanza`, with the accuracy that it prints for `alt`
    unfoldable pub geoloc_to_stanza : Geoloc Double → Option Stanza
    geoloc_to_stanza g = do
      let named = set_name new "geoloc"
      let spaced = set_attribute named "xmlns" "http://jabber.org/protocol/geoloc"
      let s0 = set_attribute spaced "xml:lang" "en"
      s1 ← add_double_if_set "accuracy" g.accuracy g.accuracy s0
      s2 ← add_double_if_set "alt" g.alt g.accuracy s1
      let s3 = add_if_set "area" g.area s2
      s4 ← add_double_if_set "bearing" g.bearing g.bearing s3
      let s5 = add_if_set "building" g.building s4
      let s6 = add_if_set "country" g.country s5
      let s7 = add_if_set "countrycode" g.country_code s6
      let s8 = add_if_set "datum" g.datum s7
      let s9 = add_if_set "description" g.description s8
      let s10 = add_if_set "floor" g.floor s9
      s11 ← add_double_if_set "lat" g.lat g.lat s10
      let s12 = add_if_set "locality" g.locality s11
      s13 ← add_double_if_set "lon" g.lon g.lon s12
      let s14 = add_if_set "postalcode" g.postal_code s13
      let s15 = add_if_set "region" g.region s14
      let s16 = add_if_set "room" g.room s15
      s17 ← add_double_if_set "speed" g.speed g.speed s16
      let s18 = add_if_set "street" g.street s17
      let s19 = add_if_set "text" g.text s18
      let s20 = add_if_set "timestamp" g.timestamp s19
      let s21 = add_if_set "tzo" g.tzo s20
      let s22 = add_if_set "uri" g.uri s21
      some s22

-- A member is set once: by the first piece of text.
abbrev pub fill {ℓ} : {A : Type ℓ} → Bool → A → Option A → Option A
fill named v (some old) = some old
fill named v none = if named then some v else none

-- `mio_XMLString_geoloc`, within the element `name`
unfoldable pub geoloc_chars : (d : Doubles) → String → String → Geoloc d.Double → Geoloc d.Double
geoloc_chars d name s g = record {
  accuracy = fill (str_eq name "accuracy") (d.scan s) g.accuracy;
  alt = fill (str_eq name "alt") (d.scan s) g.alt;
  area = fill (str_eq name "area") s g.area;
  bearing = fill (str_eq name "bearing") (d.scan s) g.bearing;
  building = fill (str_eq name "building") s g.building;
  country = fill (str_eq name "country") s g.country;
  country_code = fill (str_eq name "countrycode") s g.country_code;
  datum = fill (str_eq name "datum") s g.datum;
  description = fill (str_eq name "description") s g.description;
  floor = fill (str_eq name "floor") s g.floor;
  lat = fill (str_eq name "lat") (d.scan s) g.lat;
  locality = fill (str_eq name "locality") s g.locality;
  lon = fill (str_eq name "lon") (d.scan s) g.lon;
  postal_code = fill (str_eq name "postalcode") s g.postal_code;
  region = fill (str_eq name "region") s g.region;
  room = fill (str_eq name "room") s g.room;
  speed = fill (str_eq name "speed") (d.scan s) g.speed;
  street = fill (str_eq name "street") s g.street;
  text = fill (str_eq name "text") s g.text;
  timestamp = fill (str_eq name "timestamp") s g.timestamp;
  tzo = fill (str_eq name "tzo") s g.tzo;
  uri = fill (str_eq name "uri") s g.uri;
}
