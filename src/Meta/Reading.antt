-- ===== src/Meta/Reading.antt =====
-- What the reader of meta data keeps, and what one attribute changes: the types and the loops over
-- attributes of `mio_XMLstart_pubsub_meta_receive` in src/mio_meta.c.
use libmio.Base.{
  String, Bool, true, false, Option, none, some, str_eq, if◌then◌else◌, ◌||◌, is_some,
}
use libmio.Meta.{MetaType, unknown, EnumMap, Property, TransducerMeta, Meta}
use libmio.Reference.{meta_type_of}
use libmio.Response.{Response}

-- Where `xml_data->payload` may point: to the meta data of the packet or to the last transducer
-- there, or to one that the packet has no more.
pub data Target : Type 0 where
  the_meta the_transducer old_meta old_transducer : Target

-- The location of a target, or the target.
pub data Pointer : Type 0 where
  nowhere : Pointer
  object : Target → Pointer
  location_of : Target → Pointer

-- `texts` tells whether the handler of texts is set.
pub record MetaReading (D : Type 0) : Type 0 where
  pub response : Response (Option (Meta D))
  pub payload : Pointer
  pub texts : Bool

-- One attribute of a `meta` element.
abbrev pub meta_attribute : {D : Type 0} → String → String → Meta D → Meta D
meta_attribute k v m = record m {
  name = if str_eq k "name" then some v else m.name;
  timestamp = if str_eq k "timestamp" then some v else m.timestamp;
  info = if str_eq k "info" then some v else m.info;
  meta_type = if str_eq k "type" then meta_type_of v m.meta_type else m.meta_type;
}

-- One attribute of a `transducer` element.
abbrev pub transducer_attribute :
    {D : Type 0} → String → String → TransducerMeta D → TransducerMeta D
transducer_attribute k v t = record t {
  name = if str_eq k "name" then some v else t.name;
  type = if str_eq k "type" then some v else t.type;
  interface = if str_eq k "interface" then some v else t.interface;
  unit = if str_eq k "unit" then some v else t.unit;
  manufacturer = if str_eq k "manufacturer" then some v else t.manufacturer;
  serial = if str_eq k "serial" then some v else t.serial;
  info = if str_eq k "info" then some v else t.info;
  min_value = if str_eq k "minValue" then some v else t.min_value;
  max_value = if str_eq k "maxValue" then some v else t.max_value;
  resolution = if str_eq k "resolution" then some v else t.resolution;
  precision = if str_eq k "precision" then some v else t.precision;
  accuracy = if str_eq k "accuracy" then some v else t.accuracy;
}

-- One attribute of a `map` element.
abbrev pub enum_map_attribute : String → String → EnumMap → EnumMap
enum_map_attribute k v e = record {
  name = if str_eq k "name" then some v else e.name;
  value = if str_eq k "value" then some v else e.value;
}

-- One attribute of a `property` element.
abbrev pub property_attribute : String → String → Property → Property
property_attribute k v p = record {
  name = if str_eq k "name" then some v else p.name;
  value = if str_eq k "value" then some v else p.value;
}

-- What pointed to the old meta data, once the packet has new.
abbrev pub outdated : Target → Target
outdated the_meta = old_meta
outdated the_transducer = old_transducer
outdated t = t

abbrev pub outdated_pointer : Pointer → Pointer
outdated_pointer nowhere = nowhere
outdated_pointer (object t) = object (outdated t)
outdated_pointer (location_of t) = location_of (outdated t)

abbrev pub is_unknown : MetaType → Bool
is_unknown unknown = true
is_unknown _ = false

abbrev pub target_of : Pointer → Target
target_of (object t) = t
target_of _ = old_meta

-- Whether a `meta` element has an attribute that is stored.
abbrev pub is_type : Option String → Bool
is_type none = false
is_type (some v) = str_eq v "location" || str_eq v "device"

abbrev pub any_stored : (String → Option String) → Bool
any_stored a =
    is_some (a "name") || is_some (a "timestamp") || is_some (a "info") || is_type (a "type")

-- Whether a location has a member of this name.
abbrev pub is_location_member : String → Bool
is_location_member n =
    str_eq n "accuracy"
    || str_eq n "alt"
    || str_eq n "area"
    || str_eq n "bearing"
    || str_eq n "building"
    || str_eq n "country"
    || str_eq n "countrycode"
    || str_eq n "datum"
    || str_eq n "description"
    || str_eq n "floor"
    || str_eq n "lat"
    || str_eq n "locality"
    || str_eq n "lon"
    || str_eq n "postalcode"
    || str_eq n "region"
    || str_eq n "room"
    || str_eq n "speed"
    || str_eq n "street"
    || str_eq n "text"
    || str_eq n "timestamp"
    || str_eq n "tzo"
    || str_eq n "uri"
