-- ===== src/Meta.antt =====
-- Meta data of a node: `mio_meta_t` and its parts (src/mio_meta.h), and the functions on them of
-- src/mio_meta.c. A list linked by `next` is a `List`, and its `NULL` the empty list.
pub mod Merge
pub mod Item
pub mod Reading
pub mod Query
pub mod Callbacks
pub mod Trees
pub mod Walk
pub mod RoundTrip
pub mod Interfaces
pub mod Publish
use libmio.Base.{
  String, Bool, true, false, List, [], ◌∷◌, Option, none, some, str_eq, strcmp_eq, or_keep,
  if◌then◌else◌, ◌>>=◌, add_last, unlink,
}
use libmio.Geoloc.{Geoloc, geoloc_new, geoloc_merge}

pub data MetaType : Type 0 where
  unknown device location gateway adapter agent : MetaType

pub record EnumMap : Type 0 where
  pub name : Option String
  pub value : Option String

pub record Property : Type 0 where
  pub name : Option String
  pub value : Option String

pub record TransducerMeta (D : Type 0) : Type 0 where
  pub name : Option String
  pub type : Option String
  pub interface : Option String
  pub manufacturer : Option String
  pub serial : Option String
  pub info : Option String
  pub unit : Option String
  pub min_value : Option String
  pub max_value : Option String
  pub resolution : Option String
  pub precision : Option String
  pub accuracy : Option String
  pub enumeration : List EnumMap
  pub geoloc : Option (Geoloc D)
  pub properties : List Property

pub record Meta (D : Type 0) : Type 0 where
  pub name : Option String
  pub timestamp : Option String
  pub info : Option String
  pub meta_type : MetaType
  pub geoloc : Option (Geoloc D)
  pub transducers : List (TransducerMeta D)
  pub properties : List Property

abbrev pub enum_map_meta_new : EnumMap
enum_map_meta_new = record { name = none; value = none }

abbrev pub property_meta_new : Property
property_meta_new = record { name = none; value = none }

abbrev copy_enum : List EnumMap → Option (List EnumMap)
copy_enum [] = some []
copy_enum (e ∷ r) = do
  n ← e.name
  v ← e.value
  c ← copy_enum r
  some (record { name = some n; value = some v } ∷ c)

abbrev or_null : Option (List EnumMap) → List EnumMap
or_null none = []
or_null (some c) = c

-- `mio_enum_map_meta_clone`: an entry without a name or a value makes the whole copy `NULL`, and the
-- copy of an empty list is one blank entry.
unfoldable pub enum_map_meta_clone : List EnumMap → List EnumMap
enum_map_meta_clone [] = enum_map_meta_new ∷ []
enum_map_meta_clone (e ∷ r) = or_null (copy_enum (e ∷ r))

module _ {D : Type 0} where
  abbrev pub transducer_meta_new : TransducerMeta D
  transducer_meta_new = record {
    name = none;
    type = none;
    interface = none;
    manufacturer = none;
    serial = none;
    info = none;
    unit = none;
    min_value = none;
    max_value = none;
    resolution = none;
    precision = none;
    accuracy = none;
    enumeration = [];
    geoloc = none;
    properties = [];
  }

  abbrev pub meta_new : Meta D
  meta_new = record {
    name = none;
    timestamp = none;
    info = none;
    meta_type = unknown;
    geoloc = none;
    transducers = [];
    properties = [];
  }

  abbrev pub property_meta_add : Meta D → Property → Meta D
  property_meta_add m p = record m { properties = add_last m.properties p }

  abbrev pub transducer_meta_add : Meta D → TransducerMeta D → Meta D
  transducer_meta_add m t = record m { transducers = add_last m.transducers t }

  abbrev pub enum_map_meta_add : TransducerMeta D → EnumMap → TransducerMeta D
  enum_map_meta_add t e = record t { enumeration = add_last t.enumeration e }

-- `mio_meta_property_merge`
abbrev pub property_merge : Property → Property → Property
property_merge to_update p = record {
  name = or_keep p.name to_update.name;
  value = or_keep p.value to_update.value;
}

-- The inner loop of `mio_meta_transducer_merge`: every property of the name is merged, and the
-- flag tells whether there was one.
unfoldable pub update_properties : Property → List Property → Option (List Property × Bool)
update_properties p [] = some ([], false)
update_properties p (q ∷ r) =
    let rest = update_properties p r in
    q.name >>= λ n. p.name >>= λ m. rest >>= λ (l, updated).
    some (if str_eq n m then (property_merge q p ∷ l, true) else (q ∷ l, updated))

-- The outer loop: a property with no namesake goes to the end.
unfoldable pub merge_properties : List Property → List Property → Option (List Property)
merge_properties qs [] = some qs
merge_properties qs (p ∷ ps) = update_properties p qs >>= λ (l, updated).
    merge_properties (if updated then l else add_last qs (property_merge property_meta_new p)) ps

abbrev merge_geoloc : {D : Type 0} → Option (Geoloc D) → Option (Geoloc D) → Option (Geoloc D)
merge_geoloc to_update none = to_update
merge_geoloc none (some g) = some (geoloc_merge geoloc_new g)
merge_geoloc (some old) (some g) = some (geoloc_merge old g)

abbrev overwrite_enumeration : List EnumMap → List EnumMap → List EnumMap
overwrite_enumeration old [] = old
overwrite_enumeration old (e ∷ r) = enum_map_meta_clone (e ∷ r)

-- The last lines of `mio_meta_merge` on properties: the two heads are merged, whatever their names.
abbrev merge_heads : List Property → List Property → List Property
merge_heads old [] = old
merge_heads [] (p ∷ _) = property_merge property_meta_new p ∷ []
merge_heads (q ∷ r) (p ∷ _) = property_merge q p ∷ r

module _ {D : Type 0} where
  -- `mio_meta_merge` of two that are not `NULL`; `strdup` of a missing timestamp is a fault
  unfoldable pub meta_merge : Meta D → Meta D → Option (Meta D)
  meta_merge to_update m = do
    t ← m.timestamp
    some (record to_update {
      meta_type = m.meta_type;
      name = or_keep m.name to_update.name;
      info = or_keep m.info to_update.info;
      geoloc = merge_geoloc to_update.geoloc m.geoloc;
      properties = merge_heads to_update.properties m.properties;
      timestamp = some t;
    })

  -- `mio_meta_transducer_merge`
  unfoldable pub transducer_merge : TransducerMeta D → TransducerMeta D → Option (TransducerMeta D)
  unfolding merge_properties update_properties
  transducer_merge to_update t = do
    ps ← merge_properties to_update.properties t.properties
    some (record {
      name = or_keep t.name to_update.name;
      type = or_keep t.type to_update.type;
      interface = or_keep t.interface to_update.interface;
      manufacturer = or_keep t.manufacturer to_update.manufacturer;
      serial = or_keep t.serial to_update.serial;
      info = or_keep t.info to_update.info;
      unit = or_keep t.unit to_update.unit;
      min_value = or_keep t.min_value to_update.min_value;
      max_value = or_keep t.max_value to_update.max_value;
      resolution = or_keep t.resolution to_update.resolution;
      precision = or_keep t.precision to_update.precision;
      accuracy = or_keep t.accuracy to_update.accuracy;
      enumeration = overwrite_enumeration to_update.enumeration t.enumeration;
      geoloc = merge_geoloc to_update.geoloc t.geoloc;
      properties = ps;
    })

  -- `mio_meta_transducer_remove`
  unfoldable pub transducer_remove :
      List (TransducerMeta D) → String → Option (List (TransducerMeta D))
  transducer_remove ts name = unlink (λ t. strcmp_eq t.name name) ts

  -- The second half of `mio_meta_geoloc_remove`: the first transducer of the name loses its
  -- location. `mio_geoloc_free` reads through its pointer.
  unfoldable pub transducer_geoloc_remove :
      List (TransducerMeta D) → String → Option (List (TransducerMeta D))
  transducer_geoloc_remove [] name = some []
  transducer_geoloc_remove (t ∷ ts) name =
      let rest = transducer_geoloc_remove ts name in
      strcmp_eq t.name name >>= λ hit. elim hit [
        | true ↦ t.geoloc >>= λ _. some (record t { geoloc = none } ∷ ts)
        | false ↦ rest >>= λ l. some (t ∷ l)
      ]

  -- The first half.
  unfoldable pub meta_geoloc_remove : Meta D → Option (Meta D)
  meta_geoloc_remove m = do _ ← m.geoloc; some (record m { geoloc = none })

-- `mio_meta_property_remove`
unfoldable pub property_remove : List Property → String → Option (List Property)
property_remove ps name = unlink (λ p. strcmp_eq p.name name) ps
