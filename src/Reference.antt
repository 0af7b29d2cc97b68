-- ===== src/Reference.antt =====
-- References between nodes: the list of src/mio_reference.h, and src/mio_reference.c but for its
-- requests.
pub mod Attributes
pub mod Children
pub mod Overwrite
pub mod Callbacks
pub mod Item
pub mod RoundTrip
use libmio.Base.{
  ◌+◌, String, Bool, true, false, List, [], ◌∷◌, Option, none, some, str_eq, strcmp_eq,
  if◌then◌else◌, ◌>>=◌, add_last, unlink, or_keep,
}
use libmio.Xml.{Strophe, Attrs}
use libmio.Xml.Scan.{scan}
use libmio.Meta.{MetaType, unknown, device, location}
use libmio.Response.{Response, ResponseType, PacketType, on_packet, xml_error_handler}
use libmio.Handlers.{Reader}

pub data ReferenceType : Type 0 where
  unkown child parent : ReferenceType

pub record Reference : Type 0 where
  pub type : ReferenceType
  pub node : Option String
  pub name : Option String
  pub meta_type : MetaType

abbrev pub reference_new : Reference
reference_new = record { type = unkown; node = none; name = none; meta_type = unknown }

abbrev pub same_type : ReferenceType → ReferenceType → Bool
same_type unkown unkown = true
same_type child child = true
same_type parent parent = true
same_type _ _ = false

-- `mio_reference_remove`: the first reference of the type and node goes. The test reads the node
-- only of a reference of the type, and faults where there is none.
abbrev pub is_reference : ReferenceType → String → Reference → Option Bool
is_reference type node r = if same_type r.type type then strcmp_eq r.node node else some false

unfoldable pub reference_remove : List Reference → ReferenceType → String → Option (List Reference)
reference_remove refs type node = unlink (is_reference type node) refs

abbrev pub fill_in : ReferenceType → MetaType → String → Option String → Reference → Reference
fill_in type meta_type node found r = record {
  type = type;
  node = some node;
  name = or_keep found r.name;
  meta_type = meta_type;
}

-- `mio_reference_add`, given the name that the query of the node's meta data yields, if it yields
-- one. A first reference of unknown type is filled in. An empty list is a fault.
unfoldable pub reference_add :
    List Reference
    → ReferenceType
    → MetaType
    → String
    → (found : Option String) → Option (List Reference)
reference_add [] type meta_type node found = none
reference_add (r ∷ rs) type meta_type node found = some (
    if same_type r.type unkown
    then fill_in type meta_type node found r ∷ rs
    else add_last (r ∷ rs) (fill_in type meta_type node found reference_new))

-- The two `switch`es of `mio_references_to_item`; `none` where it returns `NULL`.
abbrev pub type_name : ReferenceType → Option String
type_name child = some "child"
type_name parent = some "parent"
type_name unkown = none

abbrev pub meta_type_name : MetaType → Option String
meta_type_name device = some "device"
meta_type_name location = some "location"
meta_type_name unknown = some "unknown"
meta_type_name _ = none

module _ (x : Strophe) where
  open x use {Stanza, new, set_name, set_attribute, add_child}

  -- `mio_pubsub_item_new` of src/mio_pubsub.c
  abbrev pub pubsub_item_new : String → Stanza
  pubsub_item_new item_type = set_attribute (set_name new "item") "id" item_type

  abbrev pub attribute_if_set : String → Option String → Stanza → Stanza
  attribute_if_set name none s = s
  attribute_if_set name (some v) s = set_attribute s name v

  -- One round of the loop of `mio_references_to_item`.
  abbrev pub reference_to_stanza : Reference → Option Stanza
  reference_to_stanza r = do
    let named = set_name new "reference"
    type ← type_name r.type
    let typed = set_attribute named "type" type
    meta ← meta_type_name r.meta_type
    let described = set_attribute typed "metaType" meta
    some (attribute_if_set "name" r.name (attribute_if_set "node" r.node described))

  abbrev pub add_references : Stanza → List Reference → Option Stanza
  add_references list [] = some list
  add_references list (r ∷ rs) = do s ← reference_to_stanza r; add_references (add_child list s) rs

  -- `mio_references_to_item`
  unfoldable pub references_to_item : List Reference → Option Stanza
  references_to_item refs = do
    s ← add_references (set_name new "references") refs
    some (add_child (pubsub_item_new "references") s)

abbrev pub type_of : String → ReferenceType → ReferenceType
type_of v old = if str_eq v "child" then child else if str_eq v "parent" then parent else old

abbrev pub meta_type_of : String → MetaType → MetaType
meta_type_of v old =
    if str_eq v "device" then device else if str_eq v "location" then location else old

-- One attribute of a `reference` element.
abbrev pub reference_attribute : String → String → Reference → Reference
reference_attribute k v r = record {
  type = if str_eq k "type" then type_of v r.type else r.type;
  node = if str_eq k "node" then some v else r.node;
  name = if str_eq k "name" then some v else r.name;
  meta_type = if str_eq k "metaType" then meta_type_of v r.meta_type else r.meta_type;
}

-- `mio_XMLstart_references_query`
unfoldable pub start_references_query :
    Response (List Reference) → String → Attrs → Option (Response (List Reference))
start_references_query response name attrs =
    let with_items =
      if str_eq name "items"
      then on_packet (record response { response_type = ResponseType.packet })
          (λ p. record p { type = PacketType.references })
      else some response in
    with_items >>= λ r.
    if str_eq name "reference"
    then on_packet r (λ p. record p {
      num_payloads = p.num_payloads + 1;
      payload = add_last p.payload (scan reference_attribute reference_new attrs);
    })
    else if str_eq name "error"
    then some (xml_error_handler attrs r)
    else some r

-- The callbacks of `mio_handler_references_query`.
abbrev pub references_reader : Reader (Response (List Reference))
references_reader = record {
  renames = false;
  at_start = λ s _ _ name attrs. start_references_query s name attrs;
  at_chars = λ s _ _. some s;
}
