-- ===== src/Reference/Children.antt =====
-- Adding and removing a child at both nodes: the functions of src/mio_reference.c that query and
-- publish. What a node answers and keeps is an argument.
pub mod Kept
pub mod Removed
use libmio.Base.{
  ◌+◌, String, Bool, true, false, not, List, [], ◌∷◌, Option, none, some, strcmp_eq, ltb, ◌&&◌,
  if◌then◌else◌, ◌>>=◌,
}
use libmio.Decimal.{pos}
use libmio.Xml.{Strophe}
use libmio.Meta.{MetaType, Meta, unknown}
use libmio.Response.{
  Code, Response, ResponseType, PacketType, Packet, Body, packet, err, null, response_new,
}
use libmio.Reference.{
  ReferenceType, Reference, child, parent, reference_new, same_type, reference_remove,
  reference_add, references_to_item, pubsub_item_new,
}

-- `mio_references_query`, `mio_meta_query` and `mio_item_publish`, with all that lies between the
-- two ends. A publication fills the response that it is given.
pub record Remote (W D : Type 0) (x : Strophe) : Type 0 where
  pub references_query : W → String → W × Response (List Reference)
  pub meta_query : W → String → W × Response (Option (Meta D))
  pub publish : W → Option x.Stanza → String → Response Unit → Option (W × Code × Response Unit)

abbrev pub is_packet : ResponseType → Bool
is_packet ResponseType.packet = true
is_packet _ = false

abbrev pub is_error : ResponseType → Bool
is_error ResponseType.error = true
is_error _ = false

abbrev pub is_references : PacketType → Bool
is_references PacketType.references = true
is_references _ = false

abbrev pub is_meta : PacketType → Bool
is_meta PacketType.meta = true
is_meta _ = false

-- `(mio_packet_t *) response->response`
abbrev pub packet_of : {P : Type 0} → Body P → Option (Packet P)
packet_of (packet p) = some p
packet_of _ = none

-- The payload of a response, if this is a packet of the type.
abbrev pub payload_if : {P : Type 0} → (PacketType → Bool) → Response P → Option (Option (Packet P))
payload_if test r =
    if is_packet r.response_type
    then (packet_of r.response >>= λ p. some (if test p.type then some p else none))
    else some none

-- The loop over the references that a node has: the code of the first that stands in the way.
abbrev pub in_the_way :
    (duplicate loop : ReferenceType) → String → List Reference → Option (Option Code)
in_the_way duplicate loop node [] = some none
in_the_way duplicate loop node (r ∷ rs) =
    let rest = in_the_way duplicate loop node rs in
    strcmp_eq r.node node >>= λ hit.
    if hit && same_type r.type duplicate
    then some (some Code.error_duplicate_entry)
    else if hit && same_type r.type loop
    then some (some Code.error_reference_loop)
    else rest

-- The references to go on with: those of the node, or a new one to fill in.
abbrev pub listed :
    (duplicate loop : ReferenceType)
    → String
    → Option (Packet (List Reference))
    → Option (Option Code × List Reference)
listed duplicate loop node none = some (none, reference_new ∷ [])
listed duplicate loop node (some p) =
    if ltb 0 p.num_payloads
    then (in_the_way duplicate loop node p.payload >>= λ c. some (c, p.payload))
    else some (none, reference_new ∷ [])

abbrev pub or_unknown : {D : Type 0} → Option (Option (Meta D)) → MetaType
or_unknown none = unknown
or_unknown (some none) = unknown
or_unknown (some (some m)) = m.meta_type

-- `meta->name`, a fault where the packet has no meta data
abbrev pub name_in : {D : Type 0} → Option (Option (Meta D)) → Option (Option String)
name_in none = some none
name_in (some none) = none
name_in (some (some m)) = some m.name

abbrev pub payload_of : {P : Type 0} → Option (Packet P) → Option P
payload_of none = none
payload_of (some p) = some p.payload

module _ {W D : Type 0} (x : Strophe) (remote : Remote W D x) where
  open remote use {references_query, meta_query, publish}

  -- The query of a node's meta data for its type.
  abbrev pub node_type : W → String → Option (W × MetaType)
  node_type w node =
      let (w', response) = meta_query w node in
      do p ← payload_if is_meta response; some (w', or_unknown (payload_of p))

  -- `mio_reference_add`, with its query
  abbrev pub reference_add_named :
      W → List Reference → ReferenceType → MetaType → String → Option (W × List Reference)
  reference_add_named w refs type meta_type node =
      let (w', response) = meta_query w node in
      do
        p ← payload_if is_meta response
        name ← name_in (payload_of p)
        l ← reference_add refs type meta_type node name
        some (w', l)

  -- The rest of the part for `MIO_ADD_REFERENCE_AT_CHILD`, behind the search for what is in the way.
  abbrev pub publish_parent :
      W
      → List Reference
      → (parent_node child_node : String) → MetaType
      → Response Unit
      → Option (W × Response Unit)
  publish_parent w refs parent_node child_node parent_type response = do
    (w1, more) ← reference_add_named w refs parent parent_type parent_node
    (w2, _, published) ← publish w1 (references_to_item x more) child_node response_new
    some (
      w2,
      if is_error published.response_type
          then record response { response_type = ResponseType.error }
          else response,
    )

  -- The part of `mio_reference_child_add` for `MIO_ADD_REFERENCE_AT_CHILD`.
  abbrev pub add_at_child :
      W
      → (parent_node child_node : String) → Response Unit
      → Option (Option Code × W × Response Unit)
  add_at_child w parent_node child_node response = do
    (w1, parent_type) ← node_type w parent_node
    let (w2, queried) = references_query w1 child_node
    p ← payload_if is_references queried
    (code, refs) ← listed parent child parent_node p
    elim code [
      | some e ↦ some (some e, w2, response)
      | none ↦ do
        (w3, after) ← publish_parent w2 refs parent_node child_node parent_type response
        some (none, w3, after)
    ]

  -- The end of `mio_reference_child_add`.
  abbrev pub publish_child :
      W
      → List Reference
      → (parent_node child_node : String) → Response Unit
      → Option (Code × W × Response Unit)
  publish_child w refs parent_node child_node response = do
    (w1, child_type) ← node_type w child_node
    (w2, more) ← reference_add_named w1 refs child child_type child_node
    (w3, e, published) ← publish w2 (references_to_item x more) parent_node response
    some (e, w3, published)

  abbrev pub add_at_parent :
      (at_child : Bool)
      → W
      → List Reference
      → (parent_node child_node : String) → Response Unit
      → Option (Code × W × Response Unit)
  add_at_parent false w refs parent_node child_node response =
      publish_child w refs parent_node child_node response
  add_at_parent true w refs parent_node child_node response = do
    (code, w1, after) ← add_at_child w parent_node child_node response
    elim code [
      | some e ↦ some (e, w1, after)
      | none ↦ publish_child w1 refs parent_node child_node after
    ]

  -- `mio_reference_child_add`
  unfoldable pub child_add :
      (at_child : Bool)
      → W
      → (parent_node child_node : String) → Response Unit
      → Option (Code × W × Response Unit)
  child_add at_child w parent_node child_node response =
      let (w1, queried) = references_query w parent_node in
      do
        p ← payload_if is_references queried
        (code, refs) ← listed child parent child_node p
        elim code [
          | some e ↦ some (e, w1, response)
          | none ↦ add_at_parent at_child w1 refs parent_node child_node response
        ]

  -- One of the two halves of `mio_reference_child_remove`, for the node that has the list. The
  -- result has the code of the publication, if there is one.
  abbrev pub remove_listed :
      (Option x.Stanza → Option x.Stanza)
      → W
      → ReferenceType
      → (node other : String) → Option (List Reference)
      → Option (W × Option Code)
  remove_listed item_or w type node other none = some (w, none)
  remove_listed item_or w type node other (some []) = some (w, none)
  remove_listed item_or w type node other (some (r ∷ rs)) = do
    left ← reference_remove (r ∷ rs) type other
    (w', e, _) ← publish w (item_or (references_to_item x left)) node response_new
    some (w', some e)

  abbrev pub remove_at :
      (Option x.Stanza → Option x.Stanza)
      → W
      → ReferenceType
      → (node other : String) → Option (W × Option Code)
  remove_at item_or w type node other =
      let (w1, queried) = references_query w node in
      do
        p ← payload_if is_references queried
        remove_listed item_or w1 type node other (payload_of p)

  abbrev pub or_empty_item : Option x.Stanza → Option x.Stanza
  or_empty_item none = some (pubsub_item_new x "references")
  or_empty_item (some item) = some item

  abbrev pub removed_response : (at_child at_parent : Option Code) → Response Unit → Response Unit
  removed_response none none response = record response {
    response_type = ResponseType.error;
    response =
        err
          (record { err_num = pos 0; description = some "Reference not found at child or parent" });
  }
  removed_response _ _ response = record response { response_type = ResponseType.ok }

  abbrev pub or_zero : Option Code → Code
  or_zero none = Code.zero_code
  or_zero (some e) = e

  -- `mio_reference_child_remove`
  unfoldable pub child_remove :
      W → (parent_node child_node : String) → Response Unit → Option (Code × W × Response Unit)
  child_remove w parent_node child_node response = do
    (w1, at_child) ← remove_at or_empty_item w parent child_node parent_node
    (w2, at_parent) ← remove_at (λ item. item) w1 child parent_node child_node
    some (or_zero at_parent, w2, removed_response at_child at_parent response)
