-- ===== src/Meta/RoundTrip.antt =====
-- The item that publishes meta data, and what a query for it reads.
use libmio.Base.{
  ◌+◌, ◌≡◌, refl, ap, subst, ◌∙◌, String, true, false, List, map, Option, none, some, ◌>>=◌,
}
use libmio.Xml
use libmio.Xml.{Strophe, Tree, Forest, element, nil, cons, Reports}
use libmio.Geoloc.{Doubles}
use libmio.Response.{Code, Response, ResponseType, PacketType, Packet}
use libmio.Response.Payloads.{holding, answer}
use libmio.Handlers.{unset, open_name, complete, xml_parse}
use libmio.Handlers.Snoc.{>>=-some}
use libmio.Handlers.Visit.{visit, xml_parse-visit}
use libmio.Reference.{meta_type_of}
use libmio.Reference.Attributes.{overlay, overlay_lem}
use libmio.Meta.{MetaType, unknown, device, location, gateway, adapter, agent, Meta, meta_new}
use libmio.Meta.Item.{type_attribute, meta_to_item}
use libmio.Meta.Reading.{nowhere, object, the_meta, MetaReading, is_unknown}
use libmio.Meta.Query.{meta_reader}
use libmio.Meta.Callbacks.{received_meta, visitor, meta_reader-visitor}
use libmio.Meta.Trees.{set_text-none, or_keep-none}
use libmio.Meta.Trees.Whole.{HaveNoLocation, meta_attributes, meta_tree, tree-meta_to_item}
use libmio.Meta.Walk.{
  add_all-nil, arrived, full_properties, on, behind_transducers, visit-transducers,
  visit-meta_properties,
}

meta_type_of-attribute :
    (y : MetaType) (type : String)
    → type_attribute y ≡ some type
    → (meta_type_of type device ≡ y) × (is_unknown y ≡ false)
meta_type_of-attribute unknown type e = absurd (cc)
meta_type_of-attribute device type e =
    (subst (λ o. (elim o [ none ↦ device | some v ↦ meta_type_of v device ]) ≡ device) e refl, refl)
meta_type_of-attribute location type e = (
  subst (λ o. (elim o [ none ↦ location | some v ↦ meta_type_of v device ]) ≡ location) e refl,
  refl,
)
meta_type_of-attribute gateway type e = absurd (cc)
meta_type_of-attribute adapter type e = absurd (cc)
meta_type_of-attribute agent type e = absurd (cc)

-- Meta data as they arrive: transducers without their info, and the properties that have both a
-- name and a value.
abbrev pub arrived_meta : {D : Type 0} → Meta D → Meta D
arrived_meta m = record m {
  geoloc = none;
  transducers = map arrived m.transducers;
  properties = full_properties m.properties;
}

module _ {D : Type 0} where
  -- What the attributes of the element make of new meta data.
  abbrev named : Meta D → MetaType → Meta D
  named m y = record meta_new {
    name = m.name;
    timestamp = m.timestamp;
    info = m.info;
    meta_type = y;
  }

  received_meta-named :
      (m : Meta D) (type : String)
      → received_meta (meta_attributes m type) (record meta_new { meta_type = device })
        ≡ named m (meta_type_of type device)
  received_meta-named m type = simp (overlay_lem, or_keep-none, set_text-none)

module _ (d : Doubles) where
  open d use {Double}

  abbrev pub start_reading :
      Response (Option (Meta Double)) → Packet (Option (Meta Double)) → MetaReading Double
  start_reading r p = record { response = holding r p; payload = nowhere; texts = true }

  -- Behind the start of the element `items`.
  abbrev in_items :
      Response (Option (Meta Double)) → Packet (Option (Meta Double)) → MetaReading Double
  in_items r p = record {
    response =
        holding (record r { response_type = ResponseType.packet })
          (record p {
            type = PacketType.meta;
            num_payloads = p.num_payloads + 1;
            payload = some (record meta_new { meta_type = device });
          });
    payload = nowhere;
    texts = true;
  }

  pub visit-answer :
      (iq pubsub items a : String → Option String) (t : Tree) (r : Response (Option (Meta Double)))
      (p : Packet (Option (Meta Double)))
      → visit
          (visitor d)
          none
          unset
          (answer iq pubsub items (element (some "item") a (cons t nil)))
          (start_reading r p)
        ≡ visit (visitor d) (some "item") (open_name "item") t (in_items r p)
  visit-answer iq pubsub items a t r p =
      let inside = visit (visitor d) (some "item") (open_name "item") t (in_items r p) in
      let once : (inside >>= λ s. some s) ≡ inside = >>=-some inside (λ _. refl) in
      ap (λ m. ((m >>= λ s. some s) >>= λ s. some s) >>= λ s. some s) once
      ∙ ap (λ m. (m >>= λ s. some s) >>= λ s. some s) once
      ∙ ap (λ m. m >>= λ s. some s) once
      ∙ once

  pub visit-meta_tree :
      (m : Meta Double) (type : String) (r : Response (Option (Meta Double)))
      (p : Packet (Option (Meta Double)))
      → type_attribute m.meta_type ≡ some type
      → visit (visitor d) (some "item") (open_name "item") (meta_tree m type) (in_items r p)
        ≡ some (
            on d
              (record r { response_type = ResponseType.packet })
              (record p { type = PacketType.meta; num_payloads = p.num_payloads + 1 })
              (arrived_meta m)
              (behind_transducers m.transducers (object the_meta)))
  visit-meta_tree m type r p e =
      let (same, known) = meta_type_of-attribute m.meta_type type e in
      let marked : Response (Option (Meta Double)) = record r {
        response_type = ResponseType.packet;
      } in
      let counted : Packet (Option (Meta Double)) = record p {
        type = PacketType.meta;
        num_payloads = p.num_payloads + 1;
      } in
      let begun : received_meta (meta_attributes m type) (record meta_new { meta_type = device })
          ≡ named m m.meta_type =
        received_meta-named m type ∙ ap (named m) same in
      rw begun (
        visit-meta_properties d marked counted _ _
          (behind_transducers m.transducers (object the_meta)) m.properties (open_name "meta") _
          (visit-transducers d marked counted _ (named m m.meta_type) (object the_meta)
            m.transducers (open_name "meta") nil known refl))
      ∙ λ i. some (
          on d marked counted
            (record (arrived_meta m) {
              transducers = add_all-nil (map arrived m.transducers) i;
              properties = add_all-nil (full_properties m.properties) i;
            })
            (behind_transducers m.transducers (object the_meta)))

-- When meta data without locations have an item, the callbacks of the query of meta data, run over
-- any text that reports the server's answer around this item, return MIO_OK, mark the response as
-- meta data, count them, and leave them as the payload in place of what was there, but for the
-- info of the transducers and those properties of the meta data that have no name or no value.
pub meta_reader-meta_to_item :
    (x : Strophe) (d : Doubles) (m : Meta d.Double) (item : x.Stanza)
    (iq pubsub items : String → Option String) (es : List Xml.Event)
    (r : Response (Option (Meta d.Double))) (p : Packet (Option (Meta d.Double)))
    → m.geoloc ≡ none
    → HaveNoLocation m.transducers
    → meta_to_item x d m ≡ some (some item)
    → Reports (answer iq pubsub items (x.tree item)) es
    → xml_parse (meta_reader d) (start_reading d r p) (complete es)
      ≡ some (
        Code.ok,
        on d
            (record r { response_type = ResponseType.packet })
            (record p { type = PacketType.meta; num_payloads = p.num_payloads + 1 })
            (arrived_meta m)
            (behind_transducers m.transducers (object the_meta)),
      )
meta_reader-meta_to_item x d m item iq pubsub items es r p none_here unlocated built reported =
    let (type, typed, shape) = tree-meta_to_item x d m item none_here unlocated built in
    xml_parse-visit (meta_reader d) (visitor d) (meta_reader-visitor d)
      (answer iq pubsub items (x.tree item)) es (start_reading d r p) reported
    ∙ ap (λ n. n >>= λ s. some (Code.ok, s))
        (ap (λ u. visit (visitor d) none unset (answer iq pubsub items u) (start_reading d r p))
            shape
          ∙ visit-answer d iq pubsub items (overlay "id" (some "meta") (λ _. none))
              (meta_tree m type) r p
          ∙ visit-meta_tree d m type r p typed)
