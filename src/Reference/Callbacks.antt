-- ===== src/Reference/Callbacks.antt =====
-- The callbacks of the reference query as functions of the attributes.
use libmio.Base.{
  ◌+◌, ◌≡◌, refl, String, List, Option, none, some, add_last, str_eq, if◌then◌else◌, ◌>>=◌,
}
use libmio.Xml.{Attrs, attribute, Distinct}
use libmio.Xml.Scan.{scan, apply_to, member-scan}
use libmio.Meta.{unknown}
use libmio.Response.{Response, ResponseType, PacketType, on_packet}
use libmio.Response.Errors.{noted, xml_error_handler-noted}
use libmio.Handlers.Visit.{Visitor, Agrees, >>=-cong}
use libmio.Reference.{
  Reference, unkown, reference_new, type_of, meta_type_of, reference_attribute,
  start_references_query, references_reader,
}

-- What the scan over the attributes of a `reference` element yields.
abbrev pub received : (String → Option String) → Reference
received a = record {
  type = apply_to type_of unkown (a "type");
  node = apply_to (λ v _. some v) none (a "node");
  name = apply_to (λ v _. some v) none (a "name");
  meta_type = apply_to meta_type_of unknown (a "metaType");
}

scan-received :
    (attrs : Attrs)
    → Distinct attrs
    → scan reference_attribute reference_new attrs ≡ received (λ k. attribute k attrs)
scan-received attrs once =
    let t =
      member-scan reference_attribute (λ r. r.type) "type" type_of (λ _ _ _. refl) attrs
        reference_new once in
    let n =
      member-scan reference_attribute (λ r. r.node) "node" (λ v _. some v) (λ _ _ _. refl) attrs
        reference_new once in
    let m =
      member-scan reference_attribute (λ r. r.name) "name" (λ v _. some v) (λ _ _ _. refl) attrs
        reference_new once in
    let k =
      member-scan reference_attribute (λ r. r.meta_type) "metaType" meta_type_of (λ _ _ _. refl)
        attrs reference_new once in
    λ i. record { type = t i; node = n i; name = m i; meta_type = k i }

-- The reader, as a function of the attributes.
abbrev pub visitor : Visitor (Response (List Reference))
visitor = record {
  enter = λ response _ _ name a.
      let with_items =
        if str_eq name "items"
        then on_packet (record response { response_type = ResponseType.packet })
            (λ p. record p { type = PacketType.references })
        else some response in
      with_items >>= λ r.
      if str_eq name "reference"
      then on_packet r (λ p. record p {
        num_payloads = p.num_payloads + 1;
        payload = add_last p.payload (received a);
      })
      else if str_eq name "error"
      then some (noted a r)
      else some r;
  on_text = λ s _ _. some s;
}

pub references_reader-visitor : Agrees references_reader visitor
unfolding start_references_query
references_reader-visitor = record {
  plain = refl;
  at_start = λ s prev around n attrs once.
      let with_items =
        if str_eq n "items"
        then on_packet (record s { response_type = ResponseType.packet })
            (λ p. record p { type = PacketType.references })
        else some s in
      >>=-cong with_items
        (λ r. rw (scan-received attrs once, xml_error_handler-noted attrs r once));
  at_chars = λ _ _ _. refl;
}
