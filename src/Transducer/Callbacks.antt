-- ===== src/Transducer/Callbacks.antt =====
-- The callbacks of the receivers of values as functions of the attributes.
use mathlib.Core.Path.{fun_ext}
use libmio.Base.{◌+◌, ◌≡◌, refl, String, Option, none, some, str_eq, if◌then◌else◌, ◌>>=◌}
use libmio.Xml.{Attrs, attribute, Distinct}
use libmio.Xml.Scan.{scan, apply_to, member-scan, member-untouched}
use libmio.Response.{Packet, on_packet}
use libmio.Handlers.Visit.{Visitor, Agrees}
use libmio.Transducer.{DataType, TransducerData, transducer_data_new, MioData}
use libmio.Transducer.Query.{
  Receiving, items_attribute, data_attribute, take_value, data_type_of, is_value,
  start_data_receive, data_reader,
}

-- What the scan over the attributes of a value yields.
abbrev pub received : DataType → (String → Option String) → TransducerData
received type a = record {
  type = type;
  name = apply_to (λ v _. some v) none (a "name");
  value = apply_to (λ v _. some v) none (a "value");
  timestamp = apply_to (λ v _. some v) none (a "timestamp");
}

scan-received :
    (type : DataType) (attrs : Attrs)
    → Distinct attrs
    → scan data_attribute (record transducer_data_new { type = type }) attrs
      ≡ received type (λ k. attribute k attrs)
scan-received type attrs once =
    let new : TransducerData = record transducer_data_new { type = type } in
    let n =
      member-scan data_attribute (λ t. t.name) "name" (λ v _. some v) (λ _ _ _. refl) attrs new
        once in
    let v =
      member-scan data_attribute (λ t. t.value) "value" (λ v _. some v) (λ _ _ _. refl) attrs new
        once in
    let s =
      member-scan data_attribute (λ t. t.timestamp) "timestamp" (λ v _. some v) (λ _ _ _. refl)
        attrs new once in
    let y = member-untouched data_attribute (λ t. t.type) (λ _ _ _. refl) attrs new in
    λ j. record { type = y j; name = n j; value = v j; timestamp = s j }

-- What the attributes of an `items` element make of the packet.
abbrev pub of_items : (String → Option String) → Packet MioData → Packet MioData
of_items a p = record {
  type = p.type;
  num_payloads = apply_to (λ _ n. n + 1) p.num_payloads (a "node");
  payload = apply_to (λ v d. record d { event = some v }) p.payload (a "node");
}

scan-of_items :
    (attrs : Attrs)
    → Distinct attrs
    → (λ p. scan items_attribute p attrs) ≡ of_items (λ k. attribute k attrs)
scan-of_items attrs once = fun_ext λ p.
    let y = member-untouched items_attribute (λ q. q.type) (λ _ _ _. refl) attrs p in
    let n =
      member-scan items_attribute (λ q. q.num_payloads) "node" (λ _ n. n + 1) (λ _ _ _. refl) attrs
        p once in
    let d =
      member-scan items_attribute (λ q. q.payload) "node" (λ v d. record d { event = some v })
        (λ _ _ _. refl) attrs p once in
    λ j. record { type = y j; num_payloads = n j; payload = d j }

abbrev pub visitor : (now : String) → Visitor Receiving
visitor now = record {
  enter = λ s _ _ name a.
      if str_eq name "items"
      then (on_packet s.response (of_items a) >>= λ r. some (record s { response = r }))
      else if is_value name
      then take_value now (received (data_type_of name) a) s
      else (on_packet s.response (λ p. p) >>= λ r. some (record s { response = r }));
  on_text = λ s _ _. some s;
}

pub data_reader-visitor : (now : String) → Agrees (data_reader now) (visitor now)
unfolding start_data_receive
data_reader-visitor now = record {
  plain = refl;
  at_start = λ s prev around n attrs once i.
      if str_eq n "items"
      then (on_packet s.response (scan-of_items attrs once i) >>= λ r.
          some (record s { response = r }))
      else if is_value n
      then take_value now (scan-received (data_type_of n) attrs once i) s
      else (on_packet s.response (λ p. p) >>= λ r. some (record s { response = r }));
  at_chars = λ _ _ _. refl;
}
