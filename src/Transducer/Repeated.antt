-- ===== src/Transducer/Repeated.antt =====
-- What a receiver makes of a second value of the first value's name.
use libmio.Base.{
  ◌+◌, ◌≡◌, sym, ap, ◌∙◌, String, true, false, List, [], ◌∷◌, Option, none, some, str_eq_refl,
  ◌>>=◌,
}
use libmio.Xml
use libmio.Xml.{Strophe, Tree, Forest, element, nil, cons, Reports}
use libmio.Response.{Code, Response, ResponseType, Packet}
use libmio.Handlers.{ElementName, open_name, complete, xml_parse}
use libmio.Handlers.Visit.{visit_all, xml_parse-visit, last_name}
use libmio.Transducer.{DataType, TransducerData, MioData, dangling, transducer_data_add}
use libmio.Transducer.Query.{Receiving, take_value, data_reader}
use libmio.Transducer.Callbacks.{of_items, visitor, data_reader-visitor}
use libmio.Transducer.RoundTrip.{
  at, with_data, full, tree-item, visit_all-item, AreItems, Origin, visit-around_items,
  around_items,
}

-- The packet, with a list whose head is freed.
abbrev pub with_freed : Packet MioData → Packet MioData
with_freed p = record p {
  payload = record p.payload {
    num_transducers = p.payload.num_transducers + 1 + 1;
    transducers = dangling;
  };
}

-- Behind two values of one name: the end, or a fault at a third value.
abbrev pub behind_two : List TransducerData → Response MioData → Packet MioData → Option Receiving
behind_two [] r p = some (at (record r { response_type = ResponseType.packet }) (with_freed p) true)
behind_two (_ ∷ _) r p = none

visit-third :
    (x : Strophe) (now : String) (ws : List TransducerData) (f : Forest) (curr : ElementName)
    (r : Response MioData) (p : Packet MioData)
    → AreItems x ws f
    → visit_all
        (visitor now)
        (some "items")
        curr
        f
        (at (record r { response_type = ResponseType.packet }) (with_freed p) true)
      ≡ behind_two ws r p
visit-third x now [] f curr r p e = rw e
visit-third x now (w ∷ ws) f curr r p (item, g, built, shape, others) =
    visit_all-item x now w f g curr (record r { response_type = ResponseType.packet })
      (with_freed p) true item built shape

take_value-same :
    (now n v s : String) (type : DataType) (t : TransducerData) (r : Response MioData)
    (p : Packet MioData)
    → t.name ≡ some n
    → take_value now
        (full type n v s)
        (at r (with_data (p.payload.num_transducers + 1) (t ∷ []) p) true)
      ≡ some (at r (with_freed p) true)
unfolding transducer_data_add
take_value-same now n v s type t r p e = rw (e, str_eq_refl n)

-- When the second of two values or more has the first one's name, and each has an item: the
-- callback of the receivers leaves a packet that counts both values and whose list is a pointer to
-- a freed one; and where there is a third value, it reads through that pointer.
pub data_reader-repeated :
    (x : Strophe) (now : String) (o : Origin) (a b c : String → Option String)
    (t u : TransducerData) (ws : List TransducerData) (f : Forest) (es : List Xml.Event)
    (r : Response MioData) (p : Packet MioData)
    → AreItems x (t ∷ u ∷ ws) f
    → u.name ≡ t.name
    → Reports (around_items o a b c f) es
    → xml_parse (data_reader now) (at r p false) (complete es)
      ≡ (behind_two ws r (of_items c p) >>= λ s. some (Code.ok, s))
data_reader-repeated x now o a b c t u ws f es r p (first, g, b1, s1, (second, h, b2, s2, others))
      same reported =
    xml_parse-visit (data_reader now) (visitor now) (data_reader-visitor now)
      (around_items o a b c f) es (at r p false) reported
    ∙ ap (λ m. m >>= λ s. some (Code.ok, s)) (visit-around_items now o a b c f r p ∙ values)
  where
    q : Packet MioData
    q = of_items c p

    marked : Response MioData
    marked = record r { response_type = ResponseType.packet }

    values :
        visit_all (visitor now) (some "items") (open_name "items") f (at r q false)
        ≡ behind_two ws r q
    values =
        let (n, v, s, whole, _) = tree-item x u [] second b2 in
        visit_all-item x now t f g (open_name "items") r q false first b1 s1
        ∙ visit_all-item x now u g h (last_name (open_name "items") (x.tree first)) marked
            (with_data (q.payload.num_transducers + 1) (t ∷ []) q) true second b2 s2
        ∙ ap
            (λ m.
              m
              >>= visit_all (visitor now) (some "items")
                  (last_name (last_name (open_name "items") (x.tree first)) (x.tree second)) h)
            (ap
                (λ w.
                  take_value now w
                    (at marked (with_data (q.payload.num_transducers + 1) (t ∷ []) q) true))
                whole
              ∙ take_value-same now n v s u.type t marked q (sym same ∙ ap (λ w. w.name) whole))
        ∙ visit-third x now ws h
            (last_name (last_name (open_name "items") (x.tree first)) (x.tree second)) r q others
