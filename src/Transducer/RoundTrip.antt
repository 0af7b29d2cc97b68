-- ===== src/Transducer/RoundTrip.antt =====
-- What a receiver reads of the values that a node sends.
use libmio.Base.{
  ℕ, ◌+◌, ◌≡◌, refl, sym, ap, subst, ◌∙◌, String, Bool, true, false, List, [], ◌∷◌, ◌++◌, Option,
  none, some, arith, length, ◌>>=◌, >>=-eq-some,
}
use mathlib.Core.Option.{some-injective}
use mathlib.Core.List.{append-nil, append_assoc}
use libmio.Xml
use libmio.Xml.{Strophe, trees, Tree, Forest, element, nil, cons, Reports}
use libmio.Response.{Code, Response, ResponseType, Packet}
use libmio.Response.Payloads.{holding}
use libmio.Handlers.{ElementName, unset, open_name, complete, xml_parse}
use libmio.Handlers.Snoc.{>>=-some}
use libmio.Handlers.Visit.{visit, visit_all, xml_parse-visit, last_name}
use libmio.Reference.Attributes.{overlay}
use libmio.Transducer.{
  DataType, transducer_data, transducer_set_data, TransducerData, MioData, linked, element_name,
  transducer_data_to_item, transducer_data_add,
}
use libmio.Transducer.Names.{IsAbsent, IsUnique, put_named-absent, IsAbsent-before}
use libmio.Transducer.Query.{Receiving, take_value, data_reader}
use libmio.Transducer.Callbacks.{of_items, visitor, data_reader-visitor}

abbrev pub at : Response MioData → Packet MioData → Bool → Receiving
at r p pointed = record { response = holding r p; pointed = pointed }

abbrev pub with_value : (name value timestamp : String) → String → Option String
with_value n v s =
    overlay "timestamp" (some s) (overlay "value" (some v) (overlay "name" (some n) (λ _. none)))

-- The element of a value.
abbrev pub value_tree : DataType → (name value timestamp : String) → Tree
value_tree type n v s = element (some (element_name type)) (with_value n v s) nil

abbrev pub item_attributes : (name : String) → String → Option String
item_attributes n =
    overlay "xmlns" (some "http://jabber.org/protocol/mio")
      (overlay "id" (some (String.◌∷◌ "_" n)) (λ _. none))

abbrev pub item_tree : DataType → (name value timestamp : String) → Tree
item_tree type n v s = element (some "item") (item_attributes n) (cons (value_tree type n v s) nil)

-- A value that has all that an item shows.
abbrev pub full : DataType → (name value timestamp : String) → TransducerData
full type n v s = record { type = type; name = some n; value = some v; timestamp = some s }

module _ (x : Strophe) where
  open x use {
    Stanza, tree, new, set_name, set_attribute, add_child, tree-new, tree-set_name,
    tree-set_attribute, tree-add_child,
  }

  tree-built :
      (type : DataType) (n v s : String)
      → tree (
          add_child
            (set_attribute
              (set_attribute (set_name new "item") "id" (String.◌∷◌ "_" n))
              "xmlns"
              "http://jabber.org/protocol/mio")
            (set_attribute
              (set_attribute (set_attribute (set_name new (element_name type)) "name" n) "value" v)
              "timestamp"
              s))
        ≡ item_tree type n v s
  tree-built type n v s = simp (tree-add_child, tree-set_attribute, tree-set_name, tree-new)

  pub tree-item :
      (t : TransducerData) (ts : List TransducerData) (item : Stanza)
      → transducer_data_to_item x (t ∷ ts) ≡ some (some item)
      → (n v s : String) × (t ≡ full t.type n v s) × (tree item ≡ item_tree t.type n v s)
  unfolding transducer_data_to_item
  tree-item t ts item e =
      let (n, named, e1) = >>=-eq-some t.name _ e in
      let (v, valued, e2) = >>=-eq-some t.value _ e1 in
      let (s, timed, e3) = >>=-eq-some t.timestamp _ e2 in
      (
        n,
        v,
        s,
        λ i. record { type = t.type; name = named i; value = valued i; timestamp = timed i },
        subst (λ c. tree c ≡ item_tree t.type n v s) (some-injective _ _ (some-injective _ _ e3))
            (tree-built t.type n v s),
      )

-- An element whose only part that tells is a value: the reader takes the value.
pub visit-item_tree :
    (now : String) (around : Option String) (curr : ElementName) (type : DataType) (n v s : String)
    (r : Response MioData) (p : Packet MioData) (b : Bool)
    → visit (visitor now) around curr (item_tree type n v s) (at r p b)
      ≡ take_value now (full type n v s) (at r p b)
visit-item_tree now around curr transducer_data n v s r p b =
    ap (λ m. m >>= λ u. some u)
      (>>=-some (take_value now (full transducer_data n v s) (at r p b)) (λ _. refl))
    ∙ >>=-some (take_value now (full transducer_data n v s) (at r p b)) (λ _. refl)
visit-item_tree now around curr transducer_set_data n v s r p b =
    ap (λ m. m >>= λ u. some u)
      (>>=-some (take_value now (full transducer_set_data n v s) (at r p b)) (λ _. refl))
    ∙ >>=-some (take_value now (full transducer_set_data n v s) (at r p b)) (λ _. refl)

abbrev pub with_data : ℕ → List TransducerData → Packet MioData → Packet MioData
with_data k ts p = record p {
  payload = record p.payload { num_transducers = k; transducers = linked ts };
}

pub take_value-absent :
    (now n v s : String) (type : DataType) (r : Response MioData) (p : Packet MioData) (k : ℕ)
    (a : TransducerData) (rest : List TransducerData)
    → IsAbsent n (a ∷ rest)
    → take_value now (full type n v s) (at r (with_data k (a ∷ rest) p) true)
      ≡ some (at r (with_data (k + 1) ((a ∷ rest) ++ (full type n v s ∷ [])) p) true)
unfolding transducer_data_add
take_value-absent now n v s type r p k a rest (first, absent) =
    rw (first, put_named-absent n (full type n v s) rest absent)

-- The items of a list of values, in order.
abbrev pub AreItems : (x : Strophe) → List TransducerData → Forest → Type 0
AreItems x [] f = f ≡ nil
AreItems x (t ∷ ts) f =
    (item : x.Stanza) × (g : Forest) × (transducer_data_to_item x (t ∷ []) ≡ some (some item))
    × (f ≡ cons (x.tree item) g)
    × AreItems x ts g

-- The reader takes the value of the first item, and goes on.
pub visit_all-item :
    (x : Strophe) (now : String) (t : TransducerData) (f g : Forest) (curr : ElementName)
    (r : Response MioData) (p : Packet MioData) (b : Bool) (item : x.Stanza)
    → transducer_data_to_item x (t ∷ []) ≡ some (some item)
    → f ≡ cons (x.tree item) g
    → visit_all (visitor now) (some "items") curr f (at r p b) ≡ (
        take_value now t (at r p b)
        >>= visit_all (visitor now) (some "items") (last_name curr (x.tree item)) g)
visit_all-item x now t f g curr r p b item built shape =
    let (n, v, s, whole, tree_shape) = tree-item x t [] item built in
    let taken : visit (visitor now) (some "items") curr (x.tree item) (at r p b)
        ≡ take_value now t (at r p b) =
      ap (λ u. visit (visitor now) (some "items") curr u (at r p b)) tree_shape
      ∙ visit-item_tree now (some "items") curr t.type n v s r p b
      ∙ ap (λ u. take_value now u (at r p b)) (sym whole) in
    ap (λ g'. visit_all (visitor now) (some "items") curr g' (at r p b)) shape
    ∙ ap (λ m. m >>= visit_all (visitor now) (some "items") (last_name curr (x.tree item)) g) taken

-- The walk over the items behind the first one.
visit-items :
    (x : Strophe) (now : String) (ts : List TransducerData) (f : Forest) (curr : ElementName)
    (r : Response MioData) (p : Packet MioData) (k : ℕ) (a : TransducerData)
    (rest : List TransducerData)
    → AreItems x ts f
    → IsUnique ((a ∷ rest) ++ ts)
    → visit_all (visitor now) (some "items") curr f (at r (with_data k (a ∷ rest) p) true)
      ≡ some (at r (with_data (k + length ts) ((a ∷ rest) ++ ts) p) true)
visit-items x now [] f curr r p k a rest e unique =
    ap (λ g. visit_all (visitor now) (some "items") curr g (at r (with_data k (a ∷ rest) p) true)) e
    ∙ λ i. some (at r (with_data (count i) (a ∷ sym (append-nil rest) i) p) true)
  where
    count : k ≡ k + 0
    count = omega arith
visit-items x now (t ∷ ts) f curr r p k a rest (item, g, built, shape, others) unique =
    let (n, v, s, whole, tree_shape) = tree-item x t [] item built in
    let absent : IsAbsent n (a ∷ rest) =
      IsAbsent-before n (a ∷ rest) t ts (ap (λ u. u.name) whole) unique in
    let step : take_value now t (at r (with_data k (a ∷ rest) p) true)
        ≡ some (at r (with_data (k + 1) (a ∷ (rest ++ (t ∷ []))) p) true) =
      ap (λ u. take_value now u (at r (with_data k (a ∷ rest) p) true)) whole
      ∙ take_value-absent now n v s t.type r p k a rest absent
      ∙ ap (λ u. some (at r (with_data (k + 1) (a ∷ (rest ++ (u ∷ []))) p) true)) (sym whole) in
    let unique' : IsUnique ((a ∷ (rest ++ (t ∷ []))) ++ ts) =
      subst (λ l. IsUnique (a ∷ l)) (sym (append_assoc rest (t ∷ []) ts)) unique in
    let count : k + 1 + length ts ≡ k + length (t ∷ ts) = omega arith in
    visit_all-item x now t f g curr r (with_data k (a ∷ rest) p) true item built shape
    ∙ ap (λ m. m >>= visit_all (visitor now) (some "items") (last_name curr (x.tree item)) g) step
    ∙ visit-items x now ts g (last_name curr (x.tree item)) r p (k + 1) a (rest ++ (t ∷ [])) others
        unique'
    ∙ λ i. some (at r (with_data (count i) (a ∷ append_assoc rest (t ∷ []) ts i) p) true)

-- What a notification and the answer to a query put around the items.
pub data Origin : Type 0 where
  notification answered : Origin

abbrev pub outer : Origin → String
outer notification = "message"
outer answered = "iq"

abbrev pub inner : Origin → String
inner notification = "event"
inner answered = "pubsub"

abbrev pub around_items : Origin → (outer inner items : String → Option String) → Forest → Tree
around_items o a b c f =
    element (some (outer o)) a
      (cons (element (some (inner o)) b (cons (element (some "items") c f) nil)) nil)

pub visit-around_items :
    (now : String) (o : Origin) (a b c : String → Option String) (f : Forest) (r : Response MioData)
    (p : Packet MioData)
    → visit (visitor now) none unset (around_items o a b c f) (at r p false)
      ≡ visit_all (visitor now) (some "items") (open_name "items") f (at r (of_items c p) false)
visit-around_items now o a b c f r p = through o
  where
    read : Option Receiving
    read = visit_all (visitor now) (some "items") (open_name "items") f (at r (of_items c p) false)

    ends : ((read >>= λ z. some z) >>= λ z. some z) ≡ read
    ends = ap (λ m. m >>= λ z. some z) (>>=-some read (λ _. refl)) ∙ >>=-some read (λ _. refl)

    through :
        (o' : Origin)
        → visit (visitor now) none unset (around_items o' a b c f) (at r p false) ≡ read
    through notification = ends
    through answered = ends

-- What the reader makes of a response, given the packet that the attributes of `items` leave.
abbrev pub with_values : List TransducerData → Response MioData → Packet MioData → Receiving
with_values [] r p = at r p false
with_values (t ∷ ts) r p =
    at (record r { response_type = ResponseType.packet })
      (with_data (p.payload.num_transducers + length (t ∷ ts)) (t ∷ ts) p) true

visit-first :
    (x : Strophe) (now : String) (ts : List TransducerData) (f : Forest) (r : Response MioData)
    (p : Packet MioData)
    → AreItems x ts f
    → IsUnique ts
    → visit_all (visitor now) (some "items") (open_name "items") f (at r p false)
      ≡ some (with_values ts r p)
visit-first x now [] f r p e unique = rw e
visit-first x now (t ∷ ts) f r p (item, g, built, shape, others) unique =
    let marked : Response MioData = record r { response_type = ResponseType.packet } in
    let k = p.payload.num_transducers in
    let count : k + 1 + length ts ≡ k + length (t ∷ ts) = omega arith in
    visit_all-item x now t f g (open_name "items") r p false item built shape
    ∙ visit-items x now ts g (last_name (open_name "items") (x.tree item)) marked p (k + 1) t []
        others unique
    ∙ λ i. some (at marked (with_data (count i) (t ∷ ts) p) true)

-- For a list of values whose names differ, each with an item, run over any text that reports the
-- notification, or the answer to a query, with these items in order: the callback of the receivers
-- returns MIO_OK, takes the node of the event from the element around the items, counts the
-- values, and leaves exactly the list, in order; with a value or more it marks the response as a
-- packet.
pub data_reader-transducer_data_to_item :
    (x : Strophe) (now : String) (o : Origin) (a b c : String → Option String)
    (ts : List TransducerData) (f : Forest) (es : List Xml.Event) (r : Response MioData)
    (p : Packet MioData)
    → AreItems x ts f
    → IsUnique ts
    → Reports (around_items o a b c f) es
    → xml_parse (data_reader now) (at r p false) (complete es)
      ≡ some (Code.ok, with_values ts r (of_items c p))
data_reader-transducer_data_to_item x now o a b c ts f es r p items unique reported =
    xml_parse-visit (data_reader now) (visitor now) (data_reader-visitor now)
      (around_items o a b c f) es (at r p false) reported
    ∙ ap (λ m. m >>= λ s. some (Code.ok, s))
        (visit-around_items now o a b c f r p
          ∙ visit-first x now ts f r (of_items c p) items unique)
