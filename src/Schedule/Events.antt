-- ===== src/Schedule/Events.antt =====
-- The element of an event, and what is read of it.
use libmio.Handlers.{open_name, ElementName}
use mathlib.Core.Option.{some-injective}
use libmio.Base.{
  ℕ, ◌^◌, ◌<◌, ◌≡◌, refl, ap, sym, ◌∙◌, String, Bool, true, false, List, [], ◌∷◌, Option, none,
  some, arith, >>=-eq-some, update_last-append,
}
use libmio.Decimal.{pos, negsuc, write, truncate}
use libmio.Xml.{Strophe, Tree, Forest, element, nil, cons}
use libmio.Reference.{attribute_if_set}
use libmio.Reference.Attributes.{overlay, tree-attribute_if_set}
use libmio.Response.{Response, Packet}
use libmio.Response.Payloads.{holding, with_more}
use libmio.Handlers.Visit.{visit_all}
use libmio.Schedule.Ids.{scan_id-write}
use libmio.Schedule.{
  Event, Recurrence, recurrence_new, scan_id, as_unsigned, add_recurrence, recurrence_to_stanza,
  event_to_stanza,
}
use libmio.Schedule.Query.{Reading}
use libmio.Schedule.Callbacks.{visitor, received}
use libmio.Schedule.Recurrences.{AreTexts, printed, Fills-recurrence_to_stanza}

abbrev written : String → (info time name value : Option String) → String → Option String
written id info time name value = overlay "transducerValue" value (
    overlay "transducerName" name
      (overlay "time" time (overlay "info" info (overlay "id" (some id) (λ _. none)))))

received-written :
    (id : String) (info time name value : Option String)
    → received (written id info time name value) ≡ record {
      id = scan_id id (negsuc 0);
      tranducer_name = name;
      transducer_value = value;
      time = time;
      info = info;
      recurrence = none;
    }
received-written id info time name value = ground arith

abbrev pub HasTexts : Option Recurrence → Type 0
HasTexts none = Unit
HasTexts (some q) = AreTexts q

-- The id fits the buffer, and the recurrence's texts are those that expat reports.
pub record IsSent (e : Event) : Type 0 where
  pub number : ℕ
  pub named : e.id ≡ pos number
  pub small : number < 10 ^ 7
  pub texts : HasTexts e.recurrence

abbrev pub sent_recurrence : Option Recurrence → Option Recurrence
sent_recurrence none = none
sent_recurrence (some q) = some (printed q)

-- An event as it arrives.
abbrev pub sent : Event → Event
sent e = record e { recurrence = sent_recurrence e.recurrence }

abbrev pub at : Response (List Event) → Packet (List Event) → Bool → Bool → Reading
at r p filling pointed = record { response = holding r p; filling = filling; pointed = pointed }

abbrev pub bare : Event → Event
bare e = record e { recurrence = none }

-- An element whose children give the event its recurrence.
pub record Tells (t : Tree) (a : String → Option String) (e : Event) : Type 0 where
  pub children : Forest
  pub shape : t ≡ element (some "event") a children
  pub ends : Bool
  pub runs :
      (around : Option String) (curr : ElementName) (r : Response (List Event))
      (p : Packet (List Event))
      → visit_all visitor around curr children (at r (with_more (bare e ∷ []) p) false true)
        ≡ some (at r (with_more (sent e ∷ []) p) ends true)

module _ (x : Strophe) where
  open x use {
    Stanza, tree, new, set_name, set_attribute, add_child, tree-new, tree-set_name,
    tree-set_attribute, tree-add_child,
  }

  tree-written :
      (id : String) (info time name value : Option String)
      → tree (
          attribute_if_set x "transducerValue" value (
            attribute_if_set x "transducerName" name (
              attribute_if_set x "time" time
                (attribute_if_set x "info" info (set_attribute (set_name new "event") "id" id)))))
        ≡ element (some "event") (written id info time name value) nil
  tree-written id info time name value =
      let plain : tree (set_attribute (set_name new "event") "id" id)
          ≡ element (some "event") (overlay "id" (some id) (λ _. none)) nil =
        rw (tree-set_attribute, tree-set_name, tree-new) in
      tree-attribute_if_set x "transducerValue" value _ "event" _ nil (
        tree-attribute_if_set x "transducerName" name _ "event" _ nil (
          tree-attribute_if_set x "time" time _ "event" _ nil
            (tree-attribute_if_set x "info" info _ "event" _ nil plain)))

  add_recurrence-Tells :
      (s end : Stanza) (a : String → Option String) (e : Event) (o : Option Recurrence)
      → tree s ≡ element (some "event") a nil
      → HasTexts o
      → add_recurrence x o s ≡ some end
      → Tells (tree end) a (record e { recurrence = o })
  add_recurrence-Tells s end a e none shape texts added = record {
    children = nil;
    shape = ap tree (sym (some-injective _ _ added)) ∙ shape;
    ends = false;
    runs = λ _ _ _ _. refl;
  }
  add_recurrence-Tells s end a e (some q) shape texts added =
      let (c, built, e1) = >>=-eq-some (recurrence_to_stanza x q) _ added in
      let f = Fills-recurrence_to_stanza x q c texts built in
      record {
        children = cons (element (some "recurrence") f.attributes f.children) nil;
        shape = ap tree (sym (some-injective _ _ e1)) ∙ rw (tree-add_child, shape, f.shape);
        ends = true;
        runs = λ around curr r p. rw (
          update_last-append (λ e'. some (record e' { recurrence = some recurrence_new })) p.payload
              (bare e) (record e { recurrence = some recurrence_new }) refl,
          f.runs (some "recurrence") (open_name "recurrence") r p e,
        );
      }

  pub tree-event :
      (e : Event) (s : Stanza)
      → IsSent e
      → event_to_stanza x e ≡ some s
      → (a : String → Option String) × Tells (tree s) a e × (received a ≡ bare e)
  tree-event e s h eq =
      let id = truncate 7 (write (as_unsigned e.id)) in
      let a = written id e.info e.time e.tranducer_name e.transducer_value in
      (
        a,
        add_recurrence-Tells _ s a e e.recurrence
            (tree-written id e.info e.time e.tranducer_name e.transducer_value) h.texts eq,
        received-written id e.info e.time e.tranducer_name e.transducer_value
            ∙ ap (λ i. record e { id = i; recurrence = none })
                (ap (λ i. scan_id (truncate 7 (write (as_unsigned i))) (negsuc 0)) h.named
                  ∙ scan_id-write h.number h.small
                  ∙ sym h.named),
      )
