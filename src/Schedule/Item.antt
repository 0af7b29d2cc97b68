-- ===== src/Schedule/Item.antt =====
-- The walk over the item of a schedule.
use libmio.Handlers.{open_name, ElementName}
use mathlib.Core.Option.{some-injective}
use mathlib.Core.List.{append-nil, append_assoc}
use libmio.Base.{
  ◌≡◌, ap, sym, subst, ◌∙◌, String, Bool, true, List, [], ◌∷◌, ◌++◌, map, Option, none, some, ◌>>=◌,
  >>=-eq-some, add_last-append,
}
use libmio.Xml.{Strophe, Tree, Forest, element, nil, cons, snoc, with_child}
use libmio.Reference.Attributes.{overlay}
use libmio.Response.{Response, Packet}
use libmio.Response.Payloads.{with_more, with_more-append, nothing_more}
use libmio.Handlers.Visit.{visit, visit_all, last_name_all}
use libmio.Handlers.Snoc.{visit_all-snoc}
use libmio.Schedule.{Event, event_to_stanza, add_events, event_to_item}
use libmio.Schedule.Callbacks.{visitor, received}
use libmio.Schedule.Events.{sent, IsSent, at, bare, Tells, tree-event}

-- An element whose children the reader appends to the payload as `es`.
pub record Lists (t : Tree) (es : List Event) : Type 0 where
  pub attributes : String → Option String
  pub children : Forest
  pub shape : t ≡ element (some "schedule") attributes children
  pub runs :
      (around : Option String) (curr : ElementName) (r : Response (List Event))
      (p : Packet (List Event)) (filling pointed : Bool)
      → (filling' : Bool) × (pointed' : Bool) × (visit_all visitor around curr children
            (at r p filling pointed)
          ≡ some (at r (with_more es p) filling' pointed'))

visit-event :
    (around : Option String) (curr : ElementName) (t : Tree) (a : String → Option String)
    (e : Event) (r : Response (List Event)) (p : Packet (List Event)) (filling pointed : Bool)
    → (tells : Tells t a e) → received a ≡ bare e
    → visit visitor around curr t (at r p filling pointed)
      ≡ some (at r (with_more (sent e ∷ []) p) tells.ends true)
visit-event around curr t a e r p filling pointed tells same =
    ap (λ u. visit visitor around curr u (at r p filling pointed)) tells.shape
    ∙ rw (
      same,
      add_last-append p.payload (bare e),
      tells.runs (some "event") (open_name "event") r p,
    )

Lists-snoc :
    (t c : Tree) (es : List Event) (a : String → Option String) (e : Event)
    → Lists t es
    → Tells c a e
    → received a ≡ bare e
    → Lists (with_child c t) (es ++ (sent e ∷ []))
Lists-snoc t c es a e l tells same = record {
  attributes = l.attributes;
  children = snoc l.children c;
  shape = ap (with_child c) l.shape;
  runs = λ around curr r p filling pointed.
      let (filling', pointed', ran) = l.runs around curr r p filling pointed in
      (
        tells.ends,
        true,
        visit_all-snoc visitor around curr l.children c (at r p filling pointed)
            ∙ ap (λ m. m >>= visit visitor around (last_name_all curr l.children) c) ran
            ∙ visit-event around (last_name_all curr l.children) c a e r (with_more es p) filling'
                pointed' tells same
            ∙ ap (λ w. some (at r w tells.ends true)) (with_more-append es (sent e ∷ []) p),
      );
}

abbrev pub AreSent : List Event → Type 0
AreSent [] = Unit
AreSent (e ∷ es) = IsSent e × AreSent es

module _ (x : Strophe) where
  open x use {
    Stanza, tree, new, set_name, set_attribute, add_child, tree-new, tree-set_name,
    tree-set_attribute, tree-add_child,
  }

  add_events-Lists :
      (st : Stanza) (done es : List Event) (end : Stanza)
      → Lists (tree st) done
      → AreSent es
      → add_events x st es ≡ some end
      → Lists (tree end) (done ++ map sent es)
  add_events-Lists st done [] end l h e =
      subst (λ s. Lists (tree s) (done ++ [])) (some-injective _ _ e)
        (subst (Lists (tree st)) (sym (append-nil done)) l)
  add_events-Lists st done (v ∷ es) end l (one, many) e =
      let (c, built, e1) = >>=-eq-some (event_to_stanza x v) _ e in
      let (a, tells, same) = tree-event x v c one built in
      let next : Lists (tree (add_child st c)) (done ++ (sent v ∷ [])) =
        rw (tree-add_child st c) (Lists-snoc (tree st) (tree c) done a v l tells same) in
      subst (Lists (tree end)) (append_assoc done (sent v ∷ []) (map sent es))
        (add_events-Lists (add_child st c) (done ++ (sent v ∷ [])) es end next many e1)

  list-Lists : Lists (tree (set_name new "schedule")) []
  list-Lists = record {
    attributes = λ _. none;
    children = nil;
    shape = rw (tree-set_name, tree-new);
    runs = λ around curr r p filling pointed.
        (filling, pointed, ap (λ w. some (at r w filling pointed)) (nothing_more p));
  }

  abbrev pub item_attributes : String → Option String
  item_attributes = overlay "id" (some "schedule") (λ _. none)

  pub tree-item :
      (es : List Event) (item : Stanza)
      → AreSent es
      → event_to_item x es ≡ some item
      → (t : Tree) × Lists t (map sent es)
        × (tree item ≡ element (some "item") item_attributes (cons t nil))
  unfolding event_to_item
  tree-item es item h e =
      let (list, built, e1) = >>=-eq-some (add_events x (set_name new "schedule") es) _ e in
      (
        tree list,
        add_events-Lists (set_name new "schedule") [] es list list-Lists h built,
        subst (λ s. tree s ≡ element (some "item") item_attributes (cons (tree list) nil))
            (some-injective _ _ e1)
            (rw (tree-add_child, tree-set_attribute, tree-set_name, tree-new)),
      )
