-- ===== src/Reference/Item.antt =====
-- The walk over the item of a list of references.
use libmio.Handlers.{ElementName}
use mathlib.Core.Option.{some-injective}
use mathlib.Core.List.{append-nil, append_assoc}
use libmio.Base.{
  ◌≡◌, refl, ap, sym, subst, ◌∙◌, String, List, [], ◌∷◌, ◌++◌, Option, none, some, add_last-append,
  ◌>>=◌, >>=-eq-some,
}
use libmio.Xml.{Strophe, Tree, Forest, element, nil, cons, snoc, with_child}
use libmio.Xml.Scan.{apply_to}
use libmio.Meta.{MetaType, unknown, device, location, gateway, adapter, agent}
use libmio.Response.{Response, Packet}
use libmio.Response.Payloads.{holding, with_more, with_more-append, nothing_more}
use libmio.Handlers.Visit.{visit, last_name_all, visit_all}
use libmio.Handlers.Snoc.{visit_all-snoc}
use libmio.Reference.Attributes.{overlay, tree-attribute_if_set}
use libmio.Reference.{
  ReferenceType, Reference, unkown, child, parent, type_name, meta_type_name, type_of, meta_type_of,
  reference_to_stanza, add_references, references_to_item, attribute_if_set,
}
use libmio.Reference.Callbacks.{received, visitor}

type_of_name : (t : ReferenceType) (v : String) → type_name t ≡ some v → type_of v unkown ≡ t
type_of_name unkown v e = cc
type_of_name child v e = subst (λ o. apply_to type_of unkown o ≡ child) e refl
type_of_name parent v e = subst (λ o. apply_to type_of unkown o ≡ parent) e refl

meta_type_of_name :
    (t : MetaType) (v : String) → meta_type_name t ≡ some v → meta_type_of v unknown ≡ t
meta_type_of_name unknown v e = subst (λ o. apply_to meta_type_of unknown o ≡ unknown) e refl
meta_type_of_name device v e = subst (λ o. apply_to meta_type_of unknown o ≡ device) e refl
meta_type_of_name location v e = subst (λ o. apply_to meta_type_of unknown o ≡ location) e refl
meta_type_of_name gateway v e = cc
meta_type_of_name adapter v e = cc
meta_type_of_name agent v e = cc

-- The attributes that the loop sets.
abbrev written : (type meta_type : String) → (node name : Option String) → String → Option String
written t m node name =
    overlay "name" name
      (overlay "node" node (overlay "metaType" (some m) (overlay "type" (some t) (λ _. none))))

received-written :
    (t m : String) (node name : Option String)
    → received (written t m node name) ≡ record {
      type = type_of t unkown;
      node = node;
      name = name;
      meta_type = meta_type_of m unknown;
    }
received-written t m none none = refl
received-written t m none (some w) = refl
received-written t m (some v) none = refl
received-written t m (some v) (some w) = refl

module _ (x : Strophe) where
  open x use {
    Stanza, tree, new, set_name, set_attribute, add_child, tree-new, tree-set_name,
    tree-set_attribute, tree-add_child,
  }

  tree-written :
      (t m : String) (node name : Option String)
      → tree (
          attribute_if_set x "name" name (
            attribute_if_set x "node" node
              (set_attribute (set_attribute (set_name new "reference") "type" t) "metaType" m)))
        ≡ element (some "reference") (written t m node name) nil
  tree-written t m node name =
      let plain : tree
            (set_attribute (set_attribute (set_name new "reference") "type" t) "metaType" m)
          ≡ element (some "reference") (written t m none none) nil =
        rw (tree-set_attribute, tree-set_attribute, tree-set_name, tree-new) in
      tree-attribute_if_set x "name" name _ "reference" _ nil
        (tree-attribute_if_set x "node" node _ "reference" _ nil plain)

  tree-reference :
      (r : Reference) (s : Stanza)
      → reference_to_stanza x r ≡ some s
      → (a : String → Option String) × (tree s ≡ element (some "reference") a nil)
        × (received a ≡ r)
  tree-reference r s e =
      let (t, typed, e1) = >>=-eq-some (type_name r.type) _ e in
      let (m, described, e2) = >>=-eq-some (meta_type_name r.meta_type) _ e1 in
      let e3 = tree-written t m r.node r.name in
      (
        written t m r.node r.name,
        subst (λ c. tree c ≡ element (some "reference") (written t m r.node r.name) nil)
            (some-injective _ _ e2) e3,
        received-written t m r.node r.name
            ∙ rw (type_of_name r.type t typed, meta_type_of_name r.meta_type m described),
      )

-- An element whose children the reader appends to the payload as `rs`.
pub record Lists (t : Tree) (rs : List Reference) : Type 0 where
  pub attributes : String → Option String
  pub children : Forest
  pub shape : t ≡ element (some "references") attributes children
  pub runs :
      (around : Option String) (curr : ElementName) (r : Response (List Reference))
      (p : Packet (List Reference))
      → visit_all visitor around curr children (holding r p) ≡ some (holding r (with_more rs p))

visit-reference :
    (around : Option String) (curr : ElementName) (a : String → Option String) (q : Reference)
    (r : Response (List Reference)) (p : Packet (List Reference))
    → received a ≡ q
    → visit visitor around curr (element (some "reference") a nil) (holding r p)
      ≡ some (holding r (with_more (q ∷ []) p))
visit-reference around curr a q r p e = rw (e, add_last-append p.payload q)

Lists-snoc :
    (t : Tree) (rs : List Reference) (a : String → Option String) (q : Reference)
    → Lists t rs
    → received a ≡ q
    → Lists (with_child (element (some "reference") a nil) t) (rs ++ (q ∷ []))
Lists-snoc t rs a q l e = record {
  attributes = l.attributes;
  children = snoc l.children (element (some "reference") a nil);
  shape = ap (with_child (element (some "reference") a nil)) l.shape;
  runs = λ around curr r p.
      visit_all-snoc visitor around curr l.children (element (some "reference") a nil) (holding r p)
      ∙ ap
          (λ m.
            m
            >>= visit visitor around (last_name_all curr l.children)
                (element (some "reference") a nil))
          (l.runs around curr r p)
      ∙ visit-reference around (last_name_all curr l.children) a q r (with_more rs p) e
      ∙ ap (λ w. some (holding r w)) (with_more-append rs (q ∷ []) p);
}

module _ (x : Strophe) where
  open x use {
    Stanza, tree, new, set_name, set_attribute, add_child, tree-new, tree-set_name,
    tree-set_attribute, tree-add_child,
  }

  add_references-Lists :
      (st : Stanza) (done rs : List Reference) (end : Stanza)
      → Lists (tree st) done
      → add_references x st rs ≡ some end
      → Lists (tree end) (done ++ rs)
  add_references-Lists st done [] end l e =
      subst (λ s. Lists (tree s) (done ++ [])) (some-injective _ _ e)
        (subst (Lists (tree st)) (sym (append-nil done)) l)
  add_references-Lists st done (r ∷ rs) end l e =
      let (c, built, e1) = >>=-eq-some (reference_to_stanza x r) _ e in
      let (a, shape, same) = tree-reference x r c built in
      let next : Lists (tree (add_child st c)) (done ++ (r ∷ [])) =
        rw (tree-add_child st c, shape) (Lists-snoc (tree st) done a r l same) in
      subst (Lists (tree end)) (append_assoc done (r ∷ []) rs)
        (add_references-Lists (add_child st c) (done ++ (r ∷ [])) rs end next e1)

  list-Lists : Lists (tree (set_name new "references")) []
  list-Lists = record {
    attributes = λ _. none;
    children = nil;
    shape = rw (tree-set_name, tree-new);
    runs = λ around curr r p. ap (λ w. some (holding r w)) (nothing_more p);
  }

  -- The item has the list as its only child.
  pub tree-item :
      (rs : List Reference) (item : Stanza)
      → references_to_item x rs ≡ some item
      → (t : Tree) × (a : String → Option String) × Lists t rs
        × (tree item ≡ element (some "item") a (cons t nil))
  unfolding references_to_item
  tree-item rs item e =
      let (list, built, e1) = >>=-eq-some (add_references x (set_name new "references") rs) _ e in
      (
        tree list,
        overlay "id" (some "references") (λ _. none),
        add_references-Lists (set_name new "references") [] rs list list-Lists built,
        subst
            (λ s.
              tree s
              ≡ element (some "item") (overlay "id" (some "references") (λ _. none))
                  (cons (tree list) nil))
            (some-injective _ _ e1)
            (rw (tree-add_child, tree-set_attribute, tree-set_name, tree-new)),
      )
