-- ===== src/Meta/Trees/Whole.antt =====
-- The tree of the item that `mio_meta_to_item` of src/mio_meta.c builds.
use mathlib.Core.Option.{some-injective}
use libmio.Base.{
  ◌≡◌, refl, ap, sym, ◌∙◌, String, List, [], ◌∷◌, Option, none, some, ◌>>=◌, >>=-eq-some,
}
use libmio.Xml.{Strophe, Tree, Forest, element, nil, cons, snoc}
use libmio.Geoloc.{Doubles}
use libmio.Meta.{Property, TransducerMeta, Meta}
use libmio.Meta.Item.{
  add_property, add_meta_properties, add_geoloc, transducer_to_stanza, add_transducers,
  meta_to_stanza, type_attribute, meta_to_item,
}
use libmio.Meta.Trees.{property_tree, transducer_tree, tree-transducer, no_geoloc}
use libmio.Reference.{attribute_if_set}
use libmio.Reference.Attributes.{overlay, tree-attribute_if_set}

abbrev pub snoc_property : Forest → (name value : Option String) → Forest
snoc_property f (some n) (some v) =
    snoc f (property_tree (record { name = some n; value = some v }))
snoc_property f _ _ = f

abbrev pub snoc_meta_properties : Forest → List Property → Forest
snoc_meta_properties f [] = f
snoc_meta_properties f (p ∷ ps) = snoc_meta_properties (snoc_property f p.name p.value) ps

module _ {D : Type 0} where
  abbrev pub snoc_transducers : Forest → List (TransducerMeta D) → Forest
  snoc_transducers f [] = f
  snoc_transducers f (t ∷ ts) = snoc_transducers (snoc f (transducer_tree t)) ts

  abbrev pub HaveNoLocation : List (TransducerMeta D) → Type 0
  HaveNoLocation [] = Unit
  HaveNoLocation (t ∷ ts) = (t.geoloc ≡ none) × HaveNoLocation ts

  abbrev pub meta_attributes : Meta D → (type : String) → String → Option String
  meta_attributes m type = overlay "name" m.name (
      overlay "info" m.info (
        overlay "timestamp" m.timestamp (
          overlay "type" (some type)
            (overlay "xmlns" (some "http://jabber.org/protocol/mio") (λ _. none)))))

  abbrev pub meta_tree : Meta D → (type : String) → Tree
  meta_tree m type =
      element (some "meta") (meta_attributes m type)
        (snoc_meta_properties (snoc_transducers nil m.transducers) m.properties)

abbrev pub meta_item_tree : Tree → Tree
meta_item_tree t = element (some "item") (overlay "id" (some "meta") (λ _. none)) (cons t nil)

module _ (x : Strophe) where
  open x use {
    Stanza, tree, new, set_name, set_attribute, add_child, tree-new, tree-set_name,
    tree-set_attribute, tree-add_child,
  }

  tree-add_property :
      (s : Stanza) (name value : Option String) (n : String) (a : String → Option String)
      (f : Forest)
      → tree s ≡ element (some n) a f
      → tree (add_property x s name value) ≡ element (some n) a (snoc_property f name value)
  tree-add_property s none value n a f h = h
  tree-add_property s (some k) none n a f h = h
  tree-add_property s (some k) (some v) n a f h =
      rw (tree-add_child, h, tree-set_attribute, tree-set_attribute, tree-set_name, tree-new)

  tree-add_meta_properties :
      (s : Stanza) (ps : List Property) (n : String) (a : String → Option String) (f : Forest)
      → tree s ≡ element (some n) a f
      → tree (add_meta_properties x s ps) ≡ element (some n) a (snoc_meta_properties f ps)
  tree-add_meta_properties s [] n a f h = h
  tree-add_meta_properties s (p ∷ ps) n a f h =
      tree-add_meta_properties (add_property x s p.name p.value) ps n a
        (snoc_property f p.name p.value) (tree-add_property s p.name p.value n a f h)

  module _ (d : Doubles) where
    open d use {Double}

    tree-add_transducers :
        (s s' : Stanza) (ts : List (TransducerMeta Double)) (n : String)
        (a : String → Option String) (f : Forest)
        → HaveNoLocation ts
        → tree s ≡ element (some n) a f
        → add_transducers x d s ts ≡ some s'
        → tree s' ≡ element (some n) a (snoc_transducers f ts)
    tree-add_transducers s s' [] n a f unlocated h e = ap tree (sym (some-injective _ _ e)) ∙ h
    tree-add_transducers s s' (t ∷ ts) n a f (none_here, unlocated) h e =
        let (c, built, e1) = >>=-eq-some (transducer_to_stanza x d t) _ e in
        tree-add_transducers (add_child s c) s' ts n a (snoc f (transducer_tree t)) unlocated
          (rw (tree-add_child, h, tree-transducer x d t c none_here built)) e1

    tree-meta :
        (m : Meta Double) (type : String) (item : Stanza)
        → m.geoloc ≡ none
        → HaveNoLocation m.transducers
        → meta_to_stanza x d m type ≡ some item
        → tree item ≡ meta_item_tree (meta_tree m type)
    tree-meta m type item none_here unlocated e =
        let s0 =
          set_attribute
            (set_attribute (set_name new "meta") "xmlns" "http://jabber.org/protocol/mio") "type"
            type in
        let s1 = attribute_if_set x "timestamp" m.timestamp s0 in
        let (s2, located, e2) =
          >>=-eq-some (add_geoloc x d m.geoloc (attribute_if_set x "info" m.info s1)) _ e in
        let (s3, listed, e3) =
          >>=-eq-some (add_transducers x d (attribute_if_set x "name" m.name s2) m.transducers) _
            e2 in
        let begun : tree s0
            ≡ element (some "meta")
                (overlay "type" (some type)
                  (overlay "xmlns" (some "http://jabber.org/protocol/mio") (λ _. none)))
                nil =
          rw (tree-set_attribute, tree-set_attribute, tree-set_name, tree-new) in
        let described =
          tree-attribute_if_set x "info" m.info s1 "meta" _ nil
            (tree-attribute_if_set x "timestamp" m.timestamp s0 "meta" _ nil begun) in
        let named =
          tree-attribute_if_set x "name" m.name s2 "meta" _ nil
            (ap tree (sym (no_geoloc x d m.geoloc _ s2 none_here located)) ∙ described) in
        let filled =
          tree-add_meta_properties s3 m.properties "meta" _ _
            (tree-add_transducers _ s3 m.transducers "meta" _ nil unlocated named listed) in
        ap tree (sym (some-injective _ _ e3))
        ∙ rw (tree-add_child, tree-set_attribute, tree-set_name, tree-new, filled)

    -- The item of meta data without locations, and the name of their type.
    pub tree-meta_to_item :
        (m : Meta Double) (item : Stanza)
        → m.geoloc ≡ none
        → HaveNoLocation m.transducers
        → meta_to_item x d m ≡ some (some item)
        → (type : String) × (type_attribute m.meta_type ≡ some type)
          × (tree item ≡ meta_item_tree (meta_tree m type))
    unfolding meta_to_item
    tree-meta_to_item m item none_here unlocated e = named (type_attribute m.meta_type) refl e
      where
        named :
            (o : Option String)
            → type_attribute m.meta_type ≡ o
            → (elim o [
              | none ↦ some none
              | some type ↦ do i ← meta_to_stanza x d m type; some (some i)
            ])
              ≡ some (some item)
            → (type : String) × (type_attribute m.meta_type ≡ some type)
              × (tree item ≡ meta_item_tree (meta_tree m type))
        named none h e' = absurd (cc)
        named (some type) h e' =
            let (i, built, e1) = >>=-eq-some (meta_to_stanza x d m type) _ e' in
            (
              type,
              h,
              ap tree (sym (some-injective _ _ (some-injective _ _ e1)))
                  ∙ tree-meta m type i none_here unlocated built,
            )
