-- ===== src/Meta/Trees.antt =====
-- The trees of the stanzas that `mio_meta_to_item` of src/mio_meta.c builds.
pub mod Whole
use mathlib.Core.Option.{some-injective}
use libmio.Base.{
  ◌≡◌, refl, ap, sym, subst, ◌∙◌, String, List, [], ◌∷◌, Option, none, some, or_keep, ◌>>=◌,
  >>=-eq-some, if◌then◌else◌, str_eq,
}
use libmio.Xml.{Strophe, Tree, Forest, element, nil, cons, snoc}
use libmio.Xml.Scan.{apply_to}
use libmio.Geoloc.{Doubles, Geoloc}
use libmio.Meta.{EnumMap, Property, TransducerMeta, Meta}
use libmio.Meta.Item.{
  enum_map_to_stanza, add_enum_maps, property_to_stanza, add_properties, add_property,
  add_meta_properties, add_manufacturer, add_geoloc, transducer_to_stanza, add_transducers,
  meta_to_stanza, type_attribute, meta_to_item,
}
use libmio.Meta.Callbacks.{
  set_text, received_meta, received_transducer, received_map, received_property,
}
use libmio.Reference.{attribute_if_set}
use libmio.Reference.Attributes.{overlay, overlay_lem, tree-attribute_if_set}

-- A name and a value, as attributes.
abbrev pub pair_attributes : (name value : Option String) → String → Option String
pair_attributes name value = overlay "value" value (overlay "name" name (λ _. none))

abbrev pub map_tree : EnumMap → Tree
map_tree e = element (some "map") (pair_attributes e.name e.value) nil

abbrev pub property_tree : Property → Tree
property_tree p = element (some "property") (pair_attributes p.name p.value) nil

-- Children added to others.
abbrev pub snoc_maps : Forest → List EnumMap → Forest
snoc_maps f [] = f
snoc_maps f (e ∷ es) = snoc_maps (snoc f (map_tree e)) es

abbrev pub snoc_properties : Forest → List Property → Forest
snoc_properties f [] = f
snoc_properties f (p ∷ ps) = snoc_properties (snoc f (property_tree p)) ps

-- The attributes for the manufacturer, which is set twice.
abbrev pub first_manufacturer : (manufacturer interface : Option String) → Option String
first_manufacturer none interface = none
first_manufacturer (some _) interface = interface

abbrev pub manufactured :
    (manufacturer interface : Option String) → (String → Option String) → String → Option String
manufactured m i a = overlay "manufacturer" m (overlay "manufacturer" (first_manufacturer m i) a)

pub or_keep-none : (o : Option String) → or_keep o none ≡ o
or_keep-none none = refl
or_keep-none (some v) = refl

pub set_text-none : (o : Option String) → set_text none o ≡ o
set_text-none none = refl
set_text-none (some v) = refl

or_keep_first : (m i : Option String) → or_keep m (first_manufacturer m i) ≡ m
or_keep_first none i = refl
or_keep_first (some v) i = refl

module _ {D : Type 0} where
  abbrev pub transducer_attributes : TransducerMeta D → String → Option String
  transducer_attributes t = overlay "unit" t.unit (
      overlay "type" t.type (
        overlay "serial" t.serial (
          overlay "resolution" t.resolution (
            overlay "precision" t.precision (
              overlay "name" t.name (
                overlay "minValue" t.min_value (
                  overlay "maxValue" t.max_value (
                    manufactured t.manufacturer t.interface (
                      overlay "interface" t.interface
                        (overlay "accuracy" t.accuracy (λ _. none)))))))))))

  abbrev pub transducer_tree : TransducerMeta D → Tree
  transducer_tree t =
      element (some "transducer") (transducer_attributes t)
        (snoc_properties (snoc_maps nil t.enumeration) t.properties)

  -- What the element of a transducer says, but for its children.
  abbrev pub said : TransducerMeta D → TransducerMeta D
  said t = record t { info = none; enumeration = []; geoloc = none; properties = [] }

  pub received_transducer-said :
      (t : TransducerMeta D) → received_transducer (transducer_attributes t) ≡ said t
  received_transducer-said t = simp (overlay_lem, or_keep-none, set_text-none, or_keep_first)

pub received_map-pair : (e : EnumMap) → received_map (pair_attributes e.name e.value) ≡ e
received_map-pair e = simp (overlay_lem, or_keep-none, set_text-none)

pub received_property-pair : (p : Property) → received_property (pair_attributes p.name p.value) ≡ p
received_property-pair p = simp (overlay_lem, or_keep-none, set_text-none)

module _ (x : Strophe) where
  open x use {
    Stanza, tree, new, set_name, set_attribute, add_child, tree-new, tree-set_name,
    tree-set_attribute, tree-add_child,
  }

  pub tree-pair :
      (n : String) (name value : Option String)
      → tree (attribute_if_set x "value" value (attribute_if_set x "name" name (set_name new n)))
        ≡ element (some n) (pair_attributes name value) nil
  tree-pair n name value =
      tree-attribute_if_set x "value" value _ n _ nil
        (tree-attribute_if_set x "name" name _ n _ nil (rw (tree-set_name, tree-new)))

  tree-add_enum_maps :
      (s : Stanza) (es : List EnumMap) (n : String) (a : String → Option String) (f : Forest)
      → tree s ≡ element (some n) a f
      → tree (add_enum_maps x s es) ≡ element (some n) a (snoc_maps f es)
  tree-add_enum_maps s [] n a f h = h
  tree-add_enum_maps s (e ∷ es) n a f h =
      tree-add_enum_maps (add_child s (enum_map_to_stanza x e)) es n a (snoc f (map_tree e))
        (rw (tree-add_child, h, tree-pair "map" e.name e.value))

  tree-add_properties :
      (s : Stanza) (ps : List Property) (n : String) (a : String → Option String) (f : Forest)
      → tree s ≡ element (some n) a f
      → tree (add_properties x s ps) ≡ element (some n) a (snoc_properties f ps)
  tree-add_properties s [] n a f h = h
  tree-add_properties s (p ∷ ps) n a f h =
      tree-add_properties (add_child s (property_to_stanza x p)) ps n a (snoc f (property_tree p))
        (rw (tree-add_child, h, tree-pair "property" p.name p.value))

  tree-add_manufacturer :
      (m i : Option String) (s s' : Stanza) (n : String) (a : String → Option String) (f : Forest)
      → tree s ≡ element (some n) a f
      → add_manufacturer x m i s ≡ some s'
      → tree s' ≡ element (some n) (manufactured m i a) f
  tree-add_manufacturer none i s s' n a f h e = ap tree (sym (some-injective _ _ e)) ∙ h
  tree-add_manufacturer (some v) none s s' n a f h e = cc
  tree-add_manufacturer (some v) (some w) s s' n a f h e =
      ap tree (sym (some-injective _ _ e)) ∙ rw (tree-set_attribute, tree-set_attribute, h)

  module _ (d : Doubles) where
    open d use {Double}

    -- Without a location nothing is added.
    pub no_geoloc :
        (g : Option (Geoloc Double)) (s s' : Stanza)
        → g ≡ none
        → add_geoloc x d g s ≡ some s'
        → s ≡ s'
    no_geoloc g s s' h e = some-injective _ _ (ap (λ o. add_geoloc x d o s) (sym h) ∙ e)

    pub tree-transducer :
        (t : TransducerMeta Double) (s : Stanza)
        → t.geoloc ≡ none
        → transducer_to_stanza x d t ≡ some s
        → tree s ≡ transducer_tree t
    tree-transducer t s h e =
        let s0 = attribute_if_set x "accuracy" t.accuracy (set_name new "transducer") in
        let (s1, located, e1) = >>=-eq-some (add_geoloc x d t.geoloc s0) _ e in
        let (s3, made, e3) =
          >>=-eq-some
            (add_manufacturer x t.manufacturer t.interface
              (attribute_if_set x "interface" t.interface s1))
            _ e1 in
        let begun : tree s0
            ≡ element (some "transducer") (overlay "accuracy" t.accuracy (λ _. none)) nil =
          tree-attribute_if_set x "accuracy" t.accuracy _ "transducer" _ nil
            (rw (tree-set_name, tree-new)) in
        let joined =
          tree-attribute_if_set x "interface" t.interface s1 "transducer" _ nil
            (ap tree (sym (no_geoloc t.geoloc s0 s1 h located)) ∙ begun) in
        let by =
          tree-add_manufacturer t.manufacturer t.interface _ s3 "transducer" _ nil joined made in
        let next =
          λ (k : String) (o : Option String) (c : Stanza) (a : String → Option String)
              (same : tree c ≡ element (some "transducer") a nil).
            tree-attribute_if_set x k o c "transducer" a nil same in
        ap tree (sym (some-injective _ _ e3))
        ∙ tree-add_properties _ t.properties "transducer" _ _ (
            tree-add_enum_maps _ t.enumeration "transducer" _ nil (
              next "unit" t.unit _ _ (
                next "type" t.type _ _ (
                  next "serial" t.serial _ _ (
                    next "resolution" t.resolution _ _ (
                      next "precision" t.precision _ _ (
                        next "name" t.name _ _ (
                          next "minValue" t.min_value _ _
                            (next "maxValue" t.max_value _ _ by)))))))))
