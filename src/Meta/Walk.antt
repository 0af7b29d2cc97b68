-- ===== src/Meta/Walk.antt =====
-- The walk of the reader over the item of meta data.
use libmio.Handlers.{open_name, ElementName}
use mathlib.Core.List.{append-nil, append_assoc}
use libmio.Base.{
  ◌≡◌, refl, ap, sym, ◌∙◌, String, false, List, [], ◌∷◌, ◌++◌, map, Option, none, some, ◌>>=◌,
  add_last, add_last-append, update_last-append,
}
use libmio.Xml.{Tree, Forest, nil, snoc}
use libmio.Response.{Response, Packet, packet}
use libmio.Geoloc.{Doubles}
use libmio.Meta.{EnumMap, Property, TransducerMeta, Meta, enum_map_meta_add, transducer_meta_add}
use libmio.Meta.Reading.{Pointer, object, the_transducer, MetaReading, is_unknown}
use libmio.Meta.Callbacks.{visitor}
use libmio.Meta.Trees.{
  map_tree, property_tree, snoc_maps, snoc_properties, transducer_tree, said, received_map-pair,
  received_property-pair, received_transducer-said,
}
use libmio.Meta.Trees.Whole.{snoc_property, snoc_meta_properties, snoc_transducers}
use libmio.Handlers.Visit.{visit, visit_all, last_name_all}
use libmio.Handlers.Snoc.{visit_all-snoc}

abbrev pub add_all : {A : Type 0} → List A → List A → List A
add_all xs [] = xs
add_all xs (y ∷ ys) = add_all (add_last xs y) ys

add_all-append : {A : Type 0} (xs ys : List A) → add_all xs ys ≡ xs ++ ys
add_all-append xs [] = sym (append-nil xs)
add_all-append xs (y ∷ ys) =
    add_all-append (add_last xs y) ys
    ∙ ap (λ l. l ++ ys) (add_last-append xs y)
    ∙ append_assoc xs (y ∷ []) ys

pub add_all-nil : {A : Type 0} (ys : List A) → add_all [] ys ≡ ys
add_all-nil ys = add_all-append [] ys

add_all-add_all :
    {A : Type 0} (xs ys zs : List A) → add_all (add_all xs ys) zs ≡ add_all xs (ys ++ zs)
add_all-add_all xs [] zs = refl
add_all-add_all xs (y ∷ ys) zs = add_all-add_all (add_last xs y) ys zs

-- A transducer as it arrives: without its info, which is not printed, and without a location.
abbrev pub arrived : {D : Type 0} → TransducerMeta D → TransducerMeta D
arrived t = record t { info = none; geoloc = none }

-- The properties of meta data that have a name and a value.
abbrev pub if_full : (name value : Option String) → List Property
if_full (some n) (some v) = record { name = some n; value = some v } ∷ []
if_full _ _ = []

abbrev pub full_properties : List Property → List Property
full_properties [] = []
full_properties (p ∷ ps) = if_full p.name p.value ++ full_properties ps

-- The pointer, behind transducers.
abbrev pub behind_transducers : {D : Type 0} → List (TransducerMeta D) → Pointer → Pointer
behind_transducers [] pointer = pointer
behind_transducers (_ ∷ ts) pointer = behind_transducers ts (object the_transducer)

module _ (d : Doubles) where
  open d use {Double}

  -- Texts are not handled here.
  abbrev pub on :
      Response (Option (Meta Double))
      → Packet (Option (Meta Double))
      → Meta Double
      → Pointer
      → MetaReading Double
  on r p m pointer = record {
    response = record r { response = packet (record p { payload = some m }) };
    payload = pointer;
    texts = false;
  }

  abbrev with_last :
      Meta Double → List (TransducerMeta Double) → TransducerMeta Double → Meta Double
  with_last m ts t = record m { transducers = ts ++ (t ∷ []) }

  module _ (r : Response (Option (Meta Double))) (p : Packet (Option (Meta Double))) where
    -- A child behind others.
    visit-snoc :
        (s s' s'' : MetaReading Double) (around : Option String) (curr : ElementName) (f : Forest)
        (t : Tree)
        → visit_all (visitor d) around curr f s ≡ some s'
        → ((before : ElementName) → visit (visitor d) around before t s' ≡ some s'')
        → visit_all (visitor d) around curr (snoc f t) s ≡ some s''
    visit-snoc s s' s'' around curr f t done next =
        visit_all-snoc (visitor d) around curr f t s
        ∙ ap (λ m. m >>= visit (visitor d) around (last_name_all curr f) t) done
        ∙ next (last_name_all curr f)

    visit-maps :
        (s : MetaReading Double) (m : Meta Double) (pointer : Pointer)
        (ts : List (TransducerMeta Double)) (t : TransducerMeta Double) (es : List EnumMap)
        (around : Option String) (curr : ElementName) (f : Forest)
        → visit_all (visitor d) around curr f s ≡ some (on r p (with_last m ts t) pointer)
        → visit_all (visitor d) around curr (snoc_maps f es) s
          ≡ some (
              on r p (with_last m ts (record t { enumeration = add_all t.enumeration es })) pointer)
    visit-maps s m pointer ts t [] around curr f h = h
    visit-maps s m pointer ts t (e ∷ es) around curr f h =
        visit-maps s m pointer ts (enum_map_meta_add t e) es around curr (snoc f (map_tree e)) (
          visit-snoc s _ _ around curr f (map_tree e) h λ before. rw (
            received_map-pair e,
            update_last-append (λ u. some (enum_map_meta_add u e)) ts t (enum_map_meta_add t e)
                refl,
          ))

    visit-properties :
        (s : MetaReading Double) (m : Meta Double) (ts : List (TransducerMeta Double))
        (t : TransducerMeta Double) (ps : List Property) (curr : ElementName) (f : Forest)
        → visit_all (visitor d) (some "transducer") curr f s
          ≡ some (on r p (with_last m ts t) (object the_transducer))
        → visit_all (visitor d) (some "transducer") curr (snoc_properties f ps) s
          ≡ some (
              on r p
                (with_last m ts (record t { properties = add_all t.properties ps }))
                (object the_transducer))
    visit-properties s m ts t [] curr f h = h
    visit-properties s m ts t (q ∷ ps) curr f h =
        let more : TransducerMeta Double = record t { properties = add_last t.properties q } in
        visit-properties s m ts more ps curr (snoc f (property_tree q)) (
          visit-snoc s _ _ (some "transducer") curr f (property_tree q) h λ before. rw (
            received_property-pair q,
            update_last-append (λ u. some (record u { properties = add_last u.properties q })) ts t
                more refl,
          ))

    visit-transducer :
        (m : Meta Double) (pointer : Pointer) (t : TransducerMeta Double) (before : ElementName)
        → is_unknown m.meta_type ≡ false
        → visit (visitor d) (some "meta") before (transducer_tree t) (on r p m pointer)
          ≡ some (on r p (transducer_meta_add m (arrived t)) (object the_transducer))
    visit-transducer m pointer t before known =
        let all : TransducerMeta Double = record (said t) {
          enumeration = add_all [] t.enumeration;
          properties = add_all [] t.properties;
        } in
        let same : all ≡ arrived t = λ i. record (arrived t) {
          enumeration = add_all-append [] t.enumeration i;
          properties = add_all-append [] t.properties i;
        } in
        rw (known, received_transducer-said t, add_last-append m.transducers (said t))
          (visit-properties _ m m.transducers _ t.properties (open_name "transducer") _ (
            visit-maps _ m (object the_transducer) m.transducers (said t) t.enumeration
              (some "transducer") (open_name "transducer") nil refl))
        ∙ ap (λ l. some (on r p (record m { transducers = l }) (object the_transducer)))
            (sym (add_last-append m.transducers all) ∙ ap (add_last m.transducers) same)

    pub visit-transducers :
        (s : MetaReading Double) (m : Meta Double) (pointer : Pointer)
        (ts : List (TransducerMeta Double)) (curr : ElementName) (f : Forest)
        → is_unknown m.meta_type ≡ false
        → visit_all (visitor d) (some "meta") curr f s ≡ some (on r p m pointer)
        → visit_all (visitor d) (some "meta") curr (snoc_transducers f ts) s
          ≡ some (
              on r p
                (record m { transducers = add_all m.transducers (map arrived ts) })
                (behind_transducers ts pointer))
    visit-transducers s m pointer [] curr f known h = h
    visit-transducers s m pointer (t ∷ ts) curr f known h =
        visit-transducers s (transducer_meta_add m (arrived t)) (object the_transducer) ts curr
          (snoc f (transducer_tree t)) known
          (visit-snoc s _ _ (some "meta") curr f (transducer_tree t) h
            λ before. visit-transducer m pointer t before known)

    visit-meta_property :
        (s : MetaReading Double) (m : Meta Double) (pointer : Pointer) (name value : Option String)
        (curr : ElementName) (f : Forest)
        → visit_all (visitor d) (some "meta") curr f s ≡ some (on r p m pointer)
        → visit_all (visitor d) (some "meta") curr (snoc_property f name value) s
          ≡ some
              (on r p (record m { properties = add_all m.properties (if_full name value) }) pointer)
    visit-meta_property s m pointer none value curr f h = h
    visit-meta_property s m pointer (some k) none curr f h = h
    visit-meta_property s m pointer (some k) (some v) curr f h =
        let q : Property = record { name = some k; value = some v } in
        visit-snoc s _ _ (some "meta") curr f (property_tree q) h
          λ before. rw (received_property-pair q)

    pub visit-meta_properties :
        (s : MetaReading Double) (m : Meta Double) (pointer : Pointer) (ps : List Property)
        (curr : ElementName) (f : Forest)
        → visit_all (visitor d) (some "meta") curr f s ≡ some (on r p m pointer)
        → visit_all (visitor d) (some "meta") curr (snoc_meta_properties f ps) s
          ≡ some
              (on r p (record m { properties = add_all m.properties (full_properties ps) }) pointer)
    visit-meta_properties s m pointer [] curr f h = h
    visit-meta_properties s m pointer (q ∷ ps) curr f h =
        visit-meta_properties s
          (record m { properties = add_all m.properties (if_full q.name q.value) }) pointer ps curr
          (snoc_property f q.name q.value) (visit-meta_property s m pointer q.name q.value curr f h)
        ∙ ap (λ l. some (on r p (record m { properties = l }) pointer))
            (add_all-add_all m.properties (if_full q.name q.value) (full_properties ps))
