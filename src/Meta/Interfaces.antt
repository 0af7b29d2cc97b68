-- ===== src/Meta/Interfaces.antt =====
-- Which meta data have an item: `mio_meta_to_item` of src/mio_meta.c prints the interface of a
-- transducer that has a manufacturer.
use libmio.Base.{
  ◌≡◌, refl, ap, ◌∙◌, ◌↔◌, String, Bool, true, not, ◌||◌, List, [], ◌∷◌, Option, none, some,
  is_some, ◌>>=◌, >>=-eq-some,
}
use libmio.Xml.{Strophe}
use libmio.Geoloc.{Doubles, Geoloc}
use libmio.Meta.{TransducerMeta, Meta}
use libmio.Meta.Item.{
  add_geoloc, add_manufacturer, transducer_to_stanza, add_transducers, meta_to_stanza,
  type_attribute, meta_to_item,
}
use libmio.Meta.Trees.Whole.{HaveNoLocation}

abbrev pub may_be_made : (manufacturer interface : Option String) → Bool
may_be_made m i = not (is_some m) || is_some i

-- A transducer with a manufacturer has an interface.
abbrev pub HaveInterfaces : {D : Type 0} → List (TransducerMeta D) → Type 0
HaveInterfaces [] = Unit
HaveInterfaces (t ∷ ts) = (may_be_made t.manufacturer t.interface ≡ true) × HaveInterfaces ts

bind-exists :
    {A B : Type 0} (m : Option A) (f : A → Option B) (a : A)
    → m ≡ some a
    → ((b : B) × (f a ≡ some b))
    → (b : B) × ((m >>= f) ≡ some b)
bind-exists m f a e (b, e') = (b, ap (λ o. o >>= f) e ∙ e')

module _ (x : Strophe) where
  open x use {Stanza, add_child}

  made :
      (m i : Option String) (s s' : Stanza)
      → add_manufacturer x m i s ≡ some s'
      → may_be_made m i ≡ true
  made none i s s' e = refl
  made (some v) none s s' e = absurd (cc)
  made (some v) (some w) s s' e = refl

  makes :
      (m i : Option String) (s : Stanza)
      → may_be_made m i ≡ true
      → (s' : Stanza) × (add_manufacturer x m i s ≡ some s')
  makes none i s h = (s, refl)
  makes (some v) none s h = absurd (cc)
  makes (some v) (some w) s h = (_, refl)

  module _ (d : Doubles) where
    open d use {Double}

    add_geoloc-none :
        (g : Option (Geoloc Double)) (s : Stanza) → g ≡ none → add_geoloc x d g s ≡ some s
    add_geoloc-none g s h = ap (λ o. add_geoloc x d o s) h

    transducers-made :
        (s s' : Stanza) (ts : List (TransducerMeta Double))
        → add_transducers x d s ts ≡ some s'
        → HaveInterfaces ts
    transducers-made s s' [] e = tt
    transducers-made s s' (t ∷ ts) e =
        let (c, built, e1) = >>=-eq-some (transducer_to_stanza x d t) _ e in
        let (_, _, e2) = >>=-eq-some (add_geoloc x d t.geoloc _) _ built in
        let (s3, by, _) = >>=-eq-some (add_manufacturer x t.manufacturer t.interface _) _ e2 in
        (made t.manufacturer t.interface _ s3 by, transducers-made (add_child s c) s' ts e1)

    transducer-makes :
        (t : TransducerMeta Double)
        → t.geoloc ≡ none
        → may_be_made t.manufacturer t.interface ≡ true
        → (s : Stanza) × (transducer_to_stanza x d t ≡ some s)
    transducer-makes t h m =
        bind-exists (add_geoloc x d t.geoloc _) _ _ (add_geoloc-none t.geoloc _ h) (
          let (s3, by) = makes t.manufacturer t.interface _ m in
          bind-exists (add_manufacturer x t.manufacturer t.interface _) _ s3 by (_, refl))

    transducers-make :
        (s : Stanza) (ts : List (TransducerMeta Double))
        → HaveNoLocation ts
        → HaveInterfaces ts
        → (s' : Stanza) × (add_transducers x d s ts ≡ some s')
    transducers-make s [] h m = (s, refl)
    transducers-make s (t ∷ ts) (h, hs) (m, ms) =
        let (c, built) = transducer-makes t h m in
        let (s', rest) = transducers-make (add_child s c) ts hs ms in (s', rw built rest)

    -- Meta data without locations have an item exactly if their type is that of a device or a
    -- location, and every transducer that has a manufacturer has an interface.
    pub meta_to_item-HaveInterfaces :
        (m : Meta Double)
        → m.geoloc ≡ none
        → HaveNoLocation m.transducers
        → ((item : Stanza) × (meta_to_item x d m ≡ some (some item)))
          ↔ ((is_some (type_attribute m.meta_type) ≡ true) × HaveInterfaces m.transducers)
    unfolding meta_to_item
    meta_to_item-HaveInterfaces m h hs = both (type_attribute m.meta_type)
      where
        both :
            (o : Option String)
            → ((item : Stanza) × ((elim o [
              | none ↦ some none
              | some type ↦ do i ← meta_to_stanza x d m type; some (some i)
            ])
                  ≡ some (some item)))
              ↔ ((is_some o ≡ true) × HaveInterfaces m.transducers)
        both none = (λ (item, e). absurd (cc), λ (e, _). absurd (cc))
        both (some type) = (
          λ (item, e).
              let (i, built, _) = >>=-eq-some (meta_to_stanza x d m type) _ e in
              let (_, _, e1) = >>=-eq-some (add_geoloc x d m.geoloc _) _ built in
              let (s, listed, _) = >>=-eq-some (add_transducers x d _ m.transducers) _ e1 in
              (refl, transducers-made _ s m.transducers listed),
          λ (_, made_all).
              let (i, built) =
                bind-exists (add_geoloc x d m.geoloc _) _ _ (add_geoloc-none m.geoloc _ h) (
                  let (s, listed) = transducers-make _ m.transducers hs made_all in
                  bind-exists (add_transducers x d _ m.transducers) _ s listed (_, refl)) in
              (i, ap (λ o. o >>= λ j. some (some j)) built),
        )
