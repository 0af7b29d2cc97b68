-- ===== src/Schedule/Recurrences.antt =====
-- The element of a recurrence, and what is read of it.
use mathlib.Core.Option.{some-injective}
use libmio.Base.{
  ◌≡◌, refl, ap, sym, subst, ◌∙◌, String, true, false, Option, none, some, >>=-eq-some,
}
use libmio.Xml.{Strophe, nil, with_child}
use libmio.Geoloc.{element_add_string, add_if_set}
use libmio.Schedule.{Recurrence, recurrence_new, recurrence_to_stanza, add_byday}
use libmio.Schedule.Walk.{
  put, put_chars, IsText, Fills, plain_element, IsPassed, Fills-plain_element,
}

-- A recurrence as it is printed: `byday` with the text of `bymonth`.
abbrev pub printed_byday : Option String → Option String → Option String
printed_byday none bymonth = none
printed_byday (some _) bymonth = bymonth

abbrev pub printed : Recurrence → Recurrence
printed r = record r { byday = printed_byday r.byday r.bymonth }

pub record AreTexts (r : Recurrence) : Type 0 where
  pub freq : IsText r.freq
  pub interval : IsText r.interval
  pub count : IsText r.count
  pub until : IsText r.until
  pub bymonth : IsText r.bymonth
  pub exdate : IsText r.exdate

put_other : (t old : Option String) → put false t old ≡ old
put_other none old = refl
put_other (some t) none = refl
put_other (some t) (some v) = refl

put_own : (t : Option String) → put true t none ≡ t
put_own none = refl
put_own (some t) = refl

put_all :
    (r : Recurrence)
    → put_chars "exdate" r.exdate (
        put_chars "byday" r.byday (
          put_chars "bymonth" r.bymonth (
            put_chars "until" r.until (
              put_chars "count" r.count
                (put_chars "interval" r.interval (put_chars "freq" r.freq recurrence_new))))))
      ≡ r
put_all r = simp (put_other, put_own)

module _ (x : Strophe) where
  open x use {
    Stanza, tree, new, set_name, set_text, add_child, tree-new, tree-set_name, tree-set_text,
    tree-add_child,
  }

  tree-element_add_string :
      (s : Stanza) (name v : String)
      → tree (element_add_string x s name v) ≡ with_child (plain_element name v) (tree s)
  unfolding element_add_string
  tree-element_add_string s name v =
      rw (tree-add_child, tree-add_child, tree-set_name, tree-new, tree-set_text)

  Fills-add_if_set :
      (s : Stanza) (q : Recurrence) (name : String) (o : Option String)
      → IsPassed name
      → IsText o
      → Fills (tree s) q
      → Fills (tree (add_if_set x name o s)) (put_chars name o q)
  Fills-add_if_set s q name none passed h f = f
  Fills-add_if_set s q name (some v) passed h f =
      subst (λ t. Fills t (put_chars name (some v) q)) (sym (tree-element_add_string s name v))
        (Fills-plain_element (tree s) q name v passed h f)

  Fills-new : Fills (tree (set_name new "recurrence")) recurrence_new
  Fills-new = record {
    attributes = λ _. none;
    children = nil;
    shape = rw (tree-set_name, tree-new);
    runs = λ _ _ _ _ _. refl;
  }

  add_byday-printed :
      (byday bymonth : Option String) (s : Stanza) {end : Stanza}
      → add_byday x byday bymonth s ≡ some end
      → add_if_set x "byday" (printed_byday byday bymonth) s ≡ end
  add_byday-printed none bymonth s e = some-injective _ _ e
  add_byday-printed (some d) none s e = cc
  add_byday-printed (some d) (some m) s e = some-injective _ _ e

  printed_byday-IsText :
      (byday bymonth : Option String) → IsText bymonth → IsText (printed_byday byday bymonth)
  printed_byday-IsText none bymonth h = tt
  printed_byday-IsText (some d) bymonth h = h

  pub Fills-recurrence_to_stanza :
      (r : Recurrence) (s : Stanza)
      → AreTexts r
      → recurrence_to_stanza x r ≡ some s
      → Fills (tree s) (printed r)
  Fills-recurrence_to_stanza r s h e =
      let f1 =
        Fills-add_if_set (set_name new "recurrence") recurrence_new "freq" r.freq
          (λ _ _ _ _ _ _. refl) h.freq Fills-new in
      let f2 = Fills-add_if_set _ _ "interval" r.interval (λ _ _ _ _ _ _. refl) h.interval f1 in
      let f3 = Fills-add_if_set _ _ "count" r.count (λ _ _ _ _ _ _. refl) h.count f2 in
      let f4 = Fills-add_if_set _ _ "until" r.until (λ _ _ _ _ _ _. refl) h.until f3 in
      let f5 = Fills-add_if_set _ _ "bymonth" r.bymonth (λ _ _ _ _ _ _. refl) h.bymonth f4 in
      let (s6, added, e1) = >>=-eq-some (add_byday x r.byday r.bymonth _) _ e in
      let f6 =
        Fills-add_if_set _ _ "byday" (printed_byday r.byday r.bymonth) (λ _ _ _ _ _ _. refl)
          (printed_byday-IsText r.byday r.bymonth h.bymonth) f5 in
      let f7 = Fills-add_if_set _ _ "exdate" r.exdate (λ _ _ _ _ _ _. refl) h.exdate f6 in
      let done =
        ap (add_if_set x "exdate" r.exdate) (add_byday-printed r.byday r.bymonth _ added)
        ∙ some-injective _ _ e1 in
      subst (λ z. Fills (tree z) (printed r)) done (subst (Fills (tree _)) (put_all (printed r)) f7)
