-- ===== src/Handlers/Fold.antt =====
-- Callbacks that look at the start tags alone: for the text of a tree, the place in the document
-- plays no part, and what they do is a fold over the start tags.
use libmio.Base.{
  ◌≡◌, refl, ap, sym, ◌∙◌, String, List, [], ◌∷◌, ◌++◌, Option, none, some, inl, inr, Option-cases,
  ◌>>=◌,
}
use mathlib.Core.Option.{some-injective}
use libmio.Response.{Code}
use libmio.Xml.{
  Attrs, Event, start, chars, stop, Tree, Forest, element, text, nil, cons, Reports, ReportsAll,
}
use libmio.Handlers.{
  unset, open_name, ElementName, XmlData, xml_parser_data_new, update_start, update_end,
  starts_only, complete, read, xml_parse,
}
use libmio.Handlers.Snoc.{>>=-some}
use libmio.Handlers.Visit.{
  Visitor, Agrees, visit, visit_all, last_name, xml_parse-visit, >>=-assoc, >>=-cong,
}

module _ {S : Type 0} (f : S → String → Attrs → Option S) where
  abbrev pub folded : List Event → S → Option S
  folded [] s = some s
  folded (start n a ∷ es) s = f s n a >>= folded es
  folded (chars t ∷ es) s = folded es s
  folded (stop n ∷ es) s = folded es s

  pub folded-append :
      (es ds : List Event) (s : S) → folded (es ++ ds) s ≡ (folded es s >>= folded ds)
  folded-append [] ds s = refl
  folded-append (start n a ∷ es) ds s =
      >>=-cong (f s n a) (folded-append es ds) ∙ sym (>>=-assoc (f s n a) (folded es) (folded ds))
  folded-append (chars t ∷ es) ds s = folded-append es ds s
  folded-append (stop n ∷ es) ds s = folded-append es ds s

-- Callbacks that do nothing.
abbrev nothing : Unit {0} → String → Attrs → Option (Unit {0})
nothing s n a = some s

abbrev idle : Visitor (Unit {0})
idle = record { enter = λ s _ _ _ _. some s; on_text = λ s _ _. some s }

nothing-idle : Agrees (starts_only nothing) idle
nothing-idle = record { plain = refl; at_start = λ _ _ _ _ _ _. refl; at_chars = λ _ _ _. refl }

mutual
  visit-idle :
      (t : Tree) (around : Option String) (curr : ElementName) (es : List Event)
      → Reports t es
      → visit idle around curr t tt ≡ some tt
  visit-idle (element none a f) around curr es h = absurd h
  visit-idle (element (some n) a f) around curr es (attrs, inner, once, same, all, e) =
      visit_all-idle f (some n) (open_name n) inner all
  visit-idle (text String.[]) around curr es h = refl
  visit-idle (text (String.◌∷◌ c v)) around curr es h = refl

  visit_all-idle :
      (f : Forest) (around : Option String) (curr : ElementName) (es : List Event)
      → ReportsAll f es
      → visit_all idle around curr f tt ≡ some tt
  visit_all-idle nil around curr es h = refl
  visit_all-idle (cons t f) around curr es (a, b, one, all, e) =
      rw (visit-idle t around curr a one) (visit_all-idle f around (last_name curr t) b all)

module _ {S : Type 0} (f : S → String → Attrs → Option S) where
  read-folded :
      (es : List Event) (x x' : XmlData) (s : S)
      → read (starts_only nothing) (x, tt) es ≡ some (x', tt)
      → read (starts_only f) (x, s) es ≡ (folded f es s >>= λ s'. some (x', s'))
  unfolding read
  read-folded [] x x' s e = ap (λ q. some (q.0, s)) (some-injective _ _ e)
  read-folded (start n a ∷ es) x x' s e = elim (Option-cases (update_start x n)) [
    | inl lost ↦ cc (rw lost at e)
    | inr (y, went) ↦
        let e' : read (starts_only nothing) (y, tt) es ≡ some (x', tt) = rw went at e in
        rw went (
          >>=-assoc (f s n a) _ _
          ∙ >>=-cong (f s n a) (λ s'. read-folded es y x' s' e')
          ∙ sym (>>=-assoc (f s n a) (folded f es) _))
  ]
  read-folded (chars t ∷ es) x x' s e = read-folded es x x' s e
  read-folded (stop n ∷ es) x x' s e = elim (Option-cases (update_end x)) [
    | inl lost ↦ cc (rw lost at e)
    | inr (y, went) ↦ rw went (read-folded es y x' s (rw went at e))
  ]

  -- The end of the place, and what the callbacks leave.
  pub xml_parse-folded :
      (t : Tree) (es : List Event) (s : S)
      → Reports t es
      → xml_parse (starts_only f) s (complete es) ≡ (folded f es s >>= λ s'. some (Code.ok, s'))
  unfolding xml_parse
  xml_parse-folded t es s reported =
      let idled : xml_parse (starts_only nothing) tt (complete es) ≡ some (Code.ok, tt) =
        xml_parse-visit (starts_only nothing) idle nothing-idle t es tt reported
        ∙ rw (visit-idle t none unset es reported) in
      elim (Option-cases (read (starts_only nothing) (xml_parser_data_new, tt) es)) [
        | inl lost ↦ cc (rw lost at idled)
        | inr ((x', u), went) ↦
            rw (read-folded es xml_parser_data_new x' s went) (>>=-assoc (folded f es s) _ _)
      ]

  -- An element and what it holds.
  pub folded-element :
      (n : String) (attrs : Attrs) (inner es : List Event) (s : S)
      → es ≡ start n attrs ∷ (inner ++ (stop n ∷ []))
      → folded f es s ≡ (f s n attrs >>= folded f inner)
  folded-element n attrs inner es s e =
      ap (λ l. folded f l s) e
      ∙ >>=-cong (f s n attrs)
          (λ s'. folded-append f inner (stop n ∷ []) s' ∙ >>=-some (folded f inner s') (λ _. refl))

  -- An element that only wraps another.
  pub folded-wrapped :
      (n : String) (a : String → Option String) (t : Tree) (es : List Event) (s s' : S)
      → ((attrs : Attrs) → f s n attrs ≡ some s')
      → Reports (element (some n) a (cons t nil)) es
      → (xs : List Event) × Reports t xs × (folded f es s ≡ folded f xs s')
  folded-wrapped n a t es s s' enters (attrs, inner, once, same, (xs, ys, one, empty, split), e) = (
    xs,
    one,
    folded-element n attrs inner es s e
        ∙ ap (λ m. m >>= folded f inner) (enters attrs)
        ∙ ap (λ l. folded f l s') split
        ∙ folded-append f xs ys s'
        ∙ ap (λ l. folded f xs s' >>= folded f l) empty
        ∙ >>=-some (folded f xs s') (λ _. refl),
  )
