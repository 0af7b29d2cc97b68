-- ===== src/Parser/Trees.antt =====
-- What src/mio_handlers.c parses of the text of a tree.
use mathlib.Core.Path.{fun_ext}
use libmio.Base.{
  true, false, ℕ, zero, suc, ◌+◌, ◌≡◌, refl, ap, sym, ◌∙◌, String, List, [], ◌∷◌, ◌++◌, Option,
  none, some, arith, inl, inr, str_eq, Bool-cases, or_keep, if◌then◌else◌, ◌>>=◌,
}
use libmio.Xml.Laws.{join, join-nil, join_assoc, snoc-join}
use libmio.Xml.{
  Strophe, Attrs, attribute, Event, start, chars, stop, Tree, Forest, element, text, nil, cons,
  with_name, with_child, Reports, ReportsAll,
}
use libmio.Handlers.Visit.{>>=-assoc, >>=-cong}
use libmio.Parser.{Parser, parser_new, set_attributes, callbacks, callback, parse}

-- What is kept of a tree within as many elements and one more: no empty text, and no text that
-- stands in the outermost element.
abbrev mutual
  pub kept : ℕ → Tree → Forest
  kept k (element n a f) = cons (element n a (kept_all (suc k) f)) nil
  kept zero (text v) = nil
  kept (suc k) (text String.[]) = nil
  kept (suc k) (text (String.◌∷◌ c v)) = cons (text (String.◌∷◌ c v)) nil

  pub kept_all : ℕ → Forest → Forest
  kept_all k nil = nil
  kept_all k (cons t f) = join (kept k t) (kept_all k f)

-- The value of an attribute, given those that are set later.
abbrev later : Attrs → (String → Option String) → String → Option String
later attrs b k = or_keep (attribute k attrs) (b k)

later-none : (attrs : Attrs) (j : String) → later attrs (λ _. none) j ≡ attribute j attrs
later-none attrs j = elim (attribute j attrs) as (λ o. or_keep o none ≡ o) [
  | none ↦ refl
  | some w ↦ refl
]

-- One attribute earlier.
later-cons :
    (k v : String) (r : Attrs) (b : String → Option String) (j : String)
    → later r (λ i. if str_eq k i then some v else b i) j ≡ later ((k, v) ∷ r) b j
later-cons k v r b j =
    elim (attribute j r)
      as (λ o.
        or_keep o (if str_eq k j then some v else b j)
        ≡ or_keep (elim o [ some w ↦ some w | none ↦ if str_eq k j then some v else none ]) (b j)) [
          | some w ↦ refl
          | none ↦ elim (Bool-cases (str_eq k j)) [ inl hit ↦ rw hit | inr miss ↦ rw miss ]
        ]

module _ (x : Strophe) where
  open x use {Stanza, tree, new, set_name, set_attribute, set_text, add_child}

  -- A stanza with this tree.
  abbrev Is : Stanza → String → (String → Option String) → Forest → Type 0
  Is s n a f = tree s ≡ element (some n) a f

  set_attributes-tree :
      (attrs : Attrs) (s : Stanza) (n : String) (b : String → Option String) (f : Forest)
      → Is s n b f
      → Is (set_attributes x s attrs) n (later attrs b) f
  set_attributes-tree [] s n b f e = e
  set_attributes-tree ((k, v) ∷ r) s n b f e =
      set_attributes-tree r (set_attribute s k v) n (λ j. if str_eq k j then some v else b j) f
        (x.tree-set_attribute s k v ∙ rw e)
      ∙ ap (λ a. element (some n) a f) (fun_ext (later-cons k v r b))

  opened-Is :
      (m : String) (attrs : Attrs) (b : String → Option String)
      → ((k : String) → attribute k attrs ≡ b k)
      → Is (set_attributes x (set_name new m) attrs) m b nil
  opened-Is m attrs b same =
      set_attributes-tree attrs (set_name new m) m (λ _. none) nil
        (x.tree-set_name new m ∙ ap (with_name m) x.tree-new)
      ∙ ap (λ c. element (some m) c nil) (fun_ext λ j. later-none attrs j ∙ same j)

  callbacks-append :
      (es ds : List Event) (p : Parser Stanza)
      → callbacks x p (es ++ ds) ≡ (callbacks x p es >>= λ q. callbacks x q ds)
  callbacks-append [] ds p = refl
  callbacks-append (e ∷ es) ds p =
      >>=-cong (callback x p e) (callbacks-append es ds)
      ∙ sym (>>=-assoc (callback x p e) (λ q. callbacks x q es) (λ q. callbacks x q ds))

  -- The parser within an element.
  abbrev at : Stanza → List Stanza → ℕ → Parser Stanza
  at s parents k = record {
    stanza = some (record { current = s; parents = parents });
    depth = suc k;
    ended = false;
  }

  start-at :
      (s : Stanza) (parents : List Stanza) (k : ℕ) (m : String) (attrs : Attrs)
      → callback x (at s parents k) (start m attrs)
        ≡ some (at (set_attributes x (set_name new m) attrs) (s ∷ parents) (suc k))
  start-at s parents k m attrs =
      let deeper : suc k + 1 ≡ suc (suc k) = omega arith in
      ap
        (λ d. some (record {
          stanza =
              some (record {
                current = set_attributes x (set_name new m) attrs;
                parents = s ∷ parents;
              });
          depth = d;
          ended = false;
        }))
        deeper

  stop-at :
      (c s : Stanza) (parents : List Stanza) (k : ℕ) (m : String)
      → callback x (at c (s ∷ parents) (suc k)) (stop m) ≡ some (at (add_child s c) parents k)
  stop-at c s parents k m = ground arith

  chars-at :
      (s : Stanza) (parents : List Stanza) (k : ℕ) (v : String)
      → callback x (at s parents (suc k)) (chars v)
        ≡ some (at (add_child s (set_text new v)) parents (suc k))
  chars-at s parents k v = ground arith

  text_at_top :
      (v : String) (es : List Event) (s : Stanza) (parents : List Stanza)
      → Reports (text v) es
      → callbacks x (at s parents zero) es ≡ some (at s parents zero)
  text_at_top String.[] es s parents e = ap (callbacks x (at s parents zero)) e
  text_at_top (String.◌∷◌ c v) es s parents e = ap (callbacks x (at s parents zero)) e

  -- Callbacks that leave a stanza with more in it.
  record Adds (es : List Event) (s : Stanza) (parents : List Stanza) (k : ℕ) (n : String)
      (a : String → Option String) (f : Forest) : Type 0 where
    made : Stanza
    runs : callbacks x (at s parents k) es ≡ some (at made parents k)
    shape : Is made n a f

  mutual
    tree-Adds :
        (t : Tree) (es : List Event) (s : Stanza) (parents : List Stanza) (k : ℕ) (n : String)
        (a : String → Option String) (f : Forest)
        → Reports t es
        → Is s n a f
        → Adds es s parents k n a (join f (kept k t))
    tree-Adds (element none b g) es s parents k n a f reported is = absurd reported
    tree-Adds (element (some m) b g) es s parents k n a f (attrs, inner, once, same, all, e) is =
        let opened = opened-Is m attrs b same in
        let deep =
          forest-Adds g inner (set_attributes x (set_name new m) attrs) (s ∷ parents) (suc k) m b
            nil all opened in
        record {
          made = add_child s deep.made;
          runs =
              ap (callbacks x (at s parents k)) e
              ∙ ap (λ o. o >>= λ q. callbacks x q (inner ++ (stop m ∷ [])))
                  (start-at s parents k m attrs)
              ∙ callbacks-append inner (stop m ∷ [])
                  (at (set_attributes x (set_name new m) attrs) (s ∷ parents) (suc k))
              ∙ ap (λ o. o >>= λ q. callbacks x q (stop m ∷ [])) deep.runs
              ∙ ap (λ o. o >>= λ q. some q) (stop-at deep.made s parents k m);
          shape =
              x.tree-add_child s deep.made
              ∙ (λ i. with_child (deep.shape i) (is i))
              ∙ ap (element (some n) a) (snoc-join f _);
        }
    tree-Adds (text v) es s parents zero n a f reported is = record {
      made = s;
      runs = text_at_top v es s parents reported;
      shape = is ∙ ap (element (some n) a) (sym (join-nil f));
    }
    tree-Adds (text String.[]) es s parents (suc k) n a f reported is = record {
      made = s;
      runs = ap (callbacks x (at s parents (suc k))) reported;
      shape = is ∙ ap (element (some n) a) (sym (join-nil f));
    }
    tree-Adds (text (String.◌∷◌ c v)) es s parents (suc k) n a f reported is = record {
      made = add_child s (set_text new (String.◌∷◌ c v));
      runs =
          ap (callbacks x (at s parents (suc k))) reported
          ∙ ap (λ o. o >>= λ q. some q) (chars-at s parents k (String.◌∷◌ c v));
      shape =
          x.tree-add_child s (set_text new (String.◌∷◌ c v))
          ∙ (λ i. with_child (x.tree-set_text (String.◌∷◌ c v) i) (is i))
          ∙ ap (element (some n) a) (snoc-join f _);
    }

    forest-Adds :
        (g : Forest) (es : List Event) (s : Stanza) (parents : List Stanza) (k : ℕ) (n : String)
        (a : String → Option String) (f : Forest)
        → ReportsAll g es
        → Is s n a f
        → Adds es s parents k n a (join f (kept_all k g))
    forest-Adds nil es s parents k n a f reported is = record {
      made = s;
      runs = ap (callbacks x (at s parents k)) reported;
      shape = is ∙ ap (element (some n) a) (sym (join-nil f));
    }
    forest-Adds (cons t g) es s parents k n a f (us, vs, one, all, e) is =
        let first = tree-Adds t us s parents k n a f one is in
        let others =
          forest-Adds g vs first.made parents k n a (join f (kept k t)) all first.shape in
        record {
          made = others.made;
          runs =
              ap (callbacks x (at s parents k)) e
              ∙ callbacks-append us vs (at s parents k)
              ∙ ap (λ m. m >>= λ q. callbacks x q vs) first.runs
              ∙ others.runs;
          shape = others.shape ∙ ap (element (some n) a) (join_assoc f (kept k t) (kept_all k g));
        }

  -- The parser of stanzas undoes the report of a tree, but for empty texts and the texts that
  -- stand directly in its outermost element: for any callbacks that report an element, with each
  -- text in one piece, mio_parse on a new parser returns a stanza whose tree is this element
  -- without those texts. By then expat has met the end of its document: what every further
  -- mio_parse on the parser returns has NULL for its stanza.
  pub parse-kept :
      (n : String) (a : String → Option String) (f : Forest) (es : List Event)
      → Reports (element (some n) a f) es
      → (s : Stanza) × (parse x parser_new es ≡ some (some s, record parser_new { ended = true }))
        × (tree s ≡ element (some n) a (kept_all zero f))
        × ((ds : List Event)
            → parse x (record parser_new { ended = true }) ds
              ≡ some (none, record parser_new { ended = true }))
  unfolding parse
  parse-kept n a f es (attrs, inner, once, same, all, e) =
      let opened : Is (set_attributes x (set_name new n) attrs) n a nil =
        opened-Is n attrs a same in
      let deep =
        forest-Adds f inner (set_attributes x (set_name new n) attrs) [] zero n a nil all opened in
      (
        deep.made,
        ap (parse x parser_new) e
            ∙ ap
                (λ o. o >>= λ q. some (
                  elim q.stanza as (λ _. Option Stanza) [ none ↦ none | some s ↦ some s.current ],
                  record parser_new { ended = q.ended },
                ))
                (callbacks-append inner (stop n ∷ [])
                    (at (set_attributes x (set_name new n) attrs) [] zero)
                  ∙ ap (λ o. o >>= λ q. callbacks x q (stop n ∷ [])) deep.runs),
        deep.shape,
        λ ds. refl,
      )
