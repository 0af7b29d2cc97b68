-- ===== src/Handlers/Visit.antt =====
-- Reading a document is a walk over its tree.
use mathlib.Core.List.{append-nil, append_assoc}
use mathlib.Core.Path.{fun_ext}
use libmio.Base.{
  ◌≡◌, refl, ap, sym, subst, ◌∙◌, ◌⊎◌, inl, inr, String, List, [], ◌∷◌, ◌++◌, Option, none, some,
  false, if◌then◌else◌, arith, ◌>>=◌,
}
use libmio.Xml.{
  Attrs, attribute, Distinct, Event, start, chars, stop, Tree, Forest, element, text, nil, cons,
  Reports, ReportsAll,
}
use libmio.Handlers.{
  at_next, ElementName, unset, open_name, name_of, close, XmlData, xml_parser_data_new,
  update_start, update_end, renamed, Reader, read, complete, xml_parse,
}
use libmio.Response.{Code}
use libmio.Handlers.Place.{
  innermost, IsInside, IsBehind, opened, update_start-opened, opened-IsFresh, top-opened,
  update_end-IsBehind, still-IsInside,
}

-- A reader whose attributes are a function, not an array.
pub record Visitor (S : Type 0) : Type 0 where
  pub enter :
      S
      → (prev : ElementName) (parent : Option String) → String
      → (String → Option String)
      → Option S
  pub on_text : S → Option String → String → Option S

-- The reader's scan over the array depends on the attributes alone.
pub record Agrees {S : Type 0} (r : Reader S) (v : Visitor S) : Type 0 where
  pub plain : r.renames ≡ false
  pub at_start :
      (s : S) (prev : ElementName) (parent : Option String) (n : String) (attrs : Attrs)
      → Distinct attrs
      → r.at_start s prev parent n attrs ≡ v.enter s prev parent n (λ k. attribute k attrs)
  pub at_chars : (s : S) (n : Option String) (t : String) → r.at_chars s n t ≡ v.on_text s n t

-- The name of the element that was opened last, behind a tree.
abbrev mutual
  pub last_name : ElementName → Tree → ElementName
  last_name curr (element none a f) = curr
  last_name curr (element (some n) a f) = close (last_name_all (open_name n) f)
  last_name curr (text t) = curr

  pub last_name_all : ElementName → Forest → ElementName
  last_name_all curr nil = curr
  last_name_all curr (cons t f) = last_name_all (last_name curr t) f

module _ {S : Type 0} (v : Visitor S) where
  abbrev mutual
    -- The walk, within the element `parent`, where `curr` is the name in the last start tag.
    pub visit : (parent : Option String) (curr : ElementName) → Tree → S → Option S
    visit parent curr (element none a f) s = none
    visit parent curr (element (some n) a f) s =
        v.enter s (at_next curr) parent n a >>= visit_all (some n) (open_name n) f
    visit parent curr (text String.[]) s = some s
    visit parent curr (text (String.◌∷◌ c t)) s = v.on_text s (name_of curr) (String.◌∷◌ c t)

    pub visit_all : (parent : Option String) (curr : ElementName) → Forest → S → Option S
    visit_all parent curr nil s = some s
    visit_all parent curr (cons t f) s =
        visit parent curr t s >>= visit_all parent (last_name curr t) f

pub >>=-assoc :
    {A B C : Type 0} (m : Option A) (f : A → Option B) (g : B → Option C)
    → ((m >>= f) >>= g) ≡ (m >>= λ a. f a >>= g)
>>=-assoc none f g = refl
>>=-assoc (some a) f g = refl

pub >>=-cong :
    {A B : Type 0} (m : Option A) {f g : A → Option B}
    → ((a : A) → f a ≡ g a)
    → (m >>= f) ≡ (m >>= g)
>>=-cong none h = refl
>>=-cong (some a) h = h a

module _ {S : Type 0} (r : Reader S) (v : Visitor S) (agrees : Agrees r v) where
  -- `x'` is where the reader stands behind a part of a document that takes `s` to `walk s`.
  record Walks (x x' : XmlData) (es rest : List Event) (walk : S → Option S) : Type 0 where
    runs : (s : S) → read r (x, s) (es ++ rest) ≡ (walk s >>= λ s'. read r (x', s') rest)

  read-start :
      (path : List String) (x : XmlData) (n : String) (attrs : Attrs) (es : List Event) (s : S)
      → IsInside path x
      → Distinct attrs
      → read r (x, s) (start n attrs ∷ es) ≡ (
          v.enter s (at_next x.curr_element_name) (innermost path) n (λ k. attribute k attrs)
          >>= λ s'. read r (opened x n path, s') es)
  unfolding read
  read-start path x n attrs es s h once =
      let started : update_start (if r.renames then renamed x n else x) n ≡ some (opened x n path) =
        ap (λ b. update_start (if b then renamed x n else x) n) agrees.plain
        ∙ update_start-opened path x n h in
      rw
        (
          started,
          top-opened path x n,
          agrees.at_start s (at_next x.curr_element_name) (innermost path) n attrs once,
        )
        (>>=-assoc
          (v.enter s (at_next x.curr_element_name) (innermost path) n (λ k. attribute k attrs)) _ _)

  read-stop :
      (x y : XmlData) (n : String) (es : List Event) (s : S)
      → update_end x ≡ some y
      → read r (x, s) (stop n ∷ es) ≡ read r (y, s) es
  unfolding read
  read-stop x y n es s e = rw e

  read-chars :
      (x : XmlData) (t : String) (es : List Event) (s : S)
      → read r (x, s) (chars t ∷ es)
        ≡ (v.on_text s (name_of x.curr_element_name) t >>= λ s'. read r (x, s') es)
  unfolding read
  read-chars x t es s =
      rw (agrees.at_chars s (name_of x.curr_element_name) t)
        (>>=-assoc (v.on_text s (name_of x.curr_element_name) t) _ _)

  element-Walks :
      (path : List String) (x x' y : XmlData) (n : String) (attrs : Attrs)
      (a : String → Option String) (f : Forest) (es inner rest : List Event)
      → IsInside path x
      → Distinct attrs
      → ((k : String) → attribute k attrs ≡ a k)
      → es ≡ start n attrs ∷ (inner ++ stop n ∷ [])
      → Walks (opened x n path) x' inner (stop n ∷ rest) (visit_all v (some n) (open_name n) f)
      → update_end x' ≡ some y
      → Walks x y es rest (visit v (innermost path) x.curr_element_name (element (some n) a f))
  element-Walks path x x' y n attrs a f es inner rest h once same e walks ended = record {
    runs = λ s.
        ap (λ l. read r (x, s) (l ++ rest)) e
        ∙ ap (λ l. read r (x, s) (start n attrs ∷ l)) (append_assoc inner (stop n ∷ []) rest)
        ∙ read-start path x n attrs (inner ++ (stop n ∷ rest)) s h once
        ∙ ap
            (λ b. v.enter s (at_next x.curr_element_name) (innermost path) n b >>= λ s'.
              read r (opened x n path, s') (inner ++ (stop n ∷ rest)))
            (fun_ext same)
        ∙ >>=-cong (v.enter s (at_next x.curr_element_name) (innermost path) n a) (λ s'.
          walks.runs s'
          ∙ >>=-cong (visit_all v (some n) (open_name n) f s')
              (λ s''. read-stop x' y n rest s'' ended))
        ∙ sym (>>=-assoc (v.enter s (at_next x.curr_element_name) (innermost path) n a) _ _);
  }

  cons-Walks :
      (x y z : XmlData) (a b es rest : List Event) (one all : S → Option S)
      → es ≡ a ++ b
      → Walks x y a (b ++ rest) one
      → Walks y z b rest all
      → Walks x z es rest (λ s. one s >>= all)
  cons-Walks x y z a b es rest one all e first then_all = record {
    runs = λ s.
        ap (λ l. read r (x, s) (l ++ rest)) e
        ∙ ap (read r (x, s)) (append_assoc a b rest)
        ∙ first.runs s
        ∙ >>=-cong (one s) then_all.runs
        ∙ sym (>>=-assoc (one s) all _);
  }

  -- Where the reader stands behind a tree, and behind the contents of an element.
  record Behind (path : List String) (t : Tree) (x : XmlData) (es rest : List Event) : Type 0 where
    at : XmlData
    walks : Walks x at es rest (visit v (innermost path) x.curr_element_name t)
    name : at.curr_element_name ≡ last_name x.curr_element_name t
    place : IsBehind path at ⊎ (x ≡ at)

  record BehindAll (n : String) (path : List String) (f : Forest) (x : XmlData)
      (es rest : List Event) : Type 0 where
    at : XmlData
    walks : Walks x at es rest (visit_all v (some n) x.curr_element_name f)
    name : at.curr_element_name ≡ last_name_all x.curr_element_name f
    place : IsInside (n ∷ path) at

  nothing-Walks : (x : XmlData) (es rest : List Event) → es ≡ [] → Walks x x es rest (λ s. some s)
  nothing-Walks x es rest e = record { runs = λ s. ap (λ l. read r (x, s) (l ++ rest)) e }

  chars-Walks :
      (x : XmlData) (t : String) (es rest : List Event)
      → es ≡ chars t ∷ []
      → Walks x x es rest (λ s. v.on_text s (name_of x.curr_element_name) t)
  chars-Walks x t es rest e = record {
    runs = λ s. ap (λ l. read r (x, s) (l ++ rest)) e ∙ read-chars x t rest s;
  }

  mutual
    tree-Behind :
        (t : Tree) (path : List String) (x : XmlData) (es rest : List Event)
        → IsInside path x
        → Reports t es
        → Behind path t x es rest
    tree-Behind (element none m f) path x es rest h reported = absurd reported
    tree-Behind (element (some n) m f) path x es rest h (attrs, inner, once, same, reported, e) =
        let all =
          forest-BehindAll f n path (opened x n path) inner (stop n ∷ rest)
            (inl (opened-IsFresh path x n)) reported in
        let (y, ended, behind, kept) = update_end-IsBehind n path all.at all.place in
        record {
          at = y;
          walks =
              element-Walks path x all.at y n attrs m f es inner rest h once same e all.walks ended;
          name = kept ∙ ap close all.name;
          place = inl behind;
        }
    tree-Behind (text String.[]) path x es rest h reported = record {
      at = x;
      walks = nothing-Walks x es rest reported;
      name = refl;
      place = inr refl;
    }
    tree-Behind (text (String.◌∷◌ c t)) path x es rest h reported = record {
      at = x;
      walks = chars-Walks x _ es rest reported;
      name = refl;
      place = inr refl;
    }

    forest-BehindAll :
        (f : Forest) (n : String) (p : List String) (x : XmlData) (es rest : List Event)
        → IsInside (n ∷ p) x
        → ReportsAll f es
        → BehindAll n p f x es rest
    forest-BehindAll nil n p x es rest h reported = record {
      at = x;
      walks = nothing-Walks x es rest reported;
      name = refl;
      place = h;
    }
    forest-BehindAll (cons t f) n p x es rest h (a, b, one, many, e) =
        let first = tree-Behind t (n ∷ p) x a (b ++ rest) h one in
        let others =
          forest-BehindAll f n p first.at b rest (still-IsInside n p x first.at h first.place)
            many in
        record {
          at = others.at;
          walks =
              cons-Walks x first.at others.at a b es rest (visit v (some n) x.curr_element_name t)
                (visit_all v (some n) (last_name x.curr_element_name t) f) e first.walks
                (subst (λ c. Walks first.at others.at b rest (visit_all v (some n) c f)) first.name
                  others.walks);
          name = others.name ∙ ap (λ c. last_name_all c f) first.name;
          place = others.place;
        }

  -- For every document that is the text of a tree, with each text reported in one callback, and
  -- callbacks that do not set the names of the place themselves, mio_xml_parse meets no dangling
  -- or missing parent: it does what the walk over the tree does, which is told at each element the
  -- element around it, the element opened before it, but of that one, where it is closed by then,
  -- no name; and at each text the element opened last.
  pub xml_parse-visit :
      (t : Tree) (es : List Event) (s : S)
      → Reports t es
      → xml_parse r s (complete es) ≡ (visit v none unset t s >>= λ s'. some (Code.ok, s'))
  unfolding xml_parse read
  xml_parse-visit t es s reported =
      let behind = tree-Behind t [] xml_parser_data_new es [] (inl (ground arith)) reported in
      ap (λ l. xml_parse r s (complete l)) (sym (append-nil es))
      ∙ ap (λ m. m >>= λ (_, s'). some (Code.ok, s')) (behind.walks.runs s)
      ∙ >>=-assoc (visit v none unset t s) _ _
