-- ===== src/Handlers/Invariant.antt =====
-- Invariants of a reader: what its callbacks keep holds of what they share after any document,
-- whatever the server sent.
use libmio.Base.{
  Bool, true, false, ◌≡◌, subst, String, Option, none, some, List, [], ◌∷◌, ◌>>=◌, if◌then◌else◌,
}
use libmio.Response.{Code}
use libmio.Xml.{Attrs, Event, start, chars, stop}
use libmio.Handlers.{
  ElementName, name_of, Reader, XmlData, Document, null_stanza, malformed, complete, update_start,
  update_end, top, renamed, xml_parser_data_new, step, read, xml_parse,
}

-- What is there satisfies the predicate.
abbrev pub IfSome : {A : Type 0} → (A → Type 0) → Option A → Type 0
IfSome Q none = Unit
IfSome Q (some a) = Q a

pub IfSome->>= :
    {A B : Type 0} (Q : A → Type 0) (R : B → Type 0) (o : Option A) (f : A → Option B)
    → ((a : A) → Q a → IfSome R (f a))
    → IfSome Q o
    → IfSome R (o >>= f)
IfSome->>= Q R none f keeps h = tt
IfSome->>= Q R (some a) f keeps h = keeps a h

-- A value of which nothing is known.
pub IfSome-any :
    {A B : Type 0} (R : B → Type 0) (o : Option A) (f : A → Option B)
    → ((a : A) → IfSome R (f a))
    → IfSome R (o >>= f)
IfSome-any R none f keeps = tt
IfSome-any R (some a) f keeps = keeps a

pub IfSome-if :
    {A : Type 0} (R : A → Type 0) (b : Bool) (o o' : Option A)
    → IfSome R o
    → IfSome R o'
    → IfSome R (if b then o else o')
IfSome-if R true o o' h h' = h
IfSome-if R false o o' h h' = h'

module _ {S : Type 0} (r : Reader S) (IsKept : S → Type 0)
    (starts : (s : S) (prev : ElementName) (parent : Option String) (n : String) (a : Attrs)
      → IsKept s
      → IfSome IsKept (r.at_start s prev parent n a))
    (texts : (s : S) (curr : Option String) (t : String)
      → IsKept s
      → IfSome IsKept (r.at_chars s curr t)) where
  abbrev Kept : XmlData × S → Type 0
  Kept (_, s) = IsKept s

  step-Keeps : (x : XmlData) (s : S) (e : Event) → IsKept s → IfSome Kept (step r (x, s) e)
  step-Keeps x s (start n a) h =
      IfSome-any Kept (update_start (if r.renames then renamed x n else x) n) _ (λ x'.
        IfSome->>= IsKept Kept (r.at_start s x'.prev_element_name (top x'.parent) n a) _
          (λ s' h'. h') (starts s x'.prev_element_name (top x'.parent) n a h))
  step-Keeps x s (chars t) h =
      IfSome->>= IsKept Kept (r.at_chars s (name_of x.curr_element_name) t) _ (λ s' h'. h')
        (texts s (name_of x.curr_element_name) t h)
  step-Keeps x s (stop n) h = IfSome-any Kept (update_end x) _ (λ x'. h)

  read-Keeps : (x : XmlData) (s : S) (es : List Event) → IsKept s → IfSome Kept (read r (x, s) es)
  unfolding read
  read-Keeps x s [] h = h
  read-Keeps x s (e ∷ es) h =
      IfSome->>= Kept Kept (step r (x, s) e) _ (λ (x', s') h'. read-Keeps x' s' es h')
        (step-Keeps x s e h)

  abbrev KeptResult : Code × S → Type 0
  KeptResult (_, s) = IsKept s

  parse-Keeps : (s : S) (d : Document) → IsKept s → IfSome KeptResult (xml_parse r s d)
  unfolding xml_parse
  parse-Keeps s null_stanza h = h
  parse-Keeps s (malformed es) h =
      IfSome->>= Kept KeptResult (read r (xml_parser_data_new, s) es) _ (λ _ h'. h')
        (read-Keeps xml_parser_data_new s es h)
  parse-Keeps s (complete es) h =
      IfSome->>= Kept KeptResult (read r (xml_parser_data_new, s) es) _ (λ _ h'. h')
        (read-Keeps xml_parser_data_new s es h)

  pub xml_parse-Keeps :
      (s s' : S) (d : Document) (code : Code)
      → IsKept s
      → xml_parse r s d ≡ some (code, s')
      → IsKept s'
  xml_parse-Keeps s s' d code h e = subst (IfSome KeptResult) e (parse-Keeps s d h)
