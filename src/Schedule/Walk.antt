-- ===== src/Schedule/Walk.antt =====
-- The walk over the item of a schedule.
use libmio.Handlers.{at_next, ElementName}
use libmio.Base.{
  ℕ, ◌==◌, ◌||◌, not, if◌then◌else◌, false, ◌≡◌, refl, ap, ◌∙◌, String, Bool, true, List, [], ◌∷◌,
  Option, none, some, str_eq, ◌>>=◌, update_last-append,
}
use Prim.Native.Char.{code}
use libmio.Xml.{Tree, Forest, element, text, nil, cons, snoc, with_child}
use libmio.Response.{Response, Packet}
use libmio.Response.Payloads.{holding, with_more}
use libmio.Handlers.Visit.{visit, visit_all, last_name_all}
use libmio.Handlers.Snoc.{visit_all-snoc}
use libmio.Geoloc.{fill}
use libmio.Schedule.{Event, Recurrence, recurrence_new}
use libmio.Schedule.Query.{Reading, string_recurrence, recurrence_chars}
use libmio.Schedule.Callbacks.{visitor}

-- Texts go to the recurrence `q` of the event `e` at the end of the packet.
abbrev pub filled : Response (List Event) → Packet (List Event) → Event → Recurrence → Reading
filled r p e q = record {
  response = holding r (with_more (record e { recurrence = some q } ∷ []) p);
  filling = true;
  pointed = true;
}

abbrev pub put : Bool → Option String → Option String → Option String
put named none old = old
put named (some t) old = fill named t old

-- What the element `name`, if it is there, does to the recurrence.
abbrev pub put_chars : String → Option String → Recurrence → Recurrence
put_chars name t r = record {
  freq = put (str_eq name "freq") t r.freq;
  interval = put (str_eq name "interval") t r.interval;
  count = put (str_eq name "count") t r.count;
  until = put (str_eq name "until") t r.until;
  bymonth = put (str_eq name "bymonth") t r.bymonth;
  byday = put (str_eq name "byday") t r.byday;
  exdate = put (str_eq name "exdate") t r.exdate;
}

-- A character at which expat does not end a callback: no line end, and none that libstrophe escapes.
abbrev pub is_plain_char : ℕ → Bool
is_plain_char k =
    not (k == b'&' || k == b'<' || k == b'>' || k == b'"' || k == 39 || k == 10 || k == 13)

unfoldable pub is_plain : String → Bool
is_plain String.[] = true
is_plain (String.◌∷◌ c t) = let rest = is_plain t in if is_plain_char (code c) then rest else false

-- A text that expat reports in one callback.
abbrev pub IsText : Option String → Type 0
IsText none = Unit
IsText (some String.[]) = ⊥
IsText (some (String.◌∷◌ c t)) = is_plain (String.◌∷◌ c t) ≡ true

string_recurrence-filled :
    (r : Response (List Event)) (p : Packet (List Event)) (e : Event) (q : Recurrence)
    (name t : String)
    → string_recurrence (filled r p e q) (some name) t
      ≡ some (filled r p e (recurrence_chars name t q))
unfolding string_recurrence
string_recurrence-filled r p e q name t = rw (
    update_last-append
      (λ e'.
        e'.recurrence >>= λ q'. some (record e' { recurrence = some (recurrence_chars name t q') }))
      p.payload (record e { recurrence = some q }) _ refl)

-- An element whose children fill the recurrence as `q`.
pub record Fills (t : Tree) (q : Recurrence) : Type 0 where
  pub attributes : String → Option String
  pub children : Forest
  pub shape : t ≡ element (some "recurrence") attributes children
  pub runs :
      (around : Option String) (curr : ElementName) (r : Response (List Event))
      (p : Packet (List Event)) (e : Event)
      → visit_all visitor around curr children (filled r p e recurrence_new) ≡ some (filled r p e q)

abbrev pub plain_element : String → String → Tree
plain_element name t = element (some name) (λ _. none) (cons (text t) nil)

abbrev pub IsPassed : String → Type 0
IsPassed name =
    (around : Option String) (curr : ElementName) (r : Response (List Event))
    (p : Packet (List Event)) (e : Event) (q : Recurrence)
    → visitor.enter (filled r p e q) curr around name (λ _. none) ≡ some (filled r p e q)

pub Fills-plain_element :
    (t : Tree) (q : Recurrence) (name v : String)
    → IsPassed name
    → IsText (some v)
    → Fills t q
    → Fills (with_child (plain_element name v) t) (recurrence_chars name v q)
Fills-plain_element t q name String.[] passed h f = absurd h
Fills-plain_element t q name (String.◌∷◌ c v) passed h f = record {
  attributes = f.attributes;
  children = snoc f.children (plain_element name (String.◌∷◌ c v));
  shape = ap (with_child (plain_element name (String.◌∷◌ c v))) f.shape;
  runs = λ around curr r p e.
      visit_all-snoc visitor around curr f.children (plain_element name (String.◌∷◌ c v))
        (filled r p e recurrence_new)
      ∙ ap
          (λ m.
            m
            >>= visit visitor around (last_name_all curr f.children)
                (plain_element name (String.◌∷◌ c v)))
          (f.runs around curr r p e)
      ∙ rw (
        passed around (at_next (last_name_all curr f.children)) r p e q,
        string_recurrence-filled r p e q name (String.◌∷◌ c v),
      );
}
