-- ===== src/Handlers.antt =====
-- The XML reader of src/mio_handlers.c and src/mio_transducer.c: what it keeps about the place in
-- the document, and the loop of callbacks.
pub mod Place
pub mod Visit
pub mod Snoc
pub mod Renamed
pub mod Invariant
pub mod Fold
use libmio.Base.{
  ℕ, zero, suc, ◌+◌, ◌-◌, ◌≡◌, refl, String, Bool, true, false, List, [], ◌∷◌, Option, none, some,
  ltb, if◌then◌else◌, ◌>>=◌,
}
use libmio.Response.{Code}
use libmio.Xml.{Attrs, Event, start, chars, stop}

-- The stack of parents, innermost first. Its bottom has no name. `dangling` is the pointer to the
-- bottom once that is freed.
pub data Parents : Type 0 where
  chain : List (Option String) → Parents
  dangling : Parents

-- Expat's pointer to the name of an element: `NULL`, the name of an element that is open, that of one
-- whose end tag was met, or, since expat uses the memory of that one again at the next start tag,
-- none that the code could rely on.
pub data ElementName : Type 0 where
  unset : ElementName
  open_name closed_name : String → ElementName
  reused : ElementName

-- What is read there.
abbrev pub name_of : ElementName → Option String
name_of unset = none
name_of (open_name n) = some n
name_of (closed_name n) = some n
name_of reused = none

abbrev pub close : ElementName → ElementName
close unset = unset
close (open_name n) = closed_name n
close (closed_name n) = closed_name n
close reused = reused

-- The pointer, once another start tag is met.
abbrev pub at_next : ElementName → ElementName
at_next unset = unset
at_next (open_name n) = open_name n
at_next (closed_name _) = reused
at_next reused = reused

pub record XmlData : Type 0 where
  pub curr_element_name : ElementName
  pub prev_element_name : ElementName
  pub curr_depth : ℕ
  pub prev_depth : ℕ
  pub parent : Parents

abbrev pub xml_parser_data_new : XmlData
xml_parser_data_new = record {
  curr_element_name = unset;
  prev_element_name = unset;
  curr_depth = 0;
  prev_depth = 0;
  parent = chain [];
}

abbrev push_parent : Option String → Parents → Option Parents
push_parent n (chain l) = some (chain (n ∷ l))
push_parent n dangling = none

-- the pop at an end tag: at the bottom the new top is freed too
abbrev pop_parent : Parents → Option Parents
pop_parent (chain (_ ∷ none ∷ l)) = some dangling
pop_parent (chain (_ ∷ some n ∷ l)) = some (chain (some n ∷ l))
pop_parent _ = none

-- `_mio_xml_data_update_start_element`
unfoldable pub update_start : XmlData → String → Option XmlData
update_start x name =
    let named = record x {
      prev_element_name = at_next x.curr_element_name;
      curr_element_name = open_name name;
      curr_depth = x.curr_depth + 1;
      prev_depth = x.curr_depth + 1;
    } in
    if ltb x.prev_depth (x.curr_depth + 1)
    then (do
      p ← push_parent (name_of x.curr_element_name) x.parent
      some (record named { parent = p }))
    else some named

-- `_mio_xml_data_update_end_element`
unfoldable pub update_end : XmlData → Option XmlData
update_end x =
    let up = record x {
      curr_element_name = close x.curr_element_name;
      prev_depth = x.curr_depth;
      curr_depth = x.curr_depth - 1;
    } in
    if ltb x.curr_depth x.prev_depth
    then (do p ← pop_parent x.parent; some (record up { parent = p }))
    else some up

-- `xml_data->parent->parent`
abbrev pub top : Parents → Option String
top (chain (n ∷ _)) = n
top (chain []) = none
top dangling = none

-- What a query's callbacks do to what they share, `S`, besides the place: at a start tag, given the
-- name of the element before it, the element around it, its name and its attributes; and at a text, given the
-- name of the element that was opened last. A callback that `renames` sets the names of the place
-- itself, before the update does.
pub record Reader (S : Type 0) : Type 0 where
  pub renames : Bool
  pub at_start : S → (prev : ElementName) (parent : Option String) → String → Attrs → Option S
  pub at_chars : S → Option String → String → Option S

-- The callbacks that look at the start tags alone.
abbrev pub starts_only : {S : Type 0} → (S → String → Attrs → Option S) → Reader S
starts_only f = record {
  renames = false;
  at_start = λ s _ _ name attrs. f s name attrs;
  at_chars = λ s _ _. some s;
}

-- `mio_xml_parse`: a stanza is `NULL`, or a text of which expat reads a part or the whole.
pub data Document : Type 0 where
  null_stanza : Document
  malformed : List Event → Document
  complete : List Event → Document

abbrev pub renamed : XmlData → String → XmlData
renamed x n = record x {
  prev_element_name = at_next x.curr_element_name;
  curr_element_name = open_name n;
}

module _ {S : Type 0} where
  -- One callback; the end tags are `endElement`.
  abbrev pub step : Reader S → XmlData × S → Event → Option (XmlData × S)
  step r (x, s) (start n a) = do
    x' ← update_start (if r.renames then renamed x n else x) n
    s' ← r.at_start s x'.prev_element_name (top x'.parent) n a
    some (x', s')
  step r (x, s) (chars t) = do s' ← r.at_chars s (name_of x.curr_element_name) t; some (x, s')
  step r (x, s) (stop _) = do x' ← update_end x; some (x', s)

  unfoldable pub read : Reader S → XmlData × S → List Event → Option (XmlData × S)
  read r s [] = some s
  read r s (e ∷ es) = do s' ← step r s e; read r s' es

  unfoldable pub xml_parse : Reader S → S → Document → Option (Code × S)
  xml_parse r s null_stanza = some (Code.error_xml_null_stanza, s)
  xml_parse r s (malformed es) = do
    (_, s') ← read r (xml_parser_data_new, s) es
    some (Code.error_xml_parsing, s')
  xml_parse r s (complete es) = do (_, s') ← read r (xml_parser_data_new, s) es; some (Code.ok, s')
