-- ===== src/Parser.antt =====
-- The parser that makes a stanza of a text: `mio_parser_start_element` and the other callbacks, and
-- `mio_parse`, of src/mio_handlers.c.
pub mod Trees
use libmio.Base.{
  ℕ, zero, suc, ◌+◌, ◌-◌, Bool, true, false, String, List, [], ◌∷◌, Option, none, some, ◌==◌, ltb,
  if◌then◌else◌, ◌>>=◌,
}
use libmio.Xml.{Strophe, Attrs, Event, start, chars, stop}

-- A stanza, and those that it stands in, the innermost first. A parent gets its child when the child
-- ends: nothing reads it before, and nothing else is added to it.
pub record Place (Stanza : Type 0) : Type 0 where
  pub current : Stanza
  pub parents : List Stanza

-- `mio_parser_t`; `none` is a `NULL`. `ended` tells whether expat has met the end of a document: it
-- takes no other, and reports nothing more.
pub record Parser (Stanza : Type 0) : Type 0 where
  pub stanza : Option (Place Stanza)
  pub depth : ℕ
  pub ended : Bool

-- `mio_parser_reset`
abbrev pub parser_new : {Stanza : Type 0} → Parser Stanza
parser_new = record { stanza = none; depth = 0; ended = false }

module _ (x : Strophe) where
  open x use {Stanza, new, set_name, set_attribute, set_text, add_child}

  -- `mio_parser_set_attributes`
  abbrev pub set_attributes : Stanza → Attrs → Stanza
  set_attributes s [] = s
  set_attributes s ((k, v) ∷ r) = set_attributes (set_attribute s k v) r

  abbrev pub inside : Option (Place Stanza) → List Stanza
  inside none = []
  inside (some p) = p.current ∷ p.parents

  -- `mio_parser_start_element`
  abbrev pub parser_start_element : Parser Stanza → String → Attrs → Parser Stanza
  parser_start_element p name attrs = record {
    stanza =
        some (record {
          current = set_attributes (set_name new name) attrs;
          parents = inside p.stanza;
        });
    depth = p.depth + 1;
    ended = p.ended;
  }

  -- The parent of a stanza takes its place, if there is one.
  abbrev pub out_of : Place Stanza → Place Stanza
  out_of p = elim p.parents [
    | [] ↦ p
    | s ∷ r ↦ record { current = add_child s p.current; parents = r }
  ]

  -- `mio_parser_end_element`, for the end of an element whose start it met
  abbrev pub parser_end_element : Parser Stanza → Option (Parser Stanza)
  parser_end_element p = p.stanza >>= λ s. some (record {
    stanza = some (if p.depth - 1 == 0 then s else out_of s);
    depth = p.depth - 1;
    ended = p.depth - 1 == 0;
  })

  -- `mio_parser_characters`
  abbrev pub parser_characters : Parser Stanza → String → Option (Parser Stanza)
  parser_characters p t =
      if ltb p.depth 2
      then some p
      else (p.stanza >>= λ s. some (record p {
        stanza = some (record s { current = add_child s.current (set_text new t) });
      }))

  abbrev pub callback : Parser Stanza → Event → Option (Parser Stanza)
  callback p (start n a) = some (parser_start_element p n a)
  callback p (chars t) = parser_characters p t
  callback p (stop _) = parser_end_element p

  abbrev pub callbacks : Parser Stanza → List Event → Option (Parser Stanza)
  callbacks p [] = some p
  callbacks p (e ∷ es) = callback p e >>= λ q. callbacks q es

  -- `mio_parse`, for a text that holds a whole document, which expat reports by these callbacks: the
  -- `xmpp_stanza` of the stanza that is returned. Expat is not reset, and reports nothing of what
  -- follows its document.
  unfoldable pub parse : Parser Stanza → List Event → Option (Option Stanza × Parser Stanza)
  parse p es = do
    q ← callbacks p (if p.ended then [] else es)
    some (
      elim q.stanza [ none ↦ none | some s ↦ some s.current ],
      record parser_new { ended = q.ended },
    )
