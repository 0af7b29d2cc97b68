-- ===== src/Transducer.antt =====
-- Values of transducers: src/mio_transducer.h and src/mio_transducer.c. A list linked by `next` is a
-- `List`, and its `NULL` the empty list.
pub mod Query
pub mod Names
pub mod Callbacks
pub mod RoundTrip
pub mod Repeated
pub mod Publish
use libmio.Base.{
  ℕ, zero, suc, ◌+◌, ◌≡◌, String, Bool, true, false, List, [], ◌∷◌, ◌++◌, Option, none, some,
  is_named, ltb, if◌then◌else◌, ◌>>=◌, add_last,
}
use libmio.Xml.{Strophe}
use libmio.Response.{Code}

pub data DataType : Type 0 where
  transducer_data transducer_set_data : DataType

pub record TransducerData : Type 0 where
  pub type : DataType
  pub name : Option String
  pub value : Option String
  pub timestamp : Option String

abbrev pub transducer_data_new : TransducerData
transducer_data_new = record { type = transducer_data; name = none; value = none; timestamp = none }

-- `transducers`, and the other pointers to the head of that list. `dangling` is such a pointer once
-- the head is freed.
pub data Chain : Type 0 where
  linked : List TransducerData → Chain
  dangling : Chain

-- `mio_data_t`
pub record MioData : Type 0 where
  pub event : Option String
  pub num_transducers : ℕ
  pub transducers : Chain

abbrev pub data_new : MioData
data_new = record { event = none; num_transducers = 0; transducers = linked [] }

-- `mio_data_transducer_data_add`
unfoldable pub data_add :
    MioData → DataType → (name value timestamp : Option String) → Option (Code × MioData)
data_add d type name value timestamp = elim d.transducers [
  | linked ts ↦
      let t : TransducerData = record {
        type = type;
        name = name;
        value = value;
        timestamp = timestamp;
      } in
      some (
        Code.ok,
        record d { transducers = linked (add_last ts t); num_transducers = d.num_transducers + 1 },
      )
  | dangling ↦ none
]

-- The list from the node behind the head, once the walk of `mio_transducer_data_add` has ended.
pub put_named : String → TransducerData → List TransducerData → List TransducerData
put_named n t [] = t ∷ []
put_named n t (x ∷ xs) = if is_named n x.name then t ∷ xs else x ∷ put_named n t xs

-- What `mio_transducer_data_add` leaves: the list at `transducer` where nothing points to it, the
-- list at `target`, or the list at `transducer` in place of `target`, which is freed.
pub data Placed : Type 0 where
  refused : Code → Placed
  alone : TransducerData → Placed
  kept : List TransducerData → Placed
  replaced : List TransducerData → Placed

-- A transducer that has its name, its value and its timestamp.
abbrev place : List TransducerData → String → TransducerData → Placed
place [] n t = alone t
place (x ∷ xs) n t = if is_named n x.name then replaced (t ∷ xs) else kept (x ∷ put_named n t xs)

-- `mio_timestamp_create`, where there is none
abbrev stamped : String → TransducerData → TransducerData
stamped now t = elim t.timestamp [ none ↦ record t { timestamp = some now } | some _ ↦ t ]

-- `mio_transducer_data_add` of a transducer that is not linked to another
unfoldable pub transducer_data_add : (now : String) → List TransducerData → TransducerData → Placed
unfolding put_named
transducer_data_add now target t = elim t.name [
  | none ↦ refused Code.transducer_null_name
  | some n ↦ elim t.value [
    | none ↦ refused Code.transducer_null_value
    | some _ ↦ place target n (stamped now t)
  ]
]

abbrev pub element_name : DataType → String
element_name transducer_data = "transducerData"
element_name transducer_set_data = "transducerSetData"

module _ (x : Strophe) where
  open x use {Stanza, new, set_name, set_attribute, add_child}

  -- `mio_transducer_data_to_item`: the item of the first transducer. A `NULL` list has no item, and
  -- a `NULL` name, value or timestamp is a fault.
  unfoldable pub transducer_data_to_item : List TransducerData → Option (Option Stanza)
  transducer_data_to_item [] = some none
  transducer_data_to_item (curr ∷ _) = do
    name ← curr.name
    value ← curr.value
    timestamp ← curr.timestamp
    let identified = set_attribute (set_name new "item") "id" (String.◌∷◌ "_" name)
    let item = set_attribute identified "xmlns" "http://jabber.org/protocol/mio"
    let named = set_attribute (set_name new (element_name curr.type)) "name" name
    let t = set_attribute (set_attribute named "value" value) "timestamp" timestamp
    some (some (add_child item t))
