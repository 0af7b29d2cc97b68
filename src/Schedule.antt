-- ===== src/Schedule.antt =====
-- Schedules: the events of src/mio_schedule.h and the functions of src/mio_schedule.c, with
-- `mio_event_new` of src/mio_node.c.
pub mod Lists
pub mod Query
pub mod Callbacks
pub mod Walk
pub mod Recurrences
pub mod Ids
pub mod Bounds
pub mod Invariant
pub mod Events
pub mod Item
pub mod RoundTrip
pub mod Publish
use Prim.Native.Char.{code}
use libmio.Base.{
  ℕ, zero, suc, ◌+◌, ◌-◌, ◌%◌, String, Bool, true, false, List, [], ◌∷◌, Option, none, some, str_eq,
  ◌==◌, ltb, if◌then◌else◌, ◌>>=◌, add_last, or_keep,
}
use libmio.Decimal.{ℤ, pos, negsuc, read, write, truncate, starts_with_digit}
use libmio.Xml.{Strophe}
use libmio.Geoloc.{element_add_string, add_if_set}
use libmio.Reference.{pubsub_item_new, attribute_if_set}

pub record Recurrence : Type 0 where
  pub freq : Option String
  pub interval : Option String
  pub count : Option String
  pub until : Option String
  pub bymonth : Option String
  pub byday : Option String
  pub exdate : Option String

pub record Event : Type 0 where
  pub id : ℤ
  pub tranducer_name : Option String
  pub transducer_value : Option String
  pub time : Option String
  pub info : Option String
  pub recurrence : Option Recurrence

abbrev pub recurrence_new : Recurrence
recurrence_new = record {
  freq = none;
  interval = none;
  count = none;
  until = none;
  bymonth = none;
  byday = none;
  exdate = none;
}

abbrev pub event_new : Event
event_new = record {
  id = negsuc 0;
  tranducer_name = none;
  transducer_value = none;
  time = none;
  info = none;
  recurrence = none;
}

-- `_mio_recurrence_merge`
abbrev pub recurrence_merge : Recurrence → Recurrence → Recurrence
recurrence_merge to_update r = record {
  freq = or_keep r.freq to_update.freq;
  interval = or_keep r.interval to_update.interval;
  count = or_keep r.count to_update.count;
  until = or_keep r.until to_update.until;
  bymonth = or_keep r.bymonth to_update.bymonth;
  byday = or_keep r.byday to_update.byday;
  exdate = or_keep r.exdate to_update.exdate;
}

-- `_mio_event_renumber`, from a number on
unfoldable pub renumber_from : ℕ → List Event → List Event
renumber_from i [] = []
renumber_from i (e ∷ es) = record e { id = pos i } ∷ renumber_from (i + 1) es

abbrev pub event_renumber : List Event → List Event
event_renumber = renumber_from 0

abbrev pub same_id : ℤ → ℤ → Bool
same_id (pos m) (pos n) = m == n
same_id (negsuc m) (negsuc n) = m == n
same_id _ _ = false

-- The loop of `mio_schedule_event_remove`.
unfoldable pub unlink_event : List Event → ℤ → List Event
unlink_event [] id = []
unlink_event (e ∷ es) id = let rest = unlink_event es id in if same_id e.id id then es else e ∷ rest

-- `mio_schedule_event_remove`
abbrev pub event_remove : List Event → ℤ → List Event
event_remove events id = event_renumber (unlink_event events id)

-- A recurrence is replaced by a copy.
abbrev pub replace_recurrence : Option Recurrence → Option Recurrence → Option Recurrence
replace_recurrence old none = old
replace_recurrence old (some r) = some (recurrence_merge recurrence_new r)

-- What `mio_schedule_event_merge` writes into the event that it found or added.
abbrev pub update_event : Event → Event → Event
update_event curr e = record {
  id = curr.id;
  tranducer_name = or_keep e.tranducer_name curr.tranducer_name;
  transducer_value = or_keep e.transducer_value curr.transducer_value;
  time = or_keep e.time curr.time;
  info = or_keep e.info curr.info;
  recurrence = replace_recurrence curr.recurrence e.recurrence;
}

-- The search for an event of the id, with the update; `none` where there is none.
unfoldable pub update_found : List Event → Event → Option (List Event)
update_found [] e = none
update_found (c ∷ cs) e =
    let rest = update_found cs e in
    if same_id c.id e.id then some (update_event c e ∷ cs) else rest >>= λ l. some (c ∷ l)

abbrev pub found_or : Option (List Event) → List Event → List Event
found_or none l = l
found_or (some found) _ = found

-- One round of `mio_schedule_event_merge`; with no event to update, the new one has no place.
abbrev pub merge_event : List Event → Event → Option (List Event)
merge_event [] e = none
merge_event (c ∷ cs) e =
    some (found_or (update_found (c ∷ cs) e) (add_last (c ∷ cs) (update_event event_new e)))

unfoldable pub merge_events : List Event → List Event → Option (List Event)
merge_events events [] = some events
merge_events events (e ∷ es) = do l ← merge_event events e; merge_events l es

-- `mio_schedule_event_merge`
abbrev pub event_merge : List Event → List Event → Option (List Event)
event_merge to_update events = do l ← merge_events to_update events; some (event_renumber l)

-- `%u` of an `int`
abbrev pub as_unsigned : ℤ → ℕ
as_unsigned (pos n) = n
as_unsigned (negsuc n) = 4294967295 - n

-- `sscanf(s, "%u", &id)` into an `int`, with no blank before the number; a text with no number leaves
-- the id alone. From 2^64 on the conversion saturates, as the one of glibc does.
abbrev pub as_int : ℕ → ℤ
as_int n = let m = n % 4294967296 in if ltb m 2147483648 then pos m else negsuc (4294967295 - m)

abbrev pub scan_digits : (ℕ → ℤ) → String → ℤ → ℤ
scan_digits f s old =
    if starts_with_digit s
    then (if ltb (read s) 18446744073709551616 then f (read s) else negsuc 0)
    else old

abbrev pub scan_id : String → ℤ → ℤ
scan_id String.[] old = old
scan_id (String.◌∷◌ c s) old =
    if code c == b'-'
    then scan_digits (λ n. as_int (4294967296 - n % 4294967296)) s old
    else if code c == b'+'
    then scan_digits as_int s old
    else scan_digits as_int (String.◌∷◌ c s) old

module _ (x : Strophe) where
  open x use {Stanza, new, set_name, set_attribute, add_child}

  -- the element `byday`, with the text that it gets; `strlen` of a `NULL` is a fault
  abbrev pub add_byday : Option String → Option String → Stanza → Option Stanza
  add_byday none bymonth s = some s
  add_byday (some _) none s = none
  add_byday (some _) (some v) s = some (element_add_string x s "byday" v)

  -- `_mio_recurrence_to_stanza`
  abbrev pub recurrence_to_stanza : Recurrence → Option Stanza
  recurrence_to_stanza r = do
    let s0 = set_name new "recurrence"
    let s1 = add_if_set x "freq" r.freq s0
    let s2 = add_if_set x "interval" r.interval s1
    let s3 = add_if_set x "count" r.count s2
    let s4 = add_if_set x "until" r.until s3
    let s5 = add_if_set x "bymonth" r.bymonth s4
    s6 ← add_byday r.byday r.bymonth s5
    some (add_if_set x "exdate" r.exdate s6)

  abbrev pub add_recurrence : Option Recurrence → Stanza → Option Stanza
  add_recurrence none s = some s
  add_recurrence (some r) s = do c ← recurrence_to_stanza r; some (add_child s c)

  -- One round of the loop of `mio_schedule_event_to_item`; the buffer of the id has 8 bytes.
  abbrev pub event_to_stanza : Event → Option Stanza
  event_to_stanza e = do
    let named = set_name new "event"
    let s0 = set_attribute named "id" (truncate 7 (write (as_unsigned e.id)))
    let s1 = attribute_if_set x "info" e.info s0
    let s2 = attribute_if_set x "time" e.time s1
    let s3 = attribute_if_set x "transducerName" e.tranducer_name s2
    let s4 = attribute_if_set x "transducerValue" e.transducer_value s3
    add_recurrence e.recurrence s4

  abbrev pub add_events : Stanza → List Event → Option Stanza
  add_events list [] = some list
  add_events list (e ∷ es) = do s ← event_to_stanza e; add_events (add_child list s) es

  -- `mio_schedule_event_to_item`
  unfoldable pub event_to_item : List Event → Option Stanza
  event_to_item events = do
    s ← add_events (set_name new "schedule") events
    some (add_child (pubsub_item_new x "schedule") s)
