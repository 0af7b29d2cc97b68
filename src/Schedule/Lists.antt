-- ===== src/Schedule/Lists.antt =====
-- Removing from and merging into a numbered list of events.
use libmio.Base.{
  ℕ, suc, ◌+◌, ◌≤◌, ◌<◌, ◌≡◌, refl, ap, sym, subst, ◌∙◌, true, false, List, [], ◌∷◌, ◌++◌, Option,
  none, some, arith, String, or_keep, length, length-append, ◌==◌, add_last, add_last-append,
}
use libmio.Decimal.{ℤ, pos, negsuc}
use libmio.Schedule.{
  Recurrence, recurrence_new, recurrence_merge, replace_recurrence, Event, event_new, renumber_from,
  event_renumber, same_id, unlink_event, event_remove, update_event, update_found, found_or,
  merge_events, event_merge,
}

-- Numbering a list again from anywhere makes it what numbering it once does.
renumber_from-renumber_from :
    (i j : ℕ) (es : List Event) → renumber_from i (renumber_from j es) ≡ renumber_from i es
unfolding renumber_from
renumber_from-renumber_from i j [] = refl
renumber_from-renumber_from i j (e ∷ es) =
    ap (◌∷◌ (record e { id = pos i })) (renumber_from-renumber_from (i + 1) (j + 1) es)

length-renumber_from : (i : ℕ) (es : List Event) → length (renumber_from i es) ≡ length es
unfolding renumber_from
length-renumber_from i [] = refl
length-renumber_from i (e ∷ es) = ap suc (length-renumber_from (i + 1) es)

renumber_from-append :
    (i : ℕ) (xs ys : List Event)
    → renumber_from i (xs ++ ys) ≡ renumber_from i xs ++ renumber_from (i + length xs) ys
unfolding renumber_from
renumber_from-append i [] ys = ap (λ j. renumber_from j ys) (omega arith)
renumber_from-append i (x ∷ xs) ys = ap (◌∷◌ (record x { id = pos i })) (
    renumber_from-append (i + 1) xs ys
    ∙ ap (λ j. renumber_from (i + 1) xs ++ renumber_from j ys) (omega arith))

-- `n` is the number of the event behind `xs`.
unlink_event-renumber_from :
    (i n : ℕ) (xs : List Event) (e : Event) (ys : List Event)
    → n ≡ i + length xs
    → unlink_event (renumber_from i (xs ++ (e ∷ ys))) (pos n)
      ≡ renumber_from i xs ++ renumber_from (suc n) ys
unfolding unlink_event renumber_from
unlink_event-renumber_from i n [] e ys h =
    let hit : (i == n) ≡ true = ground arith in rw hit (ap (λ j. renumber_from j ys) (omega arith))
unlink_event-renumber_from i n (x ∷ xs) e ys h =
    let miss : (i == n) ≡ false = ground arith in
    rw miss (
      ap (◌∷◌ (record x { id = pos i }))
        (unlink_event-renumber_from (i + 1) n xs e ys (omega arith)))

unlink_event-missing :
    (i n : ℕ) (xs : List Event)
    → i + length xs ≤ n
    → unlink_event (renumber_from i xs) (pos n) ≡ renumber_from i xs
unfolding unlink_event renumber_from
unlink_event-missing i n [] h = refl
unlink_event-missing i n (x ∷ xs) h =
    let miss : (i == n) ≡ false = ground arith in
    rw miss (ap (◌∷◌ (record x { id = pos i })) (unlink_event-missing (i + 1) n xs (omega arith)))

renumber-parts :
    (i j k : ℕ) (xs ys : List Event)
    → renumber_from i (renumber_from j xs ++ renumber_from k ys) ≡ renumber_from i (xs ++ ys)
renumber-parts i j k xs ys =
    renumber_from-append i (renumber_from j xs) (renumber_from k ys)
    ∙ ap (λ l. l ++ renumber_from (i + length (renumber_from j xs)) (renumber_from k ys))
        (renumber_from-renumber_from i j xs)
    ∙ ap (λ l. renumber_from i xs ++ l)
        (renumber_from-renumber_from (i + length (renumber_from j xs)) k ys)
    ∙ ap (λ n. renumber_from i xs ++ renumber_from (i + n) ys) (length-renumber_from j xs)
    ∙ sym (renumber_from-append i xs ys)

renumber-front :
    (i j : ℕ) (xs ys : List Event)
    → renumber_from i (renumber_from j xs ++ ys) ≡ renumber_from i (xs ++ ys)
unfolding renumber_from
renumber-front i j [] ys = refl
renumber-front i j (x ∷ xs) ys =
    ap (◌∷◌ (record x { id = pos i })) (renumber-front (i + 1) (j + 1) xs ys)

-- In a numbered list of events, removing the number of an event removes this event and numbers the
-- others again, in order; removing a number beyond the last leaves the list as it is.
pub event_remove-numbered :
    (xs : List Event) (e : Event) (ys : List Event) (n : ℕ)
    → length xs + length ys < n
    → (event_remove (event_renumber (xs ++ (e ∷ ys))) (pos (length xs)) ≡ event_renumber (xs ++ ys))
      × (event_remove (event_renumber (xs ++ (e ∷ ys))) (pos n) ≡ event_renumber (xs ++ (e ∷ ys)))
event_remove-numbered xs e ys n h = (
  ap event_renumber (unlink_event-renumber_from 0 (length xs) xs e ys (omega arith))
      ∙ renumber-parts 0 0 (suc (length xs)) xs ys,
  ap event_renumber
        (unlink_event-missing 0 n (xs ++ (e ∷ ys)) (omega (arith, length-append xs (e ∷ ys))))
      ∙ renumber_from-renumber_from 0 0 (xs ++ (e ∷ ys)),
)

update_found-renumber_from :
    (i n : ℕ) (xs : List Event) (c : Event) (ys : List Event) (e : Event)
    → e.id ≡ pos n
    → n ≡ i + length xs
    → update_found (renumber_from i (xs ++ (c ∷ ys))) e
      ≡ some (renumber_from i (xs ++ (update_event c e ∷ ys)))
unfolding update_found renumber_from
update_found-renumber_from i n [] c ys e named h =
    let same : (i == n) ≡ true = ground arith in
    let hit : same_id (pos i) e.id ≡ true = rw named same in rw hit
update_found-renumber_from i n (x ∷ xs) c ys e named h =
    let other : (i == n) ≡ false = ground arith in
    let miss : same_id (pos i) e.id ≡ false = rw named other in
    rw (miss, update_found-renumber_from (i + 1) n xs c ys e named (omega arith))

-- No number of the list is the id.
abbrev pub Free : ℕ → ℤ → Type 0
Free end (pos n) = end ≤ n
Free end (negsuc n) = Unit

update_found-missing :
    (i : ℕ) (xs : List Event) (e : Event) (id : ℤ)
    → e.id ≡ id
    → Free (i + length xs) id
    → update_found (renumber_from i xs) e ≡ none
unfolding update_found renumber_from
update_found-missing i [] e id named h = refl
update_found-missing i (x ∷ xs) e (pos n) named h =
    let other : (i == n) ≡ false = ground arith in
    let miss : same_id (pos i) e.id ≡ false = rw named other in
    rw (miss, update_found-missing (i + 1) xs e (pos n) named (omega arith))
update_found-missing i (x ∷ xs) e (negsuc n) named h =
    let miss : same_id (pos i) e.id ≡ false = rw named refl in
    rw (miss, update_found-missing (i + 1) xs e (negsuc n) named tt)

event_merge-of :
    (c : Event) (cs : List Event) (e : Event) (o : Option (List Event))
    → update_found (c ∷ cs) e ≡ o
    → event_merge (c ∷ cs) (e ∷ [])
      ≡ some (event_renumber (found_or o (add_last (c ∷ cs) (update_event event_new e))))
unfolding merge_events
event_merge-of c cs e o h =
    ap (λ f. some (event_renumber (found_or f (add_last (c ∷ cs) (update_event event_new e))))) h

event_merge-updated :
    (xs : List Event) (c : Event) (ys : List Event) (e : Event)
    → e.id ≡ pos (length xs)
    → event_merge (event_renumber (xs ++ (c ∷ ys))) (e ∷ [])
      ≡ some (event_renumber (xs ++ (update_event c e ∷ ys)))
unfolding renumber_from
event_merge-updated [] c ys e named =
    event_merge-of (record c { id = pos 0 }) (renumber_from 1 ys) e _
      (update_found-renumber_from 0 0 [] c ys e named refl)
    ∙ ap some (renumber_from-renumber_from 0 0 (update_event c e ∷ ys))
event_merge-updated (x ∷ xs) c ys e named =
    event_merge-of (record x { id = pos 0 }) (renumber_from 1 (xs ++ (c ∷ ys))) e _
      (update_found-renumber_from 0 (length (x ∷ xs)) (x ∷ xs) c ys e named (omega arith))
    ∙ ap some (renumber_from-renumber_from 0 0 (x ∷ (xs ++ (update_event c e ∷ ys))))

-- `new` is what the update says, or else what was there.
abbrev pub IsUpdated : {A : Type 0} → (update old new : Option A) → Type 0
IsUpdated none old new = new ≡ old
IsUpdated (some v) old new = new ≡ some v

pub record Updates (e c u : Event) : Type 0 where
  pub tranducer_name : IsUpdated e.tranducer_name c.tranducer_name u.tranducer_name
  pub transducer_value : IsUpdated e.transducer_value c.transducer_value u.transducer_value
  pub time : IsUpdated e.time c.time u.time
  pub info : IsUpdated e.info c.info u.info
  pub recurrence : IsUpdated e.recurrence c.recurrence u.recurrence

or_keep-IsUpdated : (update old : Option String) → IsUpdated update old (or_keep update old)
or_keep-IsUpdated none old = refl
or_keep-IsUpdated (some v) old = refl

or_keep-none : (o : Option String) → or_keep o none ≡ o
or_keep-none none = refl
or_keep-none (some v) = refl

recurrence_merge-new : (r : Recurrence) → recurrence_merge recurrence_new r ≡ r
recurrence_merge-new r = simp or_keep-none

replace_recurrence-IsUpdated :
    (old update : Option Recurrence) → IsUpdated update old (replace_recurrence old update)
replace_recurrence-IsUpdated old none = refl
replace_recurrence-IsUpdated old (some r) = ap some (recurrence_merge-new r)

-- Merging an event whose id is the number of an event of a numbered list: the list is that of
-- before, numbered, with one event in place of this one, which has each value that the update
-- sets, the recurrence included, and keeps those that it does not set.
pub event_merge-found :
    (xs : List Event) (c : Event) (ys : List Event) (e : Event)
    → e.id ≡ pos (length xs)
    → (u : Event) × (event_merge (event_renumber (xs ++ (c ∷ ys))) (e ∷ [])
        ≡ some (event_renumber (xs ++ (u ∷ ys))))
      × Updates e c u
event_merge-found xs c ys e named = (
  update_event c e,
  event_merge-updated xs c ys e named,
  record {
    tranducer_name = or_keep-IsUpdated e.tranducer_name c.tranducer_name;
    transducer_value = or_keep-IsUpdated e.transducer_value c.transducer_value;
    time = or_keep-IsUpdated e.time c.time;
    info = or_keep-IsUpdated e.info c.info;
    recurrence = replace_recurrence-IsUpdated c.recurrence e.recurrence;
  },
)

-- Merging an event whose id is no number of a numbered list that is not empty puts it at the end,
-- and the list is numbered again.
pub event_merge-added :
    (x : Event) (xs : List Event) (e : Event) (id : ℤ)
    → e.id ≡ id
    → Free (length (x ∷ xs)) id
    → event_merge (event_renumber (x ∷ xs)) (e ∷ [])
      ≡ some (event_renumber (x ∷ (xs ++ (update_event event_new e ∷ []))))
unfolding renumber_from
event_merge-added x xs e id named free =
    event_merge-of (record x { id = pos 0 }) (renumber_from 1 xs) e none
      (update_found-missing 0 (x ∷ xs) e id named (subst (λ n. Free n id) (omega arith) free))
    ∙ ap (λ l. some (event_renumber (record x { id = pos 0 } ∷ l)))
        (add_last-append (renumber_from 1 xs) (update_event event_new e))
    ∙ ap (λ l. some (record x { id = pos 0 } ∷ l))
        (renumber-front 1 1 xs (update_event event_new e ∷ []))
