-- ===== src/Transducer/Names.antt =====
-- The names in a list of transducer values, behind `mio_transducer_data_add` of
-- src/mio_transducer.c.
use libmio.Base.{
  ◌+◌, ◌≡◌, refl, sym, ap, subst, ◌∙◌, inl, inr, String, true, false, List, [], ◌∷◌, ◌++◌, Option,
  none, some, arith, str_eq, str_eq_iff, str_eq_refl, is_named, length, is_some, if◌then◌else◌,
  Bool-cases, Option-cases,
}
use libmio.Response.{Code}
use libmio.Transducer.{
  TransducerData, put_named, Placed, refused, alone, kept, replaced, stamped, place,
  transducer_data_add,
}

abbrev pub IsAbsent : String → List TransducerData → Type 0
IsAbsent n [] = Unit
IsAbsent n (x ∷ xs) = (is_named n x.name ≡ false) × IsAbsent n xs

-- Each name stands once. A value may have none.
abbrev pub IsUnique : List TransducerData → Type 0
IsUnique [] = Unit
IsUnique (x ∷ xs) = ((n : String) → x.name ≡ some n → IsAbsent n xs) × IsUnique xs

-- The list, wherever its head is now.
abbrev pub held : List TransducerData → Placed → List TransducerData
held old (refused _) = old
held old (alone t) = t ∷ []
held old (kept ts) = ts
held old (replaced ts) = ts

-- The first value of a name.
unfoldable pub value_of : String → List TransducerData → Option TransducerData
value_of m [] = none
value_of m (x ∷ xs) = if is_named m x.name then some x else value_of m xs

pub str_eq-false_sym : (s t : String) → str_eq s t ≡ false → str_eq t s ≡ false
str_eq-false_sym s t h = elim (Bool-cases (str_eq t s)) [
  | inl hit ↦ cc (subst (λ j. str_eq s j ≡ true) (sym ((str_eq_iff t s).0 hit)) (str_eq_refl s))
  | inr miss ↦ miss
]

is_named-eq : (n : String) (o : Option String) → is_named n o ≡ true → o ≡ some n
is_named-eq n none h = cc
is_named-eq n (some k) h = ap some ((str_eq_iff k n).0 h)

IsAbsent-put_named :
    (m n : String) (t : TransducerData) (xs : List TransducerData)
    → is_named m t.name ≡ false
    → IsAbsent m xs
    → IsAbsent m (put_named n t xs)
unfolding put_named
IsAbsent-put_named m n t [] other absent = (other, tt)
IsAbsent-put_named m n t (x ∷ xs) other (first, absent) = elim (Bool-cases (is_named n x.name)) [
  | inl hit ↦ rw hit (other, absent)
  | inr miss ↦ rw miss (first, IsAbsent-put_named m n t xs other absent)
]

is_named-other :
    (n m : String) (o p : Option String)
    → is_named n o ≡ false
    → o ≡ some m
    → p ≡ some n
    → is_named m p ≡ false
is_named-other n m o p h e f = rw f (str_eq-false_sym m n (subst (λ q. is_named n q ≡ false) e h))

put_named-IsUnique :
    (n : String) (t : TransducerData) (xs : List TransducerData)
    → t.name ≡ some n
    → IsUnique xs
    → IsUnique (put_named n t xs)
unfolding put_named
put_named-IsUnique n t [] e unique = (λ _ _. tt, tt)
put_named-IsUnique n t (x ∷ xs) e (first, unique) = elim (Bool-cases (is_named n x.name)) [
  | inl hit ↦ rw hit (λ m f. first m (is_named-eq n x.name hit ∙ sym e ∙ f), unique)
  | inr miss ↦ rw miss (
    λ m f. IsAbsent-put_named m n t xs (is_named-other n m x.name t.name miss f e) (first m f),
    put_named-IsUnique n t xs e unique,
  )
]

-- Wherever the head is, the list is as if the walk had begun before it.
pub held-place :
    (xs : List TransducerData) (n : String) (t : TransducerData)
    → held xs (place xs n t) ≡ put_named n t xs
unfolding put_named
held-place [] n t = refl
held-place (x ∷ xs) n t = elim (Bool-cases (is_named n x.name)) [
  | inl hit ↦ rw hit
  | inr miss ↦ rw miss
]

stamped-name : (now : String) (t : TransducerData) → (stamped now t).name ≡ t.name
stamped-name now t = elim (Option-cases t.timestamp) [
  | inl missing ↦ rw missing
  | inr (s, e) ↦ rw e
]

-- When each name stands at most once in the list at the target, mio_transducer_data_add leaves a
-- list of which that is true.
pub transducer_data_add-IsUnique :
    (now : String) (target : List TransducerData) (t : TransducerData)
    → IsUnique target
    → IsUnique (held target (transducer_data_add now target t))
unfolding transducer_data_add
transducer_data_add-IsUnique now target t unique = added t.name t.value refl
  where
    added :
        (name value : Option String)
        → t.name ≡ name
        → IsUnique (
            held target (elim name [
              | none ↦ refused Code.transducer_null_name
              | some n ↦ elim value [
                | none ↦ refused Code.transducer_null_value
                | some _ ↦ place target n (stamped now t)
              ]
            ]))
    added none value e = unique
    added (some n) none e = unique
    added (some n) (some v) e =
        subst IsUnique (sym (held-place target n (stamped now t)))
          (put_named-IsUnique n (stamped now t) target (stamped-name now t ∙ e) unique)

value_of-put_named :
    (m n : String) (t : TransducerData) (xs : List TransducerData)
    → t.name ≡ some n
    → value_of m (put_named n t xs) ≡ (if str_eq n m then some t else value_of m xs)
unfolding value_of put_named
value_of-put_named m n t [] e = rw e
value_of-put_named m n t (x ∷ xs) e = elim (Bool-cases (is_named n x.name)) [
  | inl hit ↦ rw (hit, e, is_named-eq n x.name hit) (ground arith)
  | inr miss ↦ elim (Bool-cases (is_named m x.name)) [
    | inl own ↦
        let apart : str_eq n m ≡ false =
          str_eq-false_sym m n
            (subst (λ o. is_named n o ≡ false) (is_named-eq m x.name own) miss) in
        rw (miss, apart, own)
    | inr other ↦ rw (miss, other, value_of-put_named m n t xs e)
  ]
]

length-put_named :
    (n : String) (t : TransducerData) (xs : List TransducerData)
    → length (put_named n t xs) ≡ (if is_some (value_of n xs) then length xs else length xs + 1)
unfolding value_of put_named
length-put_named n t [] = refl
length-put_named n t (x ∷ xs) = elim (Bool-cases (is_named n x.name)) [
  | inl hit ↦ rw hit
  | inr miss ↦ rw miss (ground (arith, length-put_named n t xs))
]

-- A transducer without a name is refused with that code, and else one without a value with its
-- code. One that has both gets the time of the clock if it has none, and then is the value of its
-- name, every other name keeps its value, and the list grows by one exactly if the name had no
-- value before.
pub transducer_data_add_lem :
    (now m n v : String) (target : List TransducerData) (t : TransducerData)
    → let named : TransducerData = record t { name = some n; value = some v } in
      let after : List TransducerData = held target (transducer_data_add now target named) in
      (transducer_data_add now target (record t { name = none })
        ≡ refused Code.transducer_null_name)
      × (transducer_data_add now target (record t { name = some n; value = none })
          ≡ refused Code.transducer_null_value)
      × (value_of m after ≡ (if str_eq n m then some (stamped now named) else value_of m target))
      × (length after ≡ (if is_some (value_of n target) then length target else length target + 1))
unfolding transducer_data_add
transducer_data_add_lem now m n v target t =
    let named : TransducerData = record t { name = some n; value = some v } in
    (
      refl,
      refl,
      ap (value_of m) (held-place target n (stamped now named))
          ∙ value_of-put_named m n (stamped now named) target (stamped-name now named),
      ap length (held-place target n (stamped now named))
          ∙ length-put_named n (stamped now named) target,
    )

-- A name that is absent goes to the end.
pub put_named-absent :
    (n : String) (t : TransducerData) (xs : List TransducerData)
    → IsAbsent n xs
    → put_named n t xs ≡ xs ++ (t ∷ [])
unfolding put_named
put_named-absent n t [] absent = refl
put_named-absent n t (x ∷ xs) (first, absent) =
    rw first (ap (◌∷◌ x) (put_named-absent n t xs absent))

absent-middle :
    (m : String) (xs : List TransducerData) (t : TransducerData) (ts : List TransducerData)
    → IsAbsent m (xs ++ (t ∷ ts))
    → is_named m t.name ≡ false
absent-middle m [] t ts (first, _) = first
absent-middle m (x ∷ xs) t ts (_, absent) = absent-middle m xs t ts absent

-- The name of a value is absent before it.
pub IsAbsent-before :
    (n : String) (xs : List TransducerData) (t : TransducerData) (ts : List TransducerData)
    → t.name ≡ some n
    → IsUnique (xs ++ (t ∷ ts))
    → IsAbsent n xs
IsAbsent-before n [] t ts e unique = tt
IsAbsent-before n (x ∷ xs) t ts e (first, unique) =
    (apart x.name refl, IsAbsent-before n xs t ts e unique)
  where
    apart : (o : Option String) → x.name ≡ o → is_named n o ≡ false
    apart none f = refl
    apart (some m) f =
        str_eq-false_sym n m
          (subst (λ o. is_named m o ≡ false) e (absent-middle m xs t ts (first m f)))
