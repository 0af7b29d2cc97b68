-- ===== src/Meta/Merge.antt =====
-- What a list of properties says of a name, once an update has been merged into it.
use libmio.Base.{
  ◌≡◌, refl, ap, sym, subst, ◌∙◌, String, Bool, inl, inr, true, false, List, [], ◌∷◌, Option, none,
  some, str_eq, str_eq_iff, str_eq_refl, if◌then◌else◌, or_keep, is_named, Bool-cases, ◌>>=◌,
  add_last,
}
use libmio.Meta.{
  Property, property_meta_new, property_merge, update_properties, merge_properties, TransducerMeta,
  transducer_merge,
}

-- Every property has a name; the name of the update's tests is read without a check.
abbrev pub AreNamed : List Property → Type 0
AreNamed [] = Unit
AreNamed (p ∷ ps) = ((n : String) × (p.name ≡ some n)) × AreNamed ps

-- The value of the first property of a name: none if there is no such property.
abbrev pub lookup : String → List Property → Option (Option String)
lookup n [] = none
lookup n (p ∷ ps) = if is_named n p.name then some p.value else lookup n ps

-- What one property of an update says of a name of which something was said before.
abbrev says : Option String → Option (Option String) → Option (Option String)
says value none = some value
says value (some old) = some (or_keep value old)

-- The whole update, read in order.
abbrev pub updated : String → List Property → Option (Option String) → Option (Option String)
updated n [] old = old
updated n (p ∷ ps) old = updated n ps (if is_named n p.name then says p.value old else old)

abbrev has : String → List Property → Bool
has m [] = false
has m (q ∷ qs) = if is_named m q.name then true else has m qs

-- every property of the name, merged
abbrev merged_in : String → Property → List Property → List Property
merged_in m p [] = []
merged_in m p (q ∷ qs) = (if is_named m q.name then property_merge q p else q) ∷ merged_in m p qs

update_properties-merged_in :
    (p : Property) (m : String) (qs : List Property)
    → p.name ≡ some m
    → AreNamed qs
    → update_properties p qs ≡ some (merged_in m p qs, has m qs)
unfolding update_properties
update_properties-merged_in p m [] e h = refl
update_properties-merged_in p m (q ∷ qs) e ((n, named), h) = elim (Bool-cases (str_eq n m)) [
  | inl hit ↦ rw (named, e, update_properties-merged_in p m qs e h, hit)
  | inr miss ↦ rw (named, e, update_properties-merged_in p m qs e h, miss)
]

abbrev on_found : Option String → Option (Option String) → Option (Option String)
on_found value none = none
on_found value (some old) = some (or_keep value old)

lookup-merged_in-same :
    (p : Property) (m : String) (qs : List Property)
    → p.name ≡ some m
    → lookup m (merged_in m p qs) ≡ on_found p.value (lookup m qs)
lookup-merged_in-same p m [] e = refl
lookup-merged_in-same p m (q ∷ qs) e = elim (Bool-cases (is_named m q.name)) [
  | inl hit ↦ rw (hit, e, str_eq_refl m)
  | inr miss ↦ rw (miss, miss, lookup-merged_in-same p m qs e)
]

is_named-other :
    (m n : String) (o : Option String)
    → str_eq m n ≡ false
    → is_named m o ≡ true
    → is_named n o ≡ false
is_named-other m n none h e = cc
is_named-other m n (some k) h e = subst (λ j. str_eq j n ≡ false) (sym ((str_eq_iff k m).0 e)) h

lookup-merged_in-other :
    (p : Property) (m n : String) (qs : List Property)
    → p.name ≡ some m
    → str_eq m n ≡ false
    → lookup n (merged_in m p qs) ≡ lookup n qs
lookup-merged_in-other p m n [] e h = refl
lookup-merged_in-other p m n (q ∷ qs) e h = elim (Bool-cases (is_named m q.name)) [
  | inl hit ↦ rw (hit, e, h, is_named-other m n q.name h hit, lookup-merged_in-other p m n qs e h)
  | inr miss ↦ rw (miss, lookup-merged_in-other p m n qs e h)
]

-- Whether the name is there, and what is said of it.
data Found (m : String) (qs : List Property) : Type 0 where
  absent : has m qs ≡ false → lookup m qs ≡ none → Found m qs
  there : (old : Option String) → has m qs ≡ true → lookup m qs ≡ some old → Found m qs

found : (m : String) (qs : List Property) → Found m qs
found m [] = absent refl refl
found m (q ∷ qs) = elim (Bool-cases (is_named m q.name)) [
  | inl hit ↦ there q.value (rw hit) (rw hit)
  | inr miss ↦ elim (found m qs) [
    | absent a b ↦ absent (rw (miss, a)) (rw (miss, b))
    | there old a b ↦ there old (rw (miss, a)) (rw (miss, b))
  ]
]

lookup-add_last :
    (n : String) (qs : List Property) (p : Property)
    → lookup n (add_last qs p) ≡ elim (lookup n qs) [
      | some old ↦ some old
      | none ↦ if is_named n p.name then some p.value else none
    ]
lookup-add_last n [] p = refl
lookup-add_last n (q ∷ qs) p = elim (Bool-cases (is_named n q.name)) [
  | inl hit ↦ rw hit
  | inr miss ↦ rw (miss, lookup-add_last n qs p)
]

-- One round of the outer loop.
abbrev merge_one : String → Property → List Property → List Property
merge_one m p qs =
    if has m qs then merged_in m p qs else add_last qs (property_merge property_meta_new p)

or_keep-none : (o : Option String) → or_keep o none ≡ o
or_keep-none none = refl
or_keep-none (some v) = refl

lookup-merge_one-same :
    (m : String) (p : Property) (qs : List Property)
    → p.name ≡ some m
    → lookup m (merge_one m p qs) ≡ says p.value (lookup m qs)
lookup-merge_one-same m p qs e = elim (found m qs) [
  | absent a b ↦ rw (
    a,
    lookup-add_last m qs (property_merge property_meta_new p),
    b,
    e,
    str_eq_refl m,
    or_keep-none p.value,
  )
  | there old a b ↦ rw (a, lookup-merged_in-same p m qs e, b)
]

lookup-merge_one-other :
    (m n : String) (p : Property) (qs : List Property)
    → p.name ≡ some m
    → str_eq m n ≡ false
    → lookup n (merge_one m p qs) ≡ lookup n qs
lookup-merge_one-other m n p qs e h = elim (found m qs) [
  | absent a b ↦ elim (found n qs) [
    | absent c d ↦ rw (a, lookup-add_last n qs (property_merge property_meta_new p), d, e, h)
    | there old c d ↦ rw (a, lookup-add_last n qs (property_merge property_meta_new p), d)
  ]
  | there old a b ↦ rw (a, lookup-merged_in-other p m n qs e h)
]

lookup-merge_one :
    (m n : String) (p : Property) (qs : List Property)
    → p.name ≡ some m
    → lookup n (merge_one m p qs)
      ≡ (if is_named n p.name then says p.value (lookup n qs) else lookup n qs)
lookup-merge_one m n p qs e = elim (Bool-cases (str_eq m n)) [
  | inl hit ↦
      subst
        (λ j.
          lookup j (merge_one m p qs)
          ≡ (if is_named j p.name then says p.value (lookup j qs) else lookup j qs))
        ((str_eq_iff m n).0 hit)
        (let named : is_named m p.name ≡ true = rw e (str_eq_refl m) in
          rw (named, lookup-merge_one-same m p qs e))
  | inr miss ↦
      let named : is_named n p.name ≡ false = rw e miss in
      rw (named, lookup-merge_one-other m n p qs e miss)
]

merged_in-AreNamed :
    (m : String) (p : Property) (qs : List Property)
    → p.name ≡ some m
    → AreNamed qs
    → AreNamed (merged_in m p qs)
merged_in-AreNamed m p [] e h = tt
merged_in-AreNamed m p (q ∷ qs) e (one, h) = elim (Bool-cases (is_named m q.name)) [
  | inl hit ↦ rw hit ((m, rw e), merged_in-AreNamed m p qs e h)
  | inr miss ↦ rw miss (one, merged_in-AreNamed m p qs e h)
]

add_last-AreNamed :
    (qs : List Property) (p : Property) (m : String)
    → p.name ≡ some m
    → AreNamed qs
    → AreNamed (add_last qs p)
add_last-AreNamed [] p m e h = ((m, e), tt)
add_last-AreNamed (q ∷ qs) p m e (one, h) = (one, add_last-AreNamed qs p m e h)

merge_one-AreNamed :
    (m : String) (p : Property) (qs : List Property)
    → p.name ≡ some m
    → AreNamed qs
    → AreNamed (merge_one m p qs)
merge_one-AreNamed m p qs e h = elim (Bool-cases (has m qs)) [
  | inl hit ↦ rw hit (merged_in-AreNamed m p qs e h)
  | inr miss ↦ rw miss (add_last-AreNamed qs (property_merge property_meta_new p) m (rw e) h)
]

pub merge_properties-updated :
    (ps qs : List Property)
    → AreNamed qs
    → AreNamed ps
    → (l : List Property) × (merge_properties qs ps ≡ some l)
      × AreNamed l
      × ((n : String) → lookup n l ≡ updated n ps (lookup n qs))
unfolding merge_properties
merge_properties-updated [] qs h k = (qs, refl, h, λ n. refl)
merge_properties-updated (p ∷ ps) qs h ((m, e), k) =
    let (l, merged, named, says_so) =
      merge_properties-updated ps (merge_one m p qs) (merge_one-AreNamed m p qs e h) k in
    (
      l,
      rw (update_properties-merged_in p m qs e h) merged,
      named,
      λ n. says_so n ∙ ap (updated n ps) (lookup-merge_one m n p qs e),
    )

>>=-some : {A B : Type 0} (m : Option A) (f : A → Option B) {a : A} → m ≡ some a → (m >>= f) ≡ f a
>>=-some m f e = ap (λ n. n >>= f) e

-- Where all properties of two transducers have names, merging one into the other meets no fault,
-- and what the result says of any name is what the old properties say of it, followed by all that
-- the update says of it in order.
pub transducer_merge-updated :
    {D : Type 0} (to_update t : TransducerMeta D)
    → AreNamed to_update.properties
    → AreNamed t.properties
    → (r : TransducerMeta D) × (transducer_merge to_update t ≡ some r)
      × AreNamed r.properties
      × ((n : String)
          → lookup n r.properties ≡ updated n t.properties (lookup n to_update.properties))
unfolding transducer_merge
transducer_merge-updated to_update t h k =
    let (l, merged, named, says_so) =
      merge_properties-updated t.properties to_update.properties h k in
    (_, >>=-some _ _ merged, named, says_so)
