-- ===== src/Xml/Scan.antt =====
-- The loop `for (i = 0; attr[i]; i += 2)` over an array of attributes.
use libmio.Base.{
  ◌≡◌, refl, ap, subst, ◌∙◌, ◌⊎◌, String, inl, inr, true, false, [], ◌∷◌, Option, none, some,
  str_eq, str_eq_iff, if◌then◌else◌, Bool-cases, Option-cases,
}
use libmio.Xml.{Attrs, attribute, Distinct}

unfoldable pub scan : {S : Type 0} → (String → String → S → S) → S → Attrs → S
scan set s [] = s
scan set s ((k, v) ∷ r) = scan set (set k v s) r

-- What the value of one attribute, if it is there, does to a member.
abbrev pub apply_to : {F : Type 0} → (String → F → F) → F → Option String → F
apply_to f old none = old
apply_to f old (some v) = f v old

module _ {S F : Type 0} (set : String → String → S → S) (member : S → F) (key : String)
    (f : String → F → F)
    (sets : (k v : String) (s : S)
      → member (set k v s) ≡ (if str_eq k key then f v (member s) else member s)) where
  -- A member that only the attribute `key` changes holds what its value makes of the old one.
  pub member-scan :
      (attrs : Attrs) (s : S)
      → Distinct attrs
      → member (scan set s attrs) ≡ apply_to f (member s) (attribute key attrs)
  unfolding scan
  member-scan [] s once = refl
  member-scan ((k, v) ∷ r) s (absent, once) =
      member-scan r (set k v s) once
      ∙ step (Bool-cases (str_eq k key)) (Option-cases (attribute key r))
    where
      step :
          (str_eq k key ≡ true) ⊎ (str_eq k key ≡ false)
          → (attribute key r ≡ none) ⊎ ((w : String) × (attribute key r ≡ some w))
          → apply_to f (member (set k v s)) (attribute key r)
            ≡ apply_to f (member s) (attribute key ((k, v) ∷ r))
      step (inl e) (inl missing) = rw (missing, e) (sets k v s ∙ rw e)
      step (inl e) (inr (w, found)) =
          cc (subst (λ j. attribute j r ≡ none) ((str_eq_iff k key).0 e) absent)
      step (inr e) (inl missing) = rw (missing, e) (sets k v s ∙ rw e)
      step (inr e) (inr (w, found)) = rw found (ap (f w) (sets k v s ∙ rw e))

-- A member that no attribute changes stays.
pub member-untouched :
    {S F : Type 0} (set : String → String → S → S) (member : S → F)
    → ((k v : String) (s : S) → member (set k v s) ≡ member s)
    → (attrs : Attrs) (s : S) → member (scan set s attrs) ≡ member s
unfolding scan
member-untouched set member keeps [] s = refl
member-untouched set member keeps ((k, v) ∷ r) s =
    member-untouched set member keeps r (set k v s) ∙ keeps k v s

-- A predicate that every attribute keeps.
pub scan-Keeps :
    {S : Type 0} (set : String → String → S → S) (IsKept : S → Type 0)
    → ((k v : String) (s : S) → IsKept s → IsKept (set k v s))
    → (attrs : Attrs) (s : S) → IsKept s
    → IsKept (scan set s attrs)
unfolding scan
scan-Keeps set IsKept keeps [] s h = h
scan-Keeps set IsKept keeps ((k, v) ∷ r) s h =
    scan-Keeps set IsKept keeps r (set k v s) (keeps k v s h)

-- A member whose new value depends on its old one alone is scanned by itself.
pub member-scan_alone :
    {S F : Type 0} (set : String → String → S → S) (member : S → F) (f : String → String → F → F)
    → ((k v : String) (s : S) → member (set k v s) ≡ f k v (member s))
    → (attrs : Attrs) (s : S) → member (scan set s attrs) ≡ scan f (member s) attrs
unfolding scan
member-scan_alone set member f alone [] s = refl
member-scan_alone set member f alone ((k, v) ∷ r) s =
    member-scan_alone set member f alone r (set k v s) ∙ ap (λ m. scan f m r) (alone k v s)

-- What is done for an attribute that is not there does not matter.
pub scan_without :
    {S : Type 0} (f g : String → String → S → S) (key : String)
    → ((k v : String) (s : S) → str_eq k key ≡ false → f k v s ≡ g k v s)
    → (attrs : Attrs) (s : S) → attribute key attrs ≡ none
    → scan f s attrs ≡ scan g s attrs
unfolding scan
scan_without f g key same [] s absent = refl
scan_without f g key same ((k, v) ∷ r) s absent = elim (Option-cases (attribute key r)) [
  | inr (w, found) ↦ cc (rw found at absent)
  | inl missing ↦ elim (Bool-cases (str_eq k key)) [
    | inl hit ↦ cc (rw (missing, hit) at absent)
    | inr miss ↦
        ap (λ m. scan f m r) (same k v s miss) ∙ scan_without f g key same r (g k v s) missing
  ]
]
