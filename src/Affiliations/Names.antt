-- ===== src/Affiliations/Names.antt =====
-- The name of an entry, which the callbacks of src/mio_affiliations.c take from the attribute `jid`
-- or `node`, whichever comes last.
use libmio.Base.{
  ◌≡◌, refl, ap, ◌∙◌, ◌⊎◌, inl, inr, String, Option, none, some, str_eq, if◌then◌else◌,
}
use libmio.Xml.{Attrs, attribute, Distinct}
use libmio.Xml.Scan.{scan, member-scan, member-scan_alone, scan_without}

-- Exactly one of the two attributes is there.
abbrev pub IsNamed : (String → Option String) → String → Type 0
IsNamed a v = ((a "jid" ≡ some v) × (a "node" ≡ none)) ⊎ ((a "node" ≡ some v) × (a "jid" ≡ none))

abbrev by_either : String → String → Option String → Option String
by_either k v old = if str_eq k "jid" then some v else if str_eq k "node" then some v else old

abbrev by_key : String → String → String → Option String → Option String
by_key key k v old = if str_eq k key then some v else old

scan-by_key :
    (key v : String) (attrs : Attrs)
    → Distinct attrs
    → attribute key attrs ≡ some v
    → scan (by_key key) none attrs ≡ some v
scan-by_key key v attrs once here =
    member-scan (by_key key) (λ m. m) key (λ w _. some w) (λ _ _ _. refl) attrs none once ∙ rw here

pub scan-IsNamed :
    {S : Type 0} (set : String → String → S → S) (name : S → Option String)
    → ((k v : String) (s : S) → name (set k v s) ≡ by_either k v (name s))
    → (attrs : Attrs) (s : S) (v : String) → name s ≡ none
    → Distinct attrs
    → IsNamed (λ k. attribute k attrs) v
    → name (scan set s attrs) ≡ some v
scan-IsNamed set name sets attrs s v new once (inl (here, absent)) =
    member-scan_alone set name by_either sets attrs s
    ∙ ap (λ m. scan by_either m attrs) new
    ∙ scan_without by_either (by_key "jid") "node" (λ k w old miss. rw miss) attrs none absent
    ∙ scan-by_key "jid" v attrs once here
scan-IsNamed set name sets attrs s v new once (inr (here, absent)) =
    member-scan_alone set name by_either sets attrs s
    ∙ ap (λ m. scan by_either m attrs) new
    ∙ scan_without by_either (by_key "node") "jid" (λ k w old miss. rw miss) attrs none absent
    ∙ scan-by_key "node" v attrs once here
