-- ===== src/Handlers/Renamed.antt =====
-- A reader whose start callback sets the names itself pushes other names on the stack of parents.
-- Where it does not look at them, it reads what it would read otherwise.
use libmio.Base.{
  suc, ◌+◌, ◌-◌, ◌≡◌, refl, ap, sym, subst, ◌∙◌, String, Bool, true, false, inl, inr, List, [], ◌∷◌,
  map, Option, none, some, arith, length, ltb, if◌then◌else◌, Bool-cases, >>=-eq-some,
}
use mathlib.Core.Option.{some-injective}
use libmio.Xml.{Attrs, Event, start, chars, stop}
use libmio.Handlers.{
  ElementName, open_name, name_of, close, Parents, chain, dangling, XmlData, push_parent,
  pop_parent, update_start, update_end, renamed, top, Reader, step, read, xml_parse, complete,
  xml_parser_data_new,
}
use libmio.Response.{Code}

-- The stack of the one reader, and that of the other. The first comes to dangle no later.
abbrev Stacks : Parents → Parents → Type 0
Stacks dangling q = Unit
Stacks (chain l) q =
    (names : List String) × (q ≡ chain (map some names)) × (length l ≡ length names)

record IsLike (x y : XmlData) : Type 0 where
  name : x.curr_element_name ≡ y.curr_element_name
  depth : x.curr_depth ≡ y.curr_depth
  deepest : x.prev_depth ≡ y.prev_depth
  stack : Stacks x.parent y.parent

push_parent-Stacks :
    (n : Option String) (m : String) (p q r : Parents)
    → Stacks p q
    → push_parent n p ≡ some r
    → (s : Parents) × (push_parent (some m) q ≡ some s) × Stacks r s
push_parent-Stacks n m dangling q r h e = cc
push_parent-Stacks n m (chain l) q r (names, same, long) e = (
  chain (map some (m ∷ names)),
  ap (push_parent (some m)) same,
  subst (λ p. Stacks p (chain (map some (m ∷ names)))) (some-injective _ _ e)
      (m ∷ names, refl, ap suc long),
)

pop_parent-Stacks :
    (p q r : Parents)
    → Stacks p q
    → pop_parent p ≡ some r
    → (s : Parents) × (pop_parent q ≡ some s) × Stacks r s
pop_parent-Stacks dangling q r h e = cc
pop_parent-Stacks (chain []) q r h e = cc
pop_parent-Stacks (chain (_ ∷ [])) q r h e = cc
pop_parent-Stacks (chain (_ ∷ _ ∷ l)) q r ([], same, long) e = absurd (omega arith)
pop_parent-Stacks (chain (_ ∷ _ ∷ l)) q r (a ∷ [], same, long) e = absurd (omega arith)
pop_parent-Stacks (chain (_ ∷ none ∷ l)) q r (a ∷ b ∷ names, same, long) e = (
  chain (map some (b ∷ names)),
  ap pop_parent same,
  subst (λ p. Stacks p (chain (map some (b ∷ names)))) (some-injective _ _ e) tt,
)
pop_parent-Stacks (chain (_ ∷ some n ∷ l)) q r (a ∷ b ∷ names, same, long) e = (
  chain (map some (b ∷ names)),
  ap pop_parent same,
  subst (λ p. Stacks p (chain (map some (b ∷ names)))) (some-injective _ _ e)
      (b ∷ names, refl, omega arith),
)

if_true : {A : Type 0} (b : Bool) (t f : A) {c : A} → b ≡ true → (if b then t else f) ≡ c → t ≡ c
if_true b t f {c = c} h e = subst (λ a. (if a then t else f) ≡ c) h e

if_false : {A : Type 0} (b : Bool) (t f : A) {c : A} → b ≡ false → (if b then t else f) ≡ c → f ≡ c
if_false b t f {c = c} h e = subst (λ a. (if a then t else f) ≡ c) h e

update_start-IsLike :
    (x y x' : XmlData) (n : String)
    → IsLike x y
    → update_start x n ≡ some x'
    → (y' : XmlData) × (update_start (renamed y n) n ≡ some y') × IsLike x' y'
unfolding update_start
update_start-IsLike x y x' n h e =
    let same : ltb x.prev_depth (x.curr_depth + 1) ≡ ltb y.prev_depth (y.curr_depth + 1) =
      λ i. ltb (h.deepest i) (h.depth i + 1) in
    let named : XmlData = record (renamed y n) {
      prev_element_name = open_name n;
      curr_depth = y.curr_depth + 1;
      prev_depth = y.curr_depth + 1;
    } in
    elim (Bool-cases (ltb x.prev_depth (x.curr_depth + 1))) [
      | inl deeper ↦
          let (p, pushed, e1) =
            >>=-eq-some (push_parent (name_of x.curr_element_name) x.parent) _
              (if_true _ _ _ deeper e) in
          let (s, pushed', stacks) =
            push_parent-Stacks (name_of x.curr_element_name) n x.parent y.parent p h.stack pushed in
          let deeper' : ltb y.prev_depth (y.curr_depth + 1) ≡ true = sym same ∙ deeper in
          (
            record named { parent = s },
            rw (deeper', pushed'),
            subst (λ z. IsLike z (record named { parent = s })) (some-injective _ _ e1)
                (record {
                  name = refl;
                  depth = ap (λ d. d + 1) h.depth;
                  deepest = ap (λ d. d + 1) h.depth;
                  stack = stacks;
                }),
          )
      | inr level ↦
          let level' : ltb y.prev_depth (y.curr_depth + 1) ≡ false = sym same ∙ level in
          (
            named,
            rw level',
            subst (λ z. IsLike z named) (some-injective _ _ (if_false _ _ _ level e))
                (record {
                  name = refl;
                  depth = ap (λ d. d + 1) h.depth;
                  deepest = ap (λ d. d + 1) h.depth;
                  stack = h.stack;
                }),
          )
    ]

update_end-IsLike :
    (x y x' : XmlData)
    → IsLike x y
    → update_end x ≡ some x'
    → (y' : XmlData) × (update_end y ≡ some y') × IsLike x' y'
unfolding update_end
update_end-IsLike x y x' h e =
    let same : ltb x.curr_depth x.prev_depth ≡ ltb y.curr_depth y.prev_depth =
      λ i. ltb (h.depth i) (h.deepest i) in
    let up : XmlData = record y {
      curr_element_name = close y.curr_element_name;
      prev_depth = y.curr_depth;
      curr_depth = y.curr_depth - 1;
    } in
    elim (Bool-cases (ltb x.curr_depth x.prev_depth)) [
      | inl behind ↦
          let (p, popped, e1) = >>=-eq-some (pop_parent x.parent) _ (if_true _ _ _ behind e) in
          let (s, popped', stacks) = pop_parent-Stacks x.parent y.parent p h.stack popped in
          let behind' : ltb y.curr_depth y.prev_depth ≡ true = sym same ∙ behind in
          (
            record up { parent = s },
            rw (behind', popped'),
            subst (λ z. IsLike z (record up { parent = s })) (some-injective _ _ e1)
                (record {
                  name = ap close h.name;
                  depth = ap (λ d. d - 1) h.depth;
                  deepest = h.depth;
                  stack = stacks;
                }),
          )
      | inr leaf ↦
          let leaf' : ltb y.curr_depth y.prev_depth ≡ false = sym same ∙ leaf in
          (
            up,
            rw leaf',
            subst (λ z. IsLike z up) (some-injective _ _ (if_false _ _ _ leaf e))
                (record {
                  name = ap close h.name;
                  depth = ap (λ d. d - 1) h.depth;
                  deepest = h.depth;
                  stack = h.stack;
                }),
          )
    ]

module _ {S : Type 0} where
  -- The start callback looks neither at the element before nor at the one around.
  abbrev pub IsBlind : Reader S → Type 0
  IsBlind r =
      (s : S) (p p' : ElementName) (q q' : Option String) (n : String) (a : Attrs)
      → r.at_start s p q n a ≡ r.at_start s p' q' n a

  abbrev pub renaming : Bool → Reader S → Reader S
  renaming b r = record r { renames = b }

  module _ (r : Reader S) (blind : IsBlind r) where
    step-IsLike :
        (x y x' : XmlData) (s t : S) (e : Event)
        → IsLike x y
        → step (renaming false r) (x, s) e ≡ some (x', t)
        → (y' : XmlData) × (step (renaming true r) (y, s) e ≡ some (y', t)) × IsLike x' y'
    step-IsLike x y x' s t (start n a) h e =
        let (z, started, e1) = >>=-eq-some (update_start x n) _ e in
        let (u, entered, e2) =
          >>=-eq-some (r.at_start s z.prev_element_name (top z.parent) n a) _ e1 in
        let (y', started', alike) = update_start-IsLike x y z n h started in
        let same = some-injective _ _ e2 in
        (
          y',
          rw
              (
                started',
                blind s y'.prev_element_name z.prev_element_name (top y'.parent) (top z.parent) n a,
                entered,
              )
              (ap (λ w. some (y', w.1)) same),
          subst (λ w. IsLike w.0 y') same alike,
        )
    step-IsLike x y x' s t (chars v) h e =
        let (u, filled, e1) = >>=-eq-some (r.at_chars s (name_of x.curr_element_name) v) _ e in
        let same = some-injective _ _ e1 in
        let filled' : r.at_chars s (name_of y.curr_element_name) v ≡ some u =
          ap (λ c. r.at_chars s (name_of c) v) (sym h.name) ∙ filled in
        (y, rw filled' (ap (λ w. some (y, w.1)) same), subst (λ w. IsLike w.0 y) same h)
    step-IsLike x y x' s t (stop n) h e =
        let (z, ended, e1) = >>=-eq-some (update_end x) _ e in
        let (y', ended', alike) = update_end-IsLike x y z h ended in
        let same = some-injective _ _ e1 in
        (y', rw ended' (ap (λ w. some (y', w.1)) same), subst (λ w. IsLike w.0 y') same alike)

    read-IsLike :
        (es : List Event) (x y x' : XmlData) (s t : S)
        → IsLike x y
        → read (renaming false r) (x, s) es ≡ some (x', t)
        → (y' : XmlData) × (read (renaming true r) (y, s) es ≡ some (y', t))
    unfolding read
    read-IsLike [] x y x' s t h e = (y, ap (λ w. some (y, w.1)) (some-injective _ _ e))
    read-IsLike (e ∷ es) x y x' s t h eq =
        let ((z, u), stepped, e1) = >>=-eq-some (step (renaming false r) (x, s) e) _ eq in
        let (y1, stepped', alike) = step-IsLike x y z s u e h stepped in
        let (y', readable) = read-IsLike es z y1 x' u t alike e1 in (y', rw (stepped', readable))

    -- What a document yields where the callback leaves the names alone, it yields where the
    -- callback sets them.
    pub xml_parse-renaming :
        (es : List Event) (s t : S)
        → xml_parse (renaming false r) s (complete es) ≡ some (Code.ok, t)
        → xml_parse (renaming true r) s (complete es) ≡ some (Code.ok, t)
    unfolding xml_parse
    xml_parse-renaming es s t e =
        let ((x, u), readable, e1) =
          >>=-eq-some (read (renaming false r) (xml_parser_data_new, s) es) _ e in
        let (y, readable') =
          read-IsLike es xml_parser_data_new xml_parser_data_new x s u
            (record { name = refl; depth = refl; deepest = refl; stack = ([], refl, refl) })
            readable in
        rw readable' (ap (λ w. some (Code.ok, w.1)) (some-injective _ _ e1))
