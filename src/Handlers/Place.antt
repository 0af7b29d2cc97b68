-- ===== src/Handlers/Place.antt =====
-- What `curr_depth`, `prev_depth` and the stack of parents hold inside a document, and what the two
-- updates do there.
use libmio.Base.{
  suc, ◌≡◌, refl, subst, ◌⊎◌, inl, inr, String, List, [], ◌∷◌, Option, none, some, arith, length,
}
use libmio.Handlers.{
  at_next, open_name, name_of, close, top, Parents, chain, dangling, XmlData, update_start,
  update_end,
}

abbrev pub innermost : List String → Option String
innermost [] = none
innermost (n ∷ _) = some n

abbrev pub links : List String → List (Option String)
links [] = none ∷ []
links (n ∷ p) = some n ∷ links p

abbrev pub before : List String → Parents
before [] = chain []
before (_ ∷ p) = chain (links p)

-- Inside the elements of `path`, behind the start tag of the innermost.
pub record IsFresh (path : List String) (x : XmlData) : Type 0 where
  pub depth : x.curr_depth ≡ length path
  pub deepest : x.prev_depth ≡ length path
  pub name : name_of x.curr_element_name ≡ innermost path
  pub stack : x.parent ≡ before path

-- The same, behind the end tag of a child.
pub record IsLater (path : List String) (x : XmlData) : Type 0 where
  pub depth : x.curr_depth ≡ length path
  pub deepest : x.prev_depth ≡ suc (length path)
  pub stack : x.parent ≡ chain (links path)

abbrev pub IsInside : List String → XmlData → Type 0
IsInside path x = IsFresh path x ⊎ IsLater path x

-- behind the end tag of an element within `path`
abbrev pub IsBehind : List String → XmlData → Type 0
IsBehind [] x = Unit
IsBehind (n ∷ p) x = IsLater (n ∷ p) x

abbrev pub opened : XmlData → String → List String → XmlData
opened x n path = record x {
  prev_element_name = at_next x.curr_element_name;
  curr_element_name = open_name n;
  curr_depth = suc (length path);
  prev_depth = suc (length path);
  parent = chain (links path);
}

pub update_start-opened :
    (path : List String) (x : XmlData) (n : String)
    → IsInside path x
    → update_start x n ≡ some (opened x n path)
unfolding update_start
update_start-opened [] x n h = ground arith
update_start-opened (m ∷ p) x n h = ground arith

pub opened-IsFresh :
    (path : List String) (x : XmlData) (n : String) → IsFresh (n ∷ path) (opened x n path)
opened-IsFresh path x n = ground arith

pub top-opened :
    (path : List String) (x : XmlData) (n : String) → top (opened x n path).parent ≡ innermost path
top-opened [] x n = refl
top-opened (m ∷ p) x n = refl

abbrev closed : XmlData → List String → Parents → XmlData
closed x path p = record x {
  curr_element_name = close x.curr_element_name;
  prev_depth = suc (length path);
  curr_depth = length path;
  parent = p;
}

pub update_end-IsBehind :
    (n : String) (path : List String) (x : XmlData)
    → IsInside (n ∷ path) x
    → (x' : XmlData) × (update_end x ≡ some x')
      × IsBehind path x'
      × (x'.curr_element_name ≡ close x.curr_element_name)
unfolding update_end
update_end-IsBehind n [] x (inl f) = (closed x [] (chain (none ∷ [])), ground arith, tt, refl)
update_end-IsBehind n [] x (inr l) = (closed x [] dangling, ground arith, tt, refl)
update_end-IsBehind n (m ∷ p) x h =
    (closed x (m ∷ p) (chain (links (m ∷ p))), ground arith, ground arith, refl)

pub still-IsInside :
    (n : String) (p : List String) (x x' : XmlData)
    → IsInside (n ∷ p) x
    → IsBehind (n ∷ p) x' ⊎ (x ≡ x')
    → IsInside (n ∷ p) x'
still-IsInside n p x x' h (inl l) = inr l
still-IsInside n p x x' h (inr e) = subst (IsInside (n ∷ p)) e h
