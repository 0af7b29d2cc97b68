-- ===== src/Xml.antt =====
-- XML as the library meets it: stanzas of libstrophe on the way out, callbacks of expat on the way
-- in. Both are other projects' code. A stanza is read as a tree, `Strophe` is the part of
-- libstrophe's interface that src/mio_*.c calls, and `Reports` says which callbacks expat makes for
-- the text of a tree.
pub mod Scan
pub mod Laws
use libmio.Base.{◌≡◌, refl, String, List, [], ◌∷◌, ◌++◌, Option, none, some, str_eq, if◌then◌else◌}

-- The array that expat hands a start callback: names and values in turn.
abbrev pub Attrs : Type 0
Attrs = List (String × String)

-- The value that such an array has for a name.
abbrev pub attribute : String → Attrs → Option String
attribute k [] = none
attribute k ((j, v) ∷ r) = elim (attribute k r) [
  | some w ↦ some w
  | none ↦ if str_eq j k then some v else none
]

-- Each name stands once, which expat checks.
abbrev pub Distinct : Attrs → Type 0
Distinct [] = Unit
Distinct ((k, v) ∷ r) = (attribute k r ≡ none) × Distinct r

pub data Event : Type 0 where
  start : String → Attrs → Event
  chars : String → Event
  stop : String → Event

mutual
  pub data Tree : Type 0 where
    element : Option String → (String → Option String) → Forest → Tree
    text : String → Tree

  pub data Forest : Type 0 where
    nil : Forest
    cons : Tree → Forest → Forest

abbrev pub snoc : Forest → Tree → Forest
snoc nil t = cons t nil
snoc (cons u f) t = cons u (snoc f t)

abbrev pub with_name : String → Tree → Tree
with_name n (element m a f) = element (some n) a f
with_name n (text t) = text t

abbrev pub with_attribute : String → String → Tree → Tree
with_attribute k v (element none a f) = element none a f
with_attribute k v (element (some n) a f) =
    element (some n) (λ j. if str_eq k j then some v else a j) f
with_attribute k v (text t) = text t

abbrev pub with_child : Tree → Tree → Tree
with_child c (element m a f) = element m a (snoc f c)
with_child c (text t) = text t

-- The calls of libstrophe that build a stanza. Handles are values here: the library finishes a
-- stanza before it adds it to another, and releases only its own reference.
pub record Strophe : Type 1 where
  pub Stanza : Type 0
  pub tree : Stanza → Tree
  pub new : Stanza
  pub set_name : Stanza → String → Stanza
  pub set_attribute : Stanza → String → String → Stanza
  pub set_text : Stanza → String → Stanza
  pub add_child : Stanza → Stanza → Stanza
  pub tree-new : tree new ≡ element none (λ _. none) nil
  pub tree-set_name : (s : Stanza) (n : String) → tree (set_name s n) ≡ with_name n (tree s)
  pub tree-set_attribute :
      (s : Stanza) (k v : String) → tree (set_attribute s k v) ≡ with_attribute k v (tree s)
  pub tree-set_text : (v : String) → tree (set_text new v) ≡ text v
  pub tree-add_child : (s c : Stanza) → tree (add_child s c) ≡ with_child (tree c) (tree s)

-- The callbacks for a tree: the attributes in any order, each text in one piece, as expat reports a
-- text that has no escaped characters and no line ends and that it gets at once, none for the empty
-- text, and nothing for an element without a name, which libstrophe refuses to print.
abbrev mutual
  pub Reports : Tree → List Event → Type 0
  Reports (element none a f) es = ⊥
  Reports (element (some n) a f) es =
      (attrs : Attrs) × (inner : List Event) × Distinct attrs
      × ((k : String) → attribute k attrs ≡ a k)
      × ReportsAll f inner
      × (es ≡ start n attrs ∷ (inner ++ stop n ∷ []))
  Reports (text String.[]) es = es ≡ []
  Reports (text (String.◌∷◌ c v)) es = es ≡ chars (String.◌∷◌ c v) ∷ []

  pub ReportsAll : Forest → List Event → Type 0
  ReportsAll nil es = es ≡ []
  ReportsAll (cons t f) es =
      (xs : List Event) × (ys : List Event) × Reports t xs × ReportsAll f ys × (es ≡ xs ++ ys)

-- Stanzas as the trees themselves.
abbrev pub trees : Strophe
trees = record {
  Stanza = Tree;
  tree = λ t. t;
  new = element none (λ _. none) nil;
  set_name = λ s n. with_name n s;
  set_attribute = λ s k v. with_attribute k v s;
  set_text = λ _ v. text v;
  add_child = λ s c. with_child c s;
  tree-new = refl;
  tree-set_name = λ _ _. refl;
  tree-set_attribute = λ _ _ _. refl;
  tree-set_text = λ _. refl;
  tree-add_child = λ _ _. refl;
}
