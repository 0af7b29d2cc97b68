-- ===== src/Reference/Attributes.antt =====
-- The attributes that a loop sets on a stanza, if they are there.
use libmio.Base.{◌≡◌, refl, String, Option, none, some, arith, str_eq, or_keep, if◌then◌else◌}
use libmio.Xml.{Strophe, Forest, element}
use libmio.Reference.{attribute_if_set}

-- An attribute that is set behind others.
abbrev pub overlay : String → Option String → (String → Option String) → String → Option String
overlay k none a = a
overlay k (some v) a = λ j. if str_eq k j then some v else a j

module _ (x : Strophe) where
  open x use {Stanza, tree, tree-set_attribute}

  pub tree-attribute_if_set :
      (k : String) (o : Option String) (s : Stanza) (n : String) (a : String → Option String)
      (f : Forest)
      → tree s ≡ element (some n) a f
      → tree (attribute_if_set x k o s) ≡ element (some n) (overlay k o a) f
  tree-attribute_if_set k none s n a f e = e
  tree-attribute_if_set k (some v) s n a f e = rw (tree-set_attribute s k v, e)

pub overlay_lem :
    (k : String) (o : Option String) (a : String → Option String) (j : String)
    → overlay k o a j ≡ (if str_eq k j then or_keep o (a j) else a j)
overlay_lem k none a j = ground arith
overlay_lem k (some v) a j = refl
