-- ===== src/Xml/Laws.antt =====
-- The laws of libstrophe's stanzas as a set for `simp`, and lists of trees behind each other.
use libmio.Base.{◌≡◌, refl, ap, String, none}
use libmio.Xml.{
  Strophe, Tree, Forest, cons, snoc, element, text, nil, with_name, with_attribute, with_child,
}

module _ (x : Strophe) where
  open x use {Stanza, tree, new, set_name, set_attribute, set_text, add_child}

  pub tree-new : tree new ≡ element none (λ _. none) nil
  tree-new = x.tree-new

  pub tree-set_name : (s : Stanza) (n : String) → tree (set_name s n) ≡ with_name n (tree s)
  tree-set_name = x.tree-set_name

  pub tree-set_attribute :
      (s : Stanza) (k v : String) → tree (set_attribute s k v) ≡ with_attribute k v (tree s)
  tree-set_attribute = x.tree-set_attribute

  pub tree-set_text : (v : String) → tree (set_text new v) ≡ text v
  tree-set_text = x.tree-set_text

  pub tree-add_child : (s c : Stanza) → tree (add_child s c) ≡ with_child (tree c) (tree s)
  tree-add_child = x.tree-add_child

pub ruleset tree_laws = (tree-new, tree-set_name, tree-set_attribute, tree-set_text, tree-add_child)

abbrev pub join : Forest → Forest → Forest
join nil g = g
join (cons t f) g = cons t (join f g)

pub join-nil : (f : Forest) → join f nil ≡ f
join-nil nil = refl
join-nil (cons t f) = ap (cons t) (join-nil f)

pub join_assoc : (f g h : Forest) → join (join f g) h ≡ join f (join g h)
join_assoc nil g h = refl
join_assoc (cons t f) g h = ap (cons t) (join_assoc f g h)

pub snoc-join : (f : Forest) (t : Tree) → snoc f t ≡ join f (cons t nil)
snoc-join nil t = refl
snoc-join (cons u f) t = ap (cons u) (snoc-join f t)
