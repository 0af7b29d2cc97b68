-- ===== src/Pubsub/Builds.antt =====
-- The trees of the stanzas that need more than the laws of stanzas: a namespace or a limit that is
-- set twice, and items that a loop adds.
use mathlib.Core.Path.{fun_ext}
use libmio.Base.{
  ◌≡◌, ap, sym, ◌∙◌, String, List, [], ◌∷◌, Option, none, some, str_eq, if◌then◌else◌, inl, inr,
  Bool-cases, ◌==◌,
}
use libmio.Decimal.{ℤ, write, truncate}
use libmio.Schedule.{as_unsigned}
use libmio.Xml.{Strophe, Tree, Forest, element, nil, cons, snoc}
use libmio.Xml.Laws.{tree_laws, join, join-nil, join_assoc, snoc-join}
use libmio.Pubsub.{Client, server_of, concat, set_id}
use libmio.Node.{publish_stanza}
use libmio.Node.Items.{
  add_item, items_of, item_recent_stanza, add_items, items_recent_stanza, set_max_items,
  set_if_alone,
}
use libmio.Affiliations.Requests.{affiliation_set_stanza}
use libmio.Pubsub.Calls.{
  attributes, el, one, any, owner, envelope, affiliated, affiliating, limited, item_of,
  items_of_ids, asking, asking_recent,
}

-- The second value of an attribute that is set twice.
pub set_twice :
    (k v w : String) (a : String → Option String)
    → ◌≡◌ {A = String → Option String}
        (λ j. if str_eq k j then some v else if str_eq k j then some w else a j)
        (λ j. if str_eq k j then some v else a j)
set_twice k v w a =
    fun_ext λ j. elim (Bool-cases (str_eq k j)) [ inl hit ↦ rw hit | inr miss ↦ rw miss ]

pub renamed_twice :
    (c : Client) (server kind v w : String) (f : Forest)
    → el "iq" (("type", kind) ∷ ("id", c.uuid) ∷ ("to", concat "pubsub." server) ∷ []) (
        one (
          element
            (some "pubsub")
            (λ j. if str_eq "xmlns" j then some v else if str_eq "xmlns" j then some w else none)
            f))
      ≡ envelope c server kind v f
renamed_twice c server kind v w f =
    ap
      (λ a.
        el "iq" (("type", kind) ∷ ("id", c.uuid) ∷ ("to", concat "pubsub." server) ∷ [])
          (one (element (some "pubsub") a f)))
      (set_twice "xmlns" v w (λ _. none))

module _ (x : Strophe) where
  open x use {
    Stanza, tree, new, set_name, set_attribute, add_child, tree-add_child, tree-set_attribute,
  }

  -- The stanza, if there is one, with this tree.
  abbrev pub Builds : Option Stanza → Tree → Type 0
  Builds none t = ⊥
  Builds (some s) t = tree s ≡ t

  pub publish-Builds :
      (c : Client) (item : Stanza) (node server : String)
      → server_of c (some node) ≡ some server
      → Builds
          (publish_stanza x c item node)
          (envelope c server "set" any (one (el "publish" (("node", node) ∷ []) (one (tree item)))))
  publish-Builds c item node server at = rw at (simp tree_laws)

  pub affiliate-Builds :
      (c : Client) (node jid name server : String)
      → server_of c (some node) ≡ some server
      → Builds (affiliation_set_stanza x c node jid name) (affiliating c server node jid name)
  affiliate-Builds c node jid name server at =
      rw at
        (simp tree_laws (renamed_twice c server "set" owner any (one (affiliated node jid name))))

  add_items-tree :
      (ids : List (Option String)) (s : Stanza) (n : Option String) (a : String → Option String)
      (f : Forest)
      → tree s ≡ element n a f
      → tree (add_items x ids s) ≡ element n a (join f (items_of_ids ids))
  unfolding add_items items_of_ids
  add_items-tree [] s n a f is = is ∙ ap (element n a) (sym (join-nil f))
  add_items-tree (none ∷ ids) s n a f is = add_items-tree ids s n a f is
  add_items-tree (some id ∷ ids) s n a f is =
      add_items-tree ids (add_item x id s) n a (snoc f (item_of id))
        (tree-add_child s (set_id x (set_name new "item") id) ∙ rw is (simp tree_laws))
      ∙ ap (element n a) (
          ap (λ g. join g (items_of_ids ids)) (snoc-join f (item_of id))
          ∙ join_assoc f (cons (item_of id) nil) (items_of_ids ids))

  listed-tree :
      (node : String) (ids : List (Option String))
      → tree (add_items x ids (items_of x node))
        ≡ el "items" (("node", node) ∷ []) (items_of_ids ids)
  listed-tree node ids =
      add_items-tree ids (items_of x node) (some "items") (attributes (("node", node) ∷ [])) nil
        (simp tree_laws)

  items-tree :
      (node : String) (max_items : ℤ) (ids : List (Option String))
      → tree (
          set_max_items x max_items
            (set_if_alone x max_items ids (add_items x ids (items_of x node))))
        ≡ el "items" (limited max_items (("node", node) ∷ [])) (items_of_ids ids)
  unfolding add_items items_of_ids
  items-tree node max_items [] =
      let v = truncate 15 (write (as_unsigned max_items)) in
      elim (Bool-cases (as_unsigned max_items == 0)) [
        | inl hit ↦ rw hit (simp tree_laws)
        | inr miss ↦ rw miss (
            simp tree_laws (
              ap (λ a. element (some "items") a nil)
                (set_twice "max_items" v v (attributes (("node", node) ∷ [])))))
      ]
  items-tree node max_items (id ∷ ids) = elim (Bool-cases (as_unsigned max_items == 0)) [
    | inl hit ↦ rw hit (listed-tree node (id ∷ ids))
    | inr miss ↦ rw miss (simp (tree-set_attribute, listed-tree node (id ∷ ids)))
  ]

  pub recent-Builds :
      (c : Client) (node server : String) (max_items : ℤ) (item_id : Option String)
      → server_of c (some node) ≡ some server
      → Builds
          (item_recent_stanza x c node max_items item_id)
          (asking_recent c server node max_items item_id)
  recent-Builds c node server max_items (some id) at = rw at (simp tree_laws)
  recent-Builds c node server max_items none at = elim (Bool-cases (as_unsigned max_items == 0)) [
    | inl hit ↦ rw (at, hit) (simp tree_laws)
    | inr miss ↦ rw (at, miss) (simp tree_laws)
  ]

  pub all_recent-Builds :
      (c : Client) (node server : String) (max_items : ℤ) (item_id : List (Option String))
      → server_of c (some node) ≡ some server
      → Builds
          (items_recent_stanza x c node max_items item_id)
          (asking c server node (limited max_items (("node", node) ∷ [])) (items_of_ids item_id))
  all_recent-Builds c node server max_items ids at =
      rw at (simp (tree_laws, items-tree node max_items ids))
