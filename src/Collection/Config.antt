-- ===== src/Collection/Config.antt =====
-- The configuration of a collection: `mio_collection_config_child_add` and
-- `mio_collection_config_parent_add`, and the requests that use them, of src/mio_collection.c.
use libmio.Base.{String, Bool, true, false, Option, none, some, str_eq, if◌then◌else◌, ◌>>=◌}
use libmio.Xml.{Tree, Forest, element, text, nil, cons, snoc}
use libmio.Response.{Code}

-- The field of a form with one value.
abbrev pub value_tree : String → Tree
value_tree v = element (some "value") (λ _. none) (cons (text v) nil)

abbrev pub field_tree : (var : String) → Forest → Tree
field_tree var f = element (some "field") (λ k. if str_eq "var" k then some var else none) f

-- Whether `xmpp_stanza_get_attribute` finds the variable.
abbrev pub is_field : String → Tree → Bool
is_field var (element n a f) = elim (a "var") [ some v ↦ str_eq v var | none ↦ false ]
is_field var (text v) = false

abbrev pub children : String
children = "pubsub#children"

abbrev pub parents : String
parents = "pubsub#collection"

-- `get_text` is `xmpp_stanza_get_text`, which returns `NULL` for a stanza without text.
module _ (get_text : Tree → Option String) where
  -- The loop over the values of a field; a comparison with `NULL` is a fault.
  unfoldable pub has_value : String → Forest → Option Bool
  has_value v nil = some false
  has_value v (cons t f) =
      let rest = has_value v f in get_text t >>= λ s. if str_eq s v then some true else rest

  -- A field that was found.
  abbrev pub extend : String → Tree → Option (Code × Tree)
  extend v (element n a f) = has_value v f >>= λ hit.
      if hit
      then some (Code.error_duplicate_entry, element n a f)
      else some (Code.ok, element n a (snoc f (value_tree v)))
  extend v (text s) = none

  -- `mio_collection_config_child_add` for `pubsub#children`, and `mio_collection_config_parent_add`
  -- for `pubsub#collection`, on the fields of a form.
  unfoldable pub config_add : (var : String) → String → Forest → Option (Code × Forest)
  config_add var v nil = some (Code.ok, cons (field_tree var (cons (value_tree v) nil)) nil)
  config_add var v (cons t f) =
      let rest = config_add var v f in
      if is_field var t
      then (extend v t >>= λ (code, u). some (code, cons u f))
      else (rest >>= λ (code, g). some (code, cons t g))
