-- ===== src/Node/Items.antt =====
-- Queries for items: `mio_item_recent_get` and `mio_items_recent_get` of src/mio_pubsub.c, and the
-- queries that call the first.
use libmio.Base.{String, List, [], ◌∷◌, Option, none, some, ◌==◌, if◌then◌else◌, ◌>>=◌}
use libmio.Decimal.{ℤ, pos, write, truncate}
use libmio.Xml.{Strophe}
use libmio.Response.{Code}
use libmio.Schedule.{as_unsigned}
use libmio.Pubsub.{
  Client, AnswerHandler, or_recent, meta_handler, references_handler, schedule_handler, Sender,
  if_authenticated, set_id, pubsub_get_stanza_new, closed, add_inner,
}

module _ (x : Strophe) where
  open x use {Stanza, new, set_name, set_attribute, add_child}

  -- `snprintf(max_items_s, 16, "%u", max_items)`, for the attribute of that name; none for 0
  abbrev pub set_max_items : ℤ → Stanza → Stanza
  set_max_items max_items items =
      if as_unsigned max_items == 0
      then items
      else set_attribute items "max_items" (truncate 15 (write (as_unsigned max_items)))

  -- An element `item` with an id.
  abbrev pub add_item : String → Stanza → Stanza
  add_item id items = add_child items (set_id x (set_name new "item") id)

  abbrev pub items_of : String → Stanza
  items_of node = set_attribute (set_name new "items") "node" node

  -- The stanza of `mio_item_recent_get`
  abbrev pub item_recent_stanza :
      Client → String → (max_items : ℤ) (item_id : Option String) → Option Stanza
  item_recent_stanza c node max_items item_id = do
    iq ← pubsub_get_stanza_new x c (some node)
    let items : Stanza = elim item_id [
      | some id ↦ add_item id (items_of node)
      | none ↦ set_max_items max_items (items_of node)
    ]
    some (closed x (add_inner x iq items))

  -- The loop of `mio_items_recent_get` over `item_id`, which skips a `NULL`
  unfoldable pub add_items : List (Option String) → Stanza → Stanza
  add_items [] items = items
  add_items (none ∷ ids) items = add_items ids items
  add_items (some id ∷ ids) items = add_items ids (add_item id items)

  -- Without ids, the attribute is set before it is set anyway.
  abbrev pub set_if_alone : ℤ → List (Option String) → Stanza → Stanza
  set_if_alone max_items [] items = set_max_items max_items items
  set_if_alone max_items (_ ∷ _) items = items

  -- The stanza of `mio_items_recent_get`
  abbrev pub items_recent_stanza :
      Client → String → (max_items : ℤ) (item_id : List (Option String)) → Option Stanza
  items_recent_stanza c node max_items item_id = do
    iq ← pubsub_get_stanza_new x c (some node)
    let items = set_if_alone max_items item_id (add_items item_id (items_of node))
    some (closed x (add_inner x iq (set_max_items max_items items)))

  -- The stanza of `mio_meta_query`
  abbrev pub meta_query_stanza : Client → String → Option Stanza
  meta_query_stanza c node = do
    iq ← pubsub_get_stanza_new x c (some node)
    let item = set_attribute (set_name new "item") "id" "meta"
    some (closed x (add_inner x iq (add_child (items_of node) item)))

  module _ {W : Type 0} (send : Sender Stanza W) where
    unfoldable pub item_recent_get :
        Client
        → String
        → (max_items : ℤ) (item_id : Option String) → Option AnswerHandler
        → W
        → Option (Code × W)
    item_recent_get c node max_items item_id handler w =
        if_authenticated c w
          (item_recent_stanza c node max_items item_id >>= λ s. some (send (or_recent handler) s w))

    unfoldable pub items_recent_get :
        Client
        → String
        → (max_items : ℤ) (item_id : List (Option String)) → Option AnswerHandler
        → W
        → Option (Code × W)
    items_recent_get c node max_items item_id handler w =
        if_authenticated c w (
          items_recent_stanza c node max_items item_id >>= λ s. some (send (or_recent handler) s w))

    -- `mio_meta_query` of src/mio_meta.c
    unfoldable pub meta_query : Client → String → W → Option (Code × W)
    meta_query c node w =
        if_authenticated c w (meta_query_stanza c node >>= λ s. some (send meta_handler s w))

    -- `mio_references_query` of src/mio_reference.c
    unfoldable pub references_query : Client → String → W → Option (Code × W)
    unfolding item_recent_get
    references_query c node w =
        item_recent_get c node (pos 1) (some "references") (some references_handler) w

    -- `mio_schedule_query` of src/mio_schedule.c
    unfoldable pub schedule_query : Client → String → W → Option (Code × W)
    unfolding item_recent_get
    schedule_query c node w =
        item_recent_get c node (pos 1) (some "schedule") (some schedule_handler) w
