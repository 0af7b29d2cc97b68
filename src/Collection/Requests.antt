-- ===== src/Collection/Requests.antt =====
-- The requests of src/mio_collection.c. Stanzas are their trees here, since the source walks over
-- them.
use libmio.Base.{String, List, [], ◌∷◌, Option, none, some, ◌>>=◌}
use libmio.Xml.{Tree, element, text, trees}
use libmio.Response.{Code, Response, ResponseType, packet}
use libmio.Pubsub.{
  Client, error_handler, children_handler, parents_handler, Sender, Iq, if_authenticated, set_ns,
  pubsub_get_stanza_new, pubsub_iq_get_stanza_new, closed, add_inner, owned,
}
use libmio.Node.{NodeType, Config, node_config_new, config_closed, add_field_if_set}
use libmio.Collection.{Collection}
use libmio.Collection.Config.{config_add, children, parents}

-- The stanza of `mio_collection_node_create`: `create` goes before the configuration.
abbrev pub collection_node_create_stanza : Client → String → (title : Option String) → Option Tree
collection_node_create_stanza c node title = do
  g ← node_config_new trees c node NodeType.collection
  let create = trees.set_attribute (trees.set_name trees.new "create") "node" node
  let titled = add_field_if_set trees "pubsub#title" title g.form
  let created = add_inner trees g.iq create
  some (config_closed trees (record g { iq = created; form = titled }))

-- The stanza that `mio_collection_node_configure` makes of the caller's.
abbrev pub collection_node_configure_stanza : Iq Tree → String → Tree
collection_node_configure_stanza iq node = closed trees (
    add_inner trees (owned trees iq)
      (trees.set_attribute (trees.set_name trees.new "configure") "node" node))

-- The stanza of `mio_collection_children_query`
abbrev pub children_query_stanza : Client → String → Option Tree
children_query_stanza c node = do
  iq ← pubsub_iq_get_stanza_new trees c (some node)
  let query =
      set_ns trees (trees.set_name trees.new "query") "http://jabber.org/protocol/disco#items"
  some (trees.add_child iq (trees.set_attribute query "node" node))

-- The stanza of `mio_collection_parents_query`
abbrev pub parents_query_stanza : Client → String → Option Tree
parents_query_stanza c node = do
  iq ← pubsub_get_stanza_new trees c (some node)
  let configure = trees.set_attribute (trees.set_name trees.new "configure") "node" node
  some (closed trees (add_inner trees (owned trees iq) configure))

module _ (get_text : Tree → Option String) where
  -- A value for a field of the form; the request is the owner's.
  abbrev pub config_value : (var value : String) → Config Tree → Option (Code × Config Tree)
  config_value var v g = elim g.form [
    | element n a f ↦ config_add get_text var v f >>= λ (code, f').
        some (code, record g { iq = owned trees g.iq; form = element n a f' })
    | text s ↦ none
  ]

  -- `mio_collection_config_child_add` and `mio_collection_config_parent_add`
  abbrev pub config_child_add : (child : String) → Config Tree → Option (Code × Config Tree)
  config_child_add child g = config_value children child g

  abbrev pub config_parent_add : (parent : String) → Config Tree → Option (Code × Config Tree)
  config_parent_add parent g = config_value parents parent g

  -- The values of the nodes that a query found; `strlen` of a `NULL` is a fault.
  unfoldable pub add_all : (var : String) → List Collection → Config Tree → Option (Config Tree)
  add_all var [] g = some g
  add_all var (l ∷ ls) g = do v ← l.node; (_, g') ← config_value var v g; add_all var ls g'

  -- `packet->payload` is read where the response says that it has a packet.
  abbrev pub from_answer :
      (var : String) → Response (List Collection) → Config Tree → Option (Config Tree)
  from_answer var r g = elim r.response_type [
    | ResponseType.packet ↦ elim r.response [ packet p ↦ add_all var p.payload g | _ ↦ none ]
    | _ ↦ some g
  ]

  module _ {W : Type 0} (send : Sender Tree W) where
    unfoldable pub collection_node_create :
        Client → String → (title : Option String) → W → Option (Code × W)
    collection_node_create c node title w = collection_node_create_stanza c node title >>= λ s.
        if_authenticated c w (some (send error_handler s w))

    unfoldable pub collection_node_configure : Client → String → Iq Tree → W → Option (Code × W)
    collection_node_configure c node iq w =
        if_authenticated c w
          (some (send error_handler (collection_node_configure_stanza iq node) w))

    unfoldable pub collection_children_query : Client → String → W → Option (Code × W)
    collection_children_query c node w =
        children_query_stanza c node >>= λ s. some (send children_handler s w)

    unfoldable pub collection_parents_query : Client → String → W → Option (Code × W)
    collection_parents_query c node w =
        parents_query_stanza c node >>= λ s. some (send parents_handler s w)

    -- `mio_collection_child_add`. The queries are those above, with what they leave in a new
    -- response; the codes are ignored.
    unfoldable pub collection_child_add :
        (children_query parents_query : String → W → Option (Response (List Collection) × W))
        → Client
        → (child parent : String) → W
        → Option (Code × W)
    collection_child_add children_query parents_query c child parent w = do
      g ← node_config_new trees c parent NodeType.unknown
      (r, w1) ← children_query parent w
      g' ← from_answer children r g
      (_, with_child) ← config_child_add child g'
      let (_, w2) = send error_handler (config_closed trees with_child) w1
      (r', w3) ← parents_query child w2
      h ← node_config_new trees c child NodeType.unknown
      h' ← from_answer parents r' h
      (_, with_parent) ← config_parent_add parent h'
      let (_, w4) = send error_handler (config_closed trees with_parent) w3
      some (Code.ok, w4)
