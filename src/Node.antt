-- ===== src/Node.antt =====
-- Event nodes: the requests of src/mio_node.c.
pub mod Items
pub mod Devices
pub mod Types
use libmio.Base.{String, Option, none, some, ◌>>=◌}
use libmio.Xml.{Strophe}
use libmio.Response.{Code}
use libmio.Pubsub.{
  Client, AnswerHandler, error_handler, type_handler, Sender, Iq, if_authenticated, set_ns,
  set_type, pubsub_set_stanza_new, pubsub_iq_get_stanza_new, closed, add_inner, owned, value_of,
}

-- `mio_node_type_t`
pub data NodeType : Type 0 where
  unknown leaf collection event : NodeType

-- A stanza `iq`, and its first descendants, one in the other: `pubsub`, `configure` and `x`.
pub record Config (Stanza : Type 0) : Type 0 where
  pub iq : Iq Stanza
  pub configure : Stanza
  pub form : Stanza

module _ (x : Strophe) where
  open x use {Stanza, new, set_name, set_attribute, set_text, add_child}

  -- An element `field` with a value.
  abbrev pub field_of : (var value : String) → Stanza
  field_of var value = add_child (set_attribute (set_name new "field") "var" var) (value_of x value)

  abbrev pub form_type : String
  form_type = "http://jabber.org/protocol/pubsub#node_config"

  -- The field that names the kind of form.
  abbrev pub form_field : Stanza
  form_field =
      add_child (set_type x (set_attribute (set_name new "field") "var" "FORM_TYPE") "hidden")
        (value_of x form_type)

  abbrev pub add_field_if_set : String → Option String → Stanza → Stanza
  add_field_if_set var none s = s
  add_field_if_set var (some v) s = add_child s (field_of var v)

  abbrev pub form_new : Stanza
  form_new = set_type x (set_ns x (set_name new "x") "jabber:x:data") "submit"

  -- `mio_item_publish`, and the stanza of `mio_item_publish_nonblocking`
  abbrev pub publish_stanza : Client → Stanza → String → Option Stanza
  publish_stanza c item node = do
    iq ← pubsub_set_stanza_new x c (some node)
    let publish = set_attribute (set_name new "publish") "node" node
    some (closed x (add_inner x iq (add_child publish item)))

  -- The stanza of `mio_node_create`: the form goes only with a title or an access model.
  abbrev pub node_create_stanza : Client → String → (title access : Option String) → Option Stanza
  node_create_stanza c node title access = do
    iq ← pubsub_set_stanza_new x c (some node)
    let create = set_attribute (set_name new "create") "node" node
    let limited = add_child (add_child form_new form_field) (field_of "pubsub#max_items" "500")
    let titled = add_field_if_set "pubsub#title" title limited
    let form = add_field_if_set "pubsub#access_model" access titled
    let configure = add_child (set_name new "configure") form
    let created = add_inner x iq create
    some (elim title [
      | some _ ↦ closed x (add_inner x created configure)
      | none ↦ elim access [
        | some _ ↦ closed x (add_inner x created configure)
        | none ↦ closed x created
      ]
    ])

  -- `mio_node_config_new`, with its parts still apart
  abbrev pub node_config_new : Client → String → NodeType → Option (Config Stanza)
  node_config_new c node type = do
    iq ← pubsub_set_stanza_new x c (some node)
    let form = add_child form_new form_field
    some (record {
      iq = iq;
      configure = set_attribute (set_name new "configure") "node" node;
      form = elim type [
        | leaf ↦ add_child form (field_of "pubsub#node_type" "leaf")
        | collection ↦ add_child form (field_of "pubsub#node_type" "collection")
        | unknown ↦ form
        | event ↦ add_child form (field_of "pubsub#node_type" "leaf")
      ];
    })

  abbrev pub config_closed : Config Stanza → Stanza
  config_closed g = closed x (add_inner x g.iq (add_child g.configure g.form))

  -- The stanza of `mio_node_type_query`
  abbrev pub node_type_query_stanza : Client → String → Option Stanza
  node_type_query_stanza c node = do
    iq ← pubsub_iq_get_stanza_new x c (some node)
    let query = set_ns x (set_name new "query") "http://jabber.org/protocol/disco#info"
    some (add_child iq (set_attribute query "node" node))

  -- The stanza of `mio_node_delete`
  abbrev pub node_delete_stanza : Client → String → Option Stanza
  node_delete_stanza c node = do
    iq ← pubsub_set_stanza_new x c (some node)
    let delete = set_attribute (set_name new "delete") "node" node
    some (closed x (add_inner x (owned x iq) delete))

  -- The stanza of `mio_node_register`
  abbrev pub node_register_stanza : Client → (new_node creation_node : String) → Option Stanza
  node_register_stanza c new_node creation_node = do
    iq ← pubsub_set_stanza_new x c (some creation_node)
    let publish = set_attribute (set_name new "publish") "node" creation_node
    let item = set_attribute (set_name new "item") "id" "current"
    let content = set_ns x (set_name new "data") "http://jabber.org/protocol/mio#service"
    let node_register = set_attribute (set_name new "nodeRegister") "id" new_node
    some (
        closed x
          (add_inner x iq (add_child publish (add_child item (add_child content node_register)))))

  module _ {W : Type 0} (send : Sender Stanza W) where
    -- A request with the handler that looks for an error.
    abbrev pub sent_with : AnswerHandler → Client → W → Option Stanza → Option (Code × W)
    sent_with handler c w stanza = if_authenticated c w (stanza >>= λ s. some (send handler s w))

    unfoldable pub item_publish : Client → Stanza → String → W → Option (Code × W)
    item_publish c item node w = sent_with error_handler c w (publish_stanza c item node)

    unfoldable pub node_create :
        Client → String → (title access : Option String) → W → Option (Code × W)
    node_create c node title access w =
        sent_with error_handler c w (node_create_stanza c node title access)

    unfoldable pub node_type_query : Client → String → W → Option (Code × W)
    node_type_query c node w = sent_with type_handler c w (node_type_query_stanza c node)

    unfoldable pub node_delete : Client → String → W → Option (Code × W)
    node_delete c node w = sent_with error_handler c w (node_delete_stanza c node)

    unfoldable pub node_register :
        Client → (new_node creation_node : String) → W → Option (Code × W)
    node_register c new_node creation_node w =
        sent_with error_handler c w (node_register_stanza c new_node creation_node)

  -- `mio_item_publish_nonblocking`; `send` is `mio_send_nonblocking`.
  unfoldable pub item_publish_nonblocking :
      {W : Type 0} (send : Stanza → W → Code × W) → Client → Stanza → String → W → Option (Code × W)
  item_publish_nonblocking send c item node w =
      if_authenticated c w (publish_stanza c item node >>= λ s. some (send s w))
