-- ===== src/Pubsub.antt =====
-- The stanzas of requests: src/mio_pubsub.c, with `mio_get_server` of src/mio_connection.c.
pub mod Calls
pub mod Builds
pub mod Requests
use Prim.Native.Char.{code}
use libmio.Base.{String, Bool, true, false, Option, none, some, ◌==◌, if◌then◌else◌, ◌>>=◌}
use libmio.Xml.{Strophe}
use libmio.Response.{Code}

-- `mio_get_server`: what stands behind the first `@`
unfoldable pub get_server : String → Option String
get_server String.[] = none
get_server (String.◌∷◌ c s) = let rest = get_server s in if code c == b'@' then some s else rest

-- What a request reads of the connection, and the id that `uuid_generate` makes for it.
pub record Client : Type 0 where
  pub authenticated : Bool
  pub jid : String
  pub uuid : String

-- `%s%s`
unfoldable pub concat : String → String → String
concat String.[] t = t
concat (String.◌∷◌ c s) t = String.◌∷◌ c (concat s t)

-- The server of a node, or else the one of the user; `strlen` of a `NULL` is a fault.
abbrev pub server_of : Client → Option String → Option String
server_of c node = elim (node >>= get_server) [ some s ↦ some s | none ↦ get_server c.jid ]

-- The handlers that requests are sent with.
pub data AnswerHandler : Type 0 where
  error_handler subscribe_handler subscriptions_handler affiliations_handler : AnswerHandler
  children_handler parents_handler type_handler recent_handler : AnswerHandler
  meta_handler references_handler schedule_handler : AnswerHandler

-- The handler that is asked for, or the default one.
abbrev pub or_recent : Option AnswerHandler → AnswerHandler
or_recent none = recent_handler
or_recent (some h) = h

-- `mio_send_blocking`, with a handler.
abbrev pub Sender : Type 0 → Type 0 → Type 0
Sender Stanza W = AnswerHandler → Stanza → W → Code × W

-- The stanza `iq`, and its child `iq->xmpp_stanza->children`, to which the requests still add.
pub record Iq (Stanza : Type 0) : Type 0 where
  pub outer : Stanza
  pub inner : Stanza

-- The test that most requests start with.
abbrev pub if_authenticated : {W : Type 0} → Client → W → Option (Code × W) → Option (Code × W)
if_authenticated c w rest = if c.authenticated then rest else some (Code.error_disconnected, w)

module _ (x : Strophe) where
  open x use {Stanza, new, set_name, set_attribute, set_text, add_child}

  -- `xmpp_stanza_set_ns`, `xmpp_stanza_set_type` and `xmpp_stanza_set_id`
  abbrev pub set_ns : Stanza → String → Stanza
  set_ns s ns = set_attribute s "xmlns" ns

  abbrev pub set_type : Stanza → String → Stanza
  set_type s type = set_attribute s "type" type

  abbrev pub set_id : Stanza → String → Stanza
  set_id s id = set_attribute s "id" id

  -- `mio_pubsub_stanza_new`
  abbrev pub pubsub_stanza_new : Client → Option String → Option (Iq Stanza)
  pubsub_stanza_new c node = do
    server ← server_of c node
    some (record {
      outer =
          set_attribute (set_attribute (set_name new "iq") "to" (concat "pubsub." server)) "id"
            c.uuid;
      inner = set_ns (set_name new "pubsub") "http://jabber.org/protocol/pubsub";
    })

  -- `mio_pubsub_set_stanza_new` and `mio_pubsub_get_stanza_new`
  abbrev pub pubsub_set_stanza_new : Client → Option String → Option (Iq Stanza)
  pubsub_set_stanza_new c node = do
    iq ← pubsub_stanza_new c node
    some (record iq { outer = set_type iq.outer "set" })

  abbrev pub pubsub_get_stanza_new : Client → Option String → Option (Iq Stanza)
  pubsub_get_stanza_new c node = do
    iq ← pubsub_stanza_new c node
    some (record iq { outer = set_type iq.outer "get" })

  -- `mio_pubsub_iq_stanza_new`
  abbrev pub pubsub_iq_stanza_new : Client → Option String → Option Stanza
  pubsub_iq_stanza_new c node = do
    server ← server_of c node
    let addressed = set_attribute (set_name new "iq") "to" (concat "pubsub." server)
    some (set_attribute (set_attribute addressed "id" c.uuid) "from" c.jid)

  -- `mio_pubsub_iq_get_stanza_new`
  abbrev pub pubsub_iq_get_stanza_new : Client → Option String → Option Stanza
  pubsub_iq_get_stanza_new c node = do iq ← pubsub_iq_stanza_new c node; some (set_type iq "get")

  -- The stanza, once its child is complete.
  abbrev pub closed : Iq Stanza → Stanza
  closed iq = add_child iq.outer iq.inner

  abbrev pub add_inner : Iq Stanza → Stanza → Iq Stanza
  add_inner iq s = record iq { inner = add_child iq.inner s }

  -- The child belongs to the owner of a node.
  abbrev pub owned : Iq Stanza → Iq Stanza
  owned iq = record iq { inner = set_ns iq.inner "http://jabber.org/protocol/pubsub#owner" }

  -- An element `value` with a text.
  abbrev pub value_of : String → Stanza
  value_of v = add_child (set_name new "value") (set_text new v)
