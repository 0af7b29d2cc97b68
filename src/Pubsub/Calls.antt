-- ===== src/Pubsub/Calls.antt =====
-- The requests of src/mio_node.c and src/mio_affiliations.c, and the stanzas that they stand for, as
-- trees.
use libmio.Decimal.{ℤ, pos, write, truncate}
use libmio.Schedule.{as_unsigned}
use libmio.Base.{◌==◌, String, List, [], ◌∷◌, Option, none, some, str_eq, if◌then◌else◌}
use libmio.Xml.{Strophe, Tree, Forest, element, text, nil, cons}
use libmio.Affiliations.{AffiliationType}
use libmio.Pubsub.{
  Client, AnswerHandler, error_handler, type_handler, subscriptions_handler, affiliations_handler,
  concat, or_recent, meta_handler, references_handler, schedule_handler,
}

-- The attributes, the one that was set last first.
abbrev pub attributes : List (String × String) → String → Option String
attributes [] j = none
attributes ((k, v) ∷ r) j = if str_eq k j then some v else attributes r j

abbrev pub el : String → List (String × String) → Forest → Tree
el n a f = element (some n) (attributes a) f

abbrev pub one : Tree → Forest
one t = cons t nil

-- The calls of these files, but `mio_subscribe`, which queries first, and the queries for items.
pub data Call (Stanza : Type 0) : Type 0 where
  publish : (item : Stanza) (node : String) → Call Stanza
  create : (node : String) (title access : Option String) → Call Stanza
  query_type delete : (node : String) → Call Stanza
  register : (new_node creation_node : String) → Call Stanza
  subscriptions affiliations : (node : Option String) → Call Stanza
  affiliate : (node jid : String) (type : AffiliationType) → Call Stanza
  leave : (node : String) (sub_id : Option String) → Call Stanza
  recent :
      (node : String) (max_items : ℤ) (item_id : Option String) (handler : Option AnswerHandler)
      → Call Stanza
  all_recent :
      (node : String) (max_items : ℤ) (item_id : List (Option String))
      (handler : Option AnswerHandler)
      → Call Stanza
  meta references schedule : (node : String) → Call Stanza

abbrev pub handler_of : {S : Type 0} → Call S → AnswerHandler
handler_of (query_type node) = type_handler
handler_of (subscriptions _) = subscriptions_handler
handler_of (affiliations _) = affiliations_handler
handler_of (recent node max_items item_id handler) = or_recent handler
handler_of (all_recent node max_items item_id handler) = or_recent handler
handler_of (meta node) = meta_handler
handler_of (references node) = references_handler
handler_of (schedule node) = schedule_handler
handler_of _ = error_handler

-- The node whose server is asked.
abbrev pub node_of : {S : Type 0} → Call S → Option String
node_of (publish item node) = some node
node_of (create node title access) = some node
node_of (query_type node) = some node
node_of (delete node) = some node
node_of (register new_node creation_node) = some creation_node
node_of (subscriptions asked) = asked
node_of (affiliations asked) = asked
node_of (affiliate node jid type) = some node
node_of (leave node sub_id) = some node
node_of (recent node max_items item_id handler) = some node
node_of (all_recent node max_items item_id handler) = some node
node_of (meta node) = some node
node_of (references node) = some node
node_of (schedule node) = some node

abbrev pub any : String
any = "http://jabber.org/protocol/pubsub"

abbrev pub owner : String
owner = "http://jabber.org/protocol/pubsub#owner"

-- A request of a kind (`set` or `get`) to a server, in a namespace.
abbrev pub envelope : Client → (server kind ns : String) → Forest → Tree
envelope c server kind ns f =
    el "iq" (("type", kind) ∷ ("id", c.uuid) ∷ ("to", concat "pubsub." server) ∷ [])
      (one (el "pubsub" (("xmlns", ns) ∷ []) f))

abbrev pub valued : String → Forest
valued v = one (el "value" [] (one (text v)))

abbrev pub field : String → String → Tree
field var v = el "field" (("var", var) ∷ []) (valued v)

abbrev pub of_form : Option String → Option String → Forest
of_form none none = nil
of_form none (some a) = one (field "pubsub#access_model" a)
of_form (some t) none = one (field "pubsub#title" t)
of_form (some t) (some a) = cons (field "pubsub#title" t) (one (field "pubsub#access_model" a))

-- The form of a new node.
abbrev pub form : Option String → Option String → Tree
form title access = el "x" (("type", "submit") ∷ ("xmlns", "jabber:x:data") ∷ []) (
    cons
      (el "field" (("type", "hidden") ∷ ("var", "FORM_TYPE") ∷ [])
        (valued "http://jabber.org/protocol/pubsub#node_config"))
      (cons (field "pubsub#max_items" "500") (of_form title access)))

-- What follows the element `create`.
abbrev pub configured : Option String → Option String → Forest
configured none none = nil
configured title access = one (el "configure" [] (one (form title access)))

abbrev pub if_there : String → Option String → List (String × String) → List (String × String)
if_there k none a = a
if_there k (some v) a = (k, v) ∷ a

abbrev pub list_of : Client → (server list : String) → Option String → Tree
list_of c server list none = envelope c server "get" any (one (el list [] nil))
list_of c server list (some node) =
    envelope c server "get" owner (one (el list (("node", node) ∷ []) nil))

abbrev pub affiliation_text : AffiliationType → Option String
affiliation_text AffiliationType.none = some "none"
affiliation_text AffiliationType.owner = some "owner"
affiliation_text AffiliationType.member = some "member"
affiliation_text AffiliationType.publisher = some "publisher"
affiliation_text AffiliationType.publish_only = some "publish-only"
affiliation_text AffiliationType.outcast = some "outcast"
affiliation_text AffiliationType.unknown = none

abbrev pub affiliated : (node jid name : String) → Tree
affiliated node jid name =
    el "affiliations" (("node", node) ∷ [])
      (one (el "affiliation" (("affiliation", name) ∷ ("jid", jid) ∷ []) nil))

abbrev pub affiliating : Client → (server node jid name : String) → Tree
affiliating c server node jid name = envelope c server "set" owner (one (affiliated node jid name))

-- A limit goes with the request unless it is 0.
abbrev pub limited : ℤ → List (String × String) → List (String × String)
limited max_items a =
    if as_unsigned max_items == 0
    then a
    else ("max_items", truncate 15 (write (as_unsigned max_items))) ∷ a

abbrev pub item_of : String → Tree
item_of id = el "item" (("id", id) ∷ []) nil

unfoldable pub items_of_ids : List (Option String) → Forest
items_of_ids [] = nil
items_of_ids (none ∷ ids) = items_of_ids ids
items_of_ids (some id ∷ ids) = cons (item_of id) (items_of_ids ids)

abbrev pub asking : Client → (server node : String) → List (String × String) → Forest → Tree
asking c server node a f = envelope c server "get" any (one (el "items" a f))

abbrev pub asking_recent : Client → (server node : String) → ℤ → Option String → Tree
asking_recent c server node max_items none =
    asking c server node (limited max_items (("node", node) ∷ [])) nil
asking_recent c server node max_items (some id) =
    asking c server node (("node", node) ∷ []) (one (item_of id))

module _ (x : Strophe) where
  open x use {Stanza, tree}

  -- The request for a call; there is none for an affiliation that is not known.
  abbrev pub request_tree : Client → (server : String) → Call Stanza → Option Tree
  request_tree c server (publish item node) =
      some
        (envelope c server "set" any (one (el "publish" (("node", node) ∷ []) (one (tree item)))))
  request_tree c server (create node title access) = some (
      envelope c server "set" any
        (cons (el "create" (("node", node) ∷ []) nil) (configured title access)))
  request_tree c server (query_type node) = some (
      el "iq"
        (("type", "get") ∷ ("from", c.jid) ∷ ("id", c.uuid) ∷ ("to", concat "pubsub." server) ∷ [])
        (one (
          el "query" (("node", node) ∷ ("xmlns", "http://jabber.org/protocol/disco#info") ∷ [])
            nil)))
  request_tree c server (delete node) =
      some (envelope c server "set" owner (one (el "delete" (("node", node) ∷ []) nil)))
  request_tree c server (register new_node creation_node) = some (
      envelope c server "set" any (
        one (
          el "publish" (("node", creation_node) ∷ []) (
            one (
              el "item" (("id", "current") ∷ []) (
                one (
                  el "data" (("xmlns", "http://jabber.org/protocol/mio#service") ∷ [])
                    (one (el "nodeRegister" (("id", new_node) ∷ []) nil)))))))))
  request_tree c server (subscriptions asked) = some (list_of c server "subscriptions" asked)
  request_tree c server (affiliations asked) = some (list_of c server "affiliations" asked)
  request_tree c server (affiliate node jid type) = elim (affiliation_text type) [
    | none ↦ none
    | some name ↦ some (affiliating c server node jid name)
  ]
  request_tree c server (leave node sub_id) = some (
      envelope c server "set" any (
        one
          (el "unsubscribe" (if_there "subid" sub_id (("jid", c.jid) ∷ ("node", node) ∷ [])) nil)))
  request_tree c server (recent node max_items item_id handler) =
      some (asking_recent c server node max_items item_id)
  request_tree c server (all_recent node max_items item_id handler) =
      some (asking c server node (limited max_items (("node", node) ∷ [])) (items_of_ids item_id))
  request_tree c server (meta node) = some (asking_recent c server node (pos 1) (some "meta"))
  request_tree c server (references node) =
      some (asking_recent c server node (pos 1) (some "references"))
  request_tree c server (schedule node) =
      some (asking_recent c server node (pos 1) (some "schedule"))
