-- ===== src/Affiliations/Requests.antt =====
-- The requests of src/mio_affiliations.c.
use libmio.Base.{
  String, Bool, true, false, List, [], ◌∷◌, Option, some, str_eq, if◌then◌else◌, ◌>>=◌,
}
use libmio.Xml.{Strophe}
use libmio.Response.{Code, Response, ResponseType, packet}
use libmio.Pubsub.{
  Client, error_handler, subscribe_handler, subscriptions_handler, affiliations_handler, Sender, Iq,
  if_authenticated, set_ns, pubsub_set_stanza_new, pubsub_get_stanza_new, closed, add_inner, owned,
}
use libmio.Reference.{attribute_if_set}
use libmio.Affiliations.{Subscription, AffiliationType}

-- The text for a type; the source refuses any other number.
abbrev pub affiliation_name : AffiliationType → Option String
affiliation_name AffiliationType.none = some "none"
affiliation_name AffiliationType.owner = some "owner"
affiliation_name AffiliationType.member = some "member"
affiliation_name AffiliationType.publisher = some "publisher"
affiliation_name AffiliationType.publish_only = some "publish-only"
affiliation_name AffiliationType.outcast = some "outcast"
affiliation_name AffiliationType.unknown = Option.none

-- The loop of `mio_subscribe`
unfoldable pub is_subscribed : String → List Subscription → Bool
is_subscribed node [] = false
is_subscribed node (s ∷ l) =
    let rest = is_subscribed node l in if str_eq s.subscription node then true else rest

module _ (x : Strophe) where
  open x use {Stanza, new, set_name, set_attribute, add_child}

  -- The list of a node, which belongs to its owner, or of the user.
  abbrev pub of_node : Option String → Iq Stanza → Stanza → Iq Stanza
  of_node Option.none iq list = add_inner x iq list
  of_node (some node) iq list = add_inner x (owned x iq) (set_attribute list "node" node)

  -- The stanza of `mio_subscriptions_query`
  abbrev pub subscriptions_query_stanza : Client → Option String → Option Stanza
  subscriptions_query_stanza c node = do
    iq ← pubsub_get_stanza_new x c node
    some (closed x (of_node node iq (set_name new "subscriptions")))

  -- The stanza of `mio_acl_affiliations_query`
  abbrev pub affiliations_query_stanza : Client → Option String → Option Stanza
  affiliations_query_stanza c node = do
    iq ← pubsub_get_stanza_new x c node
    let again = record iq { inner = set_ns x iq.inner "http://jabber.org/protocol/pubsub" }
    some (closed x (of_node node again (set_name new "affiliations")))

  -- The stanza of `mio_acl_affiliation_set`, for the name of a type
  abbrev pub affiliation_set_stanza : Client → (node jid name : String) → Option Stanza
  affiliation_set_stanza c node jid name = do
    iq ← pubsub_set_stanza_new x c (some node)
    let affiliations = set_attribute (set_name new "affiliations") "node" node
    let affiliation = set_attribute (set_name new "affiliation") "jid" jid
    let typed = set_attribute affiliation "affiliation" name
    some (closed x (add_inner x (owned x iq) (add_child affiliations typed)))

  -- The stanza of `mio_unsubscribe`
  abbrev pub unsubscribe_stanza : Client → String → Option String → Option Stanza
  unsubscribe_stanza c node sub_id = do
    iq ← pubsub_set_stanza_new x c (some node)
    let unsubscribe = set_attribute (set_name new "unsubscribe") "node" node
    let own = set_attribute unsubscribe "jid" c.jid
    some (closed x (add_inner x iq (attribute_if_set x "subid" sub_id own)))

  -- The stanza of `mio_subscribe`
  abbrev pub subscribe_stanza : Client → String → Option Stanza
  subscribe_stanza c node = do
    iq ← pubsub_set_stanza_new x c (some node)
    let subscribe = set_attribute (set_name new "subscribe") "node" node
    some (closed x (add_inner x iq (set_attribute subscribe "jid" c.jid)))

  module _ {W : Type 0} (send : Sender Stanza W) where
    unfoldable pub subscriptions_query : Client → Option String → W → Option (Code × W)
    subscriptions_query c node w =
        if_authenticated c w
          (subscriptions_query_stanza c node >>= λ s. some (send subscriptions_handler s w))

    unfoldable pub affiliations_query : Client → Option String → W → Option (Code × W)
    affiliations_query c node w =
        if_authenticated c w
          (affiliations_query_stanza c node >>= λ s. some (send affiliations_handler s w))

    -- `mio_acl_affiliation_set`
    unfoldable pub affiliation_set :
        Client → (node jid : String) → AffiliationType → W → Option (Code × W)
    affiliation_set c node jid type w = if_authenticated c w (elim (affiliation_name type) [
      | Option.none ↦ pubsub_set_stanza_new x c (some node) >>= λ _.
          some (Code.error_unknown_affiliation_type, w)
      | some name ↦ affiliation_set_stanza c node jid name >>= λ s. some (send error_handler s w)
    ])

    unfoldable pub unsubscribe : Client → String → (sub_id : Option String) → W → Option (Code × W)
    unsubscribe c node sub_id w =
        if_authenticated c w
          (unsubscribe_stanza c node sub_id >>= λ s. some (send error_handler s w))

    -- `mio_subscribe`. `query` is `mio_subscriptions_query` of the user's subscriptions with a new
    -- response. A response that is neither an error nor a packet has a `NULL` where the list is read.
    unfoldable pub subscribe :
        (query : W → Option (Code × W × Response (List Subscription)))
        → Client
        → String
        → W
        → Option (Code × W)
    subscribe query c node w = if_authenticated c w (
        query w >>= λ (err, w', r). elim r.response_type [
          | ResponseType.error ↦ some (err, w')
          | _ ↦ elim r.response [
            | packet p ↦
                if is_subscribed node p.payload
                then some (Code.error_already_subscribed, w')
                else (subscribe_stanza c node >>= λ s. some (send subscribe_handler s w'))
            | _ ↦ Option.none
          ]
        ])
