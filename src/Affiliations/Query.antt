-- ===== src/Affiliations/Query.antt =====
-- The callbacks of the queries of src/mio_affiliations.c.
use libmio.Base.{String, List, Option, none, some, str_eq, if◌then◌else◌, ◌>>=◌}
use libmio.Xml.{Attrs}
use libmio.Xml.Scan.{scan}
use libmio.Response.{
  Response, ResponseType, Packet, PacketType, packet, on_packet, xml_error_handler,
}
use libmio.Handlers.{Reader, starts_only}
use libmio.Answer.{Answering, with_packet}
use libmio.Affiliations.{
  Subscription, Affiliation, AffiliationType, subscription_add, affiliation_add,
}

-- `(mio_packet_t *) response->response`, and a step on the packet that may fault
abbrev pub through_packet :
    {P : Type 0} → Response P → (Packet P → Option (Packet P)) → Option (Response P)
through_packet r f = elim r.response [
  | packet p ↦ f p >>= λ q. some (record r { response = packet q })
  | _ ↦ none
]

-- What a callback keeps of the attributes of a `subscription` element.
pub record Entry : Type 0 where
  pub jid_node : Option String
  pub sub_id : Option String

abbrev pub entry_new : Entry
entry_new = record { jid_node = none; sub_id = none }

abbrev pub subscription_attribute : String → String → Entry → Entry
subscription_attribute k v e = record {
  jid_node = if str_eq k "jid" then some v else if str_eq k "node" then some v else e.jid_node;
  sub_id = if str_eq k "subid" then some v else e.sub_id;
}

-- `mio_XMLstart_subscriptions_query`
unfoldable pub start_subscriptions_query :
    Response (List Subscription) → String → Attrs → Option (Response (List Subscription))
start_subscriptions_query r name attrs =
    if str_eq name "subscriptions"
    then on_packet (record r { response_type = ResponseType.packet })
        (λ p. record p { type = PacketType.subscriptions })
    else if str_eq name "subscription"
    then (let e = scan subscription_attribute entry_new attrs in
        through_packet r (λ p. subscription_add p e.jid_node e.sub_id))
    else if str_eq name "error"
    then some (xml_error_handler attrs r)
    else some r

-- The type that a text names; any other leaves it.
abbrev pub affiliation_type : String → AffiliationType → AffiliationType
affiliation_type v old =
    if str_eq v "none"
    then AffiliationType.none
    else if str_eq v "owner"
    then AffiliationType.owner
    else if str_eq v "member"
    then AffiliationType.member
    else if str_eq v "publisher"
    then AffiliationType.publisher
    else if str_eq v "publish-only"
    then AffiliationType.publish_only
    else if str_eq v "outcast"
    then AffiliationType.outcast
    else old

-- What a callback keeps of the attributes of an `affiliation` element.
pub record Affiliated : Type 0 where
  pub jid_node : Option String
  pub aff : AffiliationType

abbrev pub affiliated_new : Affiliated
affiliated_new = record { jid_node = none; aff = AffiliationType.unknown }

abbrev pub affiliation_attribute : String → String → Affiliated → Affiliated
affiliation_attribute k v e = record {
  jid_node = if str_eq k "jid" then some v else if str_eq k "node" then some v else e.jid_node;
  aff = if str_eq k "affiliation" then affiliation_type v e.aff else e.aff;
}

-- `mio_XMLstart_acl_affiliations_query`
unfoldable pub start_affiliations_query :
    Response (List Affiliation) → String → Attrs → Option (Response (List Affiliation))
start_affiliations_query r name attrs =
    if str_eq name "affiliations"
    then on_packet (record r { response_type = ResponseType.packet })
        (λ p. record p { type = PacketType.affiliations })
    else if str_eq name "affiliation"
    then (let e = scan affiliation_attribute affiliated_new attrs in
        through_packet r (λ p. affiliation_add p e.jid_node e.aff))
    else if str_eq name "error"
    then some (xml_error_handler attrs r)
    else some r

-- One attribute of the `subscription` element that answers a subscription.
abbrev pub subscribe_attribute : {P : Type 0} → String → String → Response P → Response P
subscribe_attribute k v r =
    if str_eq k "subscription"
    then (if str_eq v "subscribed" then record r { response_type = ResponseType.ok } else r)
    else r

-- `mio_XMLstart_subscribe`
unfoldable pub start_subscribe : {P : Type 0} → Response P → String → Attrs → Option (Response P)
start_subscribe r name attrs =
    if str_eq name "subscription"
    then some (scan subscribe_attribute r attrs)
    else if str_eq name "error"
    then some (xml_error_handler attrs r)
    else some r

abbrev pub subscriptions_reader : Reader (Response (List Subscription))
subscriptions_reader = starts_only start_subscriptions_query

abbrev pub affiliations_reader : Reader (Response (List Affiliation))
affiliations_reader = starts_only start_affiliations_query

abbrev pub subscribe_reader : {P : Type 0} → Reader (Response P)
subscribe_reader = starts_only start_subscribe

-- `mio_handler_subscriptions_query`
abbrev pub handler_subscriptions_query : Answering (List Subscription)
handler_subscriptions_query = with_packet subscriptions_reader

-- `mio_handler_acl_affiliations_query`
abbrev pub handler_affiliations_query : Answering (List Affiliation)
handler_affiliations_query = with_packet affiliations_reader

-- `mio_handler_subscribe`
abbrev pub handler_subscribe : {P : Type 0} → Answering P
handler_subscribe = record { prepare = λ r. r; reader = subscribe_reader; finish = λ r. r }
