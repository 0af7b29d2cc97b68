-- ===== src/Schedule/Publish.antt =====
-- The functions of src/mio_schedule.c that query a node's schedule, change it, and publish it. What
-- the node answers and keeps is an argument.
use libmio.Base.{
  ◌≡◌, ap, ◌∙◌, String, Bool, true, false, List, [], ◌∷◌, map, Option, some, str_eq, if◌then◌else◌,
  ◌>>=◌, length,
}
use libmio.Decimal.{ℤ}
use libmio.Xml.{Strophe}
use libmio.Response.{Code, Response, ResponseType, PacketType, packet, response_new}
use libmio.Reference.Children.{is_packet, packet_of}
use libmio.Schedule.{Event, event_renumber, event_merge, event_remove, event_to_item}
use libmio.Schedule.Events.{sent}
use libmio.Schedule.Item.{AreSent}

-- `mio_schedule_query` and `mio_item_publish`, with all that lies between the two ends.
pub record Remote (W : Type 0) (x : Strophe) : Type 0 where
  pub schedule_query : W → String → W × Response (List Event)
  pub publish : W → x.Stanza → String → Response (List Event) → W × Code × Response (List Event)

abbrev pub is_schedule : PacketType → Bool
is_schedule PacketType.schedule = true
is_schedule _ = false

-- What the query found, handed on.
abbrev pub handed_on : Response (List Event) → Response (List Event) → Response (List Event)
handed_on query_response response = record response {
  response_type = query_response.response_type;
  response = query_response.response;
}

-- Events for a node whose schedule is empty are only numbered.
abbrev pub merge_or_number : List Event → List Event → Option (List Event)
merge_or_number [] events = some (event_renumber events)
merge_or_number (c ∷ cs) events = event_merge (c ∷ cs) events

module _ {W : Type 0} (x : Strophe) (remote : Remote W x) where
  open remote use {schedule_query, publish}

  abbrev pub publish_events :
      W
      → String
      → Response (List Event)
      → Option (List Event)
      → Option (Code × W × Response (List Event))
  publish_events w node response events = do
    l ← events
    item ← event_to_item x l
    let (w', e, published) = publish w item node response
    some (e, w', published)

  -- `mio_schedule_event_merge_publish`
  unfoldable pub event_merge_publish :
      W → String → List Event → Response (List Event) → Option (Code × W × Response (List Event))
  event_merge_publish w node events response =
      let (w1, queried) = schedule_query w node in
      if is_packet queried.response_type
      then (packet_of queried.response >>= λ p.
          if is_schedule p.type
          then publish_events w1 node response (merge_or_number p.payload events)
          else some (Code.error_unexpected_payload, w1, handed_on queried response))
      else publish_events w1 node response (some (event_renumber events))

  -- `mio_schedule_event_remove_publish`
  unfoldable pub event_remove_publish :
      W → String → ℤ → Response (List Event) → Option (Code × W × Response (List Event))
  event_remove_publish w node id response =
      let (w1, queried) = schedule_query w node in
      if is_packet queried.response_type
      then (packet_of queried.response >>= λ p.
          if is_schedule p.type
          then publish_events w1 node response (some (event_remove p.payload id))
          else some (Code.error_unexpected_payload, w1, handed_on queried response))
      else some (Code.error_unexpected_response, w1, handed_on queried response)

abbrev pub answered : List Event → Response (List Event)
answered es = record response_new {
  response_type = ResponseType.packet;
  response = packet (record { type = PacketType.schedule; num_payloads = length es; payload = es });
}

abbrev pub keep_at : String → List Event → (String → List Event) → String → List Event
keep_at node es stored j = if str_eq node j then es else stored j

-- A server that keeps what an item says, and answers with it.
pub record IsKept {W : Type 0} (x : Strophe) (remote : Remote W x)
    (stored : W → String → List Event) : Type 0 where
  pub queried : (w : W) (node : String) → stored (remote.schedule_query w node).0 ≡ stored w
  pub answers :
      (w : W) (node : String) → (remote.schedule_query w node).1 ≡ answered (stored w node)
  pub publishes :
      (w : W) (es : List Event) (item : x.Stanza) (node : String) (r : Response (List Event))
      → AreSent es
      → event_to_item x es ≡ some item
      → (w' : W) × (r' : Response (List Event)) × (remote.publish w item node r ≡ (w', Code.ok, r'))
        × (stored w' ≡ keep_at node (map sent es) (stored w))

module _ {W : Type 0} (x : Strophe) (remote : Remote W x) (stored : W → String → List Event)
    (kept : IsKept x remote stored) where
  open remote use {schedule_query, publish}

  publish_events-stores :
      (w : W) (node : String) (response : Response (List Event)) (es : List Event) (item : x.Stanza)
      → AreSent es
      → event_to_item x es ≡ some item
      → (w' : W) × (r' : Response (List Event)) × (publish_events x remote w node response (some es)
          ≡ some (Code.ok, w', r'))
        × (stored w' ≡ keep_at node (map sent es) (stored w))
  publish_events-stores w node response es item h e =
      let (w', r', published, after) = kept.publishes w es item node response h e in
      (w', r', rw (e, published), after)

  -- At a server that keeps what the item of a schedule says and answers with it: where the node's
  -- schedule merged with the events, or the numbered events where there is none, can be sent and
  -- has an item, the call returns MIO_OK, and the server keeps just these events for the node, as
  -- they arrive, and for the other nodes what it kept before.
  pub event_merge_publish-stores :
      (w : W) (node : String) (events es : List Event) (response : Response (List Event))
      (item : x.Stanza)
      → merge_or_number (stored w node) events ≡ some es
      → AreSent es
      → event_to_item x es ≡ some item
      → (w' : W) × (r' : Response (List Event)) × (event_merge_publish x remote w node events
            response
          ≡ some (Code.ok, w', r'))
        × (stored w' ≡ keep_at node (map sent es) (stored w))
  unfolding event_merge_publish
  event_merge_publish-stores w node events es response item merged h e =
      let w1 = (schedule_query w node).0 in
      let (w', r', published, after) = publish_events-stores w1 node response es item h e in
      (
        w',
        r',
        rw (kept.answers w node, merged) published,
        after ∙ ap (keep_at node (map sent es)) (kept.queried w node),
      )

  -- At a server that keeps what the item of a schedule says and answers with it: where the node's
  -- schedule without the event can be sent and has an item, the call returns MIO_OK, and the
  -- server keeps just these events for the node, as they arrive, and for the other nodes what it
  -- kept before.
  pub event_remove_publish-stores :
      (w : W) (node : String) (id : ℤ) (response : Response (List Event)) (item : x.Stanza)
      → AreSent (event_remove (stored w node) id)
      → event_to_item x (event_remove (stored w node) id) ≡ some item
      → (w' : W) × (r' : Response (List Event)) × (event_remove_publish x remote w node id response
          ≡ some (Code.ok, w', r'))
        × (stored w' ≡ keep_at node (map sent (event_remove (stored w node) id)) (stored w))
  unfolding event_remove_publish
  event_remove_publish-stores w node id response item h e =
      let w1 = (schedule_query w node).0 in
      let (w', r', published, after) =
        publish_events-stores w1 node response (event_remove (stored w node) id) item h e in
      (
        w',
        r',
        rw (kept.answers w node) published,
        after
            ∙ ap (keep_at node (map sent (event_remove (stored w node) id))) (kept.queried w node),
      )
