-- ===== src/Examples/Publishing.antt =====
-- A server that keeps schedules, and a merge and a removal that are published there; and a merge of
-- properties.
use libmio.Handlers.{open_name, unset}
use libmio.Base.{
  ℕ, ◌≡◌, refl, ap, ◌∙◌, String, false, List, [], ◌∷◌, map, Option, none, some, arith,
}
use libmio.Decimal.{pos, truncate, write}
use libmio.Xml.{trees, Tree, text}
use libmio.Response.{Code, Response, ResponseType, Body, packet, response_new, packet_new}
use libmio.Handlers.Visit.{visit}
use libmio.Meta.{Property, TransducerMeta, transducer_meta_new, transducer_merge}
use libmio.Meta.Merge.{AreNamed, lookup, updated, transducer_merge-updated}
use libmio.Schedule.{
  Event, event_new, renumber_from, merge_events, update_found, unlink_event, event_merge,
  event_remove, event_to_item,
}
use libmio.Schedule.Events.{at, sent}
use libmio.Schedule.Item.{AreSent, tree-item}
use libmio.Schedule.Query.{Reading}
use libmio.Schedule.Callbacks.{visitor}
use libmio.Schedule.Publish.{
  Remote, IsKept, answered, keep_at, event_merge_publish, event_remove_publish,
  event_merge_publish-stores, event_remove_publish-stores,
}

abbrev W : Type 0
W = String → List Event

abbrev events_in : Body (List Event) → List Event
events_in (packet p) = p.payload
events_in _ = []

abbrev events_of : Option Reading → List Event
events_of none = []
events_of (some s) = events_in s.response.response

-- what a reader of the item finds
abbrev decoded : Tree → List Event
decoded t = events_of (visit visitor none unset t (at response_new (packet_new []) false false))

abbrev server : Remote W trees
server = record {
  schedule_query = λ w node. (w, answered (w node));
  publish = λ w item node r.
      (keep_at node (decoded item) w, Code.ok, record r { response_type = ResponseType.ok });
}

abbrev stored : W → String → List Event
stored w = w

decoded-event_to_item :
    (es : List Event) (item : Tree)
    → AreSent es
    → event_to_item trees es ≡ some item
    → decoded item ≡ map sent es
decoded-event_to_item es item h e =
    let (t, l, shape) = tree-item trees es item h e in
    let (filling, pointed, ran) =
      l.runs (some "schedule") (open_name "schedule") response_new (packet_new []) false false in
    ap decoded shape ∙ rw (l.shape, ran)

kept : IsKept trees server stored
kept = record {
  queried = λ _ _. refl;
  answers = λ _ _. refl;
  publishes = λ w es item node r h e. (
    keep_at node (decoded item) w,
    record r { response_type = ResponseType.ok },
    refl,
    ap (λ l. keep_at node l w) (decoded-event_to_item es item h e),
  );
}

abbrev lamp_on : Event
lamp_on = record event_new { id = pos 0; info = some "on" }

abbrev lamp_off : Event
lamp_off = record event_new { id = pos 0; info = some "off" }

abbrev lit : W
lit _ = lamp_on ∷ []

abbrev item_of : Option Tree → Tree
item_of none = text ""
item_of (some t) = t

sendable : (e : Event) → AreSent (record e { id = pos 0; recurrence = none } ∷ [])
sendable e = (record { number = 0; named = refl; small = omega arith; texts = tt }, tt)

merged : event_merge (lamp_on ∷ []) (lamp_off ∷ []) ≡ some (lamp_off ∷ [])
unfolding merge_events update_found renumber_from
merged = refl

event_merge_publish-stores_example :
    (w' : W) × (r' : Response (List Event)) × (event_merge_publish trees server lit "lamp"
        (lamp_off ∷ [])
        response_new
      ≡ some (Code.ok, w', r'))
    × (w' ≡ keep_at "lamp" (lamp_off ∷ []) lit)
unfolding event_to_item truncate write
event_merge_publish-stores_example =
    event_merge_publish-stores trees server stored kept lit "lamp" (lamp_off ∷ []) (lamp_off ∷ [])
      response_new (item_of (event_to_item trees (lamp_off ∷ []))) merged (sendable lamp_off) refl

event_remove_publish-stores_example :
    (w' : W) × (r' : Response (List Event)) × (event_remove_publish trees server lit "lamp"
        (pos 3)
        response_new
      ≡ some (Code.ok, w', r'))
    × (w' ≡ keep_at "lamp" (map sent (event_remove (lamp_on ∷ []) (pos 3))) lit)
unfolding event_to_item truncate write unlink_event renumber_from
event_remove_publish-stores_example =
    event_remove_publish-stores trees server stored kept lit "lamp" (pos 3) response_new
      (item_of (event_to_item trees (lamp_on ∷ []))) (sendable lamp_on) refl

abbrev old : List Property
old = record { name = some "room"; value = some "12" } ∷ []

abbrev new : List Property
new =
    record { name = some "floor"; value = some "1" }
    ∷ record { name = some "room"; value = none }
    ∷ []

abbrev thermometer : List Property → TransducerMeta ℕ
thermometer ps = record transducer_meta_new { name = some "thermometer"; properties = ps }

transducer_merge-updated_example :
    (r : TransducerMeta ℕ) × (transducer_merge (thermometer old) (thermometer new) ≡ some r)
    × AreNamed r.properties
    × ((n : String) → lookup n r.properties ≡ updated n new (lookup n old))
transducer_merge-updated_example =
    transducer_merge-updated (thermometer old) (thermometer new) (("room", refl), tt)
      (("floor", refl), (("room", refl), tt))
