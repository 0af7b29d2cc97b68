-- ===== src/Examples/Values.antt =====
-- Values of transducers: sent, received and published.
use mathlib.Core.Option.{some-injective}
use libmio.Base.{
  ℕ, suc, ◌≡◌, refl, subst, false, String, List, [], ◌∷◌, ◌++◌, Option, none, some, inl, str_eq,
  if◌then◌else◌, is_some, arith, length,
}
use libmio.Run.{Store, write, Run, done, fault}
use libmio.Xml
use libmio.Xml.{
  trees, Strophe, Attrs, attribute, Event, start, stop, Tree, Forest, element, nil, cons,
}
use libmio.Response.{Code, Response, response_new, packet_new}
use libmio.Handlers.{complete, xml_parse}
use libmio.Examples.Told.{no_attributes, Told, ToldAll, around, around_all, first_told, none_told}
use libmio.Transducer.{
  TransducerData, MioData, data_new, linked, transducer_data, transducer_set_data, refused,
  transducer_data_add, transducer_data_to_item,
}
use libmio.Transducer.Names.{
  IsUnique, held, value_of, transducer_data_add-IsUnique, transducer_data_add_lem,
}
use libmio.Transducer.Query.{data_reader}
use libmio.Transducer.Callbacks.{of_items}
use libmio.Transducer.RoundTrip.{
  at, full, item_tree, item_attributes, with_value, AreItems, notification, around_items,
  with_values, data_reader-transducer_data_to_item,
}
use libmio.Transducer.Repeated.{data_reader-repeated}
use libmio.Transducer.Publish.{publish_data}
use libmio.Transducer.Publish.Outcomes.{publish_data-Delivers, publish_data-Fails}

abbrev light : TransducerData
light = full transducer_data "light" "on" "noon"

abbrev heat : TransducerData
heat = full transducer_set_data "heat" "20" "noon"

abbrev untimed : TransducerData
untimed = record light { value = some "off"; timestamp = none }

two_values : IsUnique (light ∷ heat ∷ [])
two_values =
    (λ n e. (subst (λ k. str_eq "heat" k ≡ false) (some-injective _ _ e) refl, tt), (λ _ _. tt, tt))

transducer_data_add-IsUnique_example :
    IsUnique (held (light ∷ heat ∷ []) (transducer_data_add "dusk" (light ∷ heat ∷ []) untimed))
transducer_data_add-IsUnique_example =
    transducer_data_add-IsUnique "dusk" (light ∷ heat ∷ []) untimed two_values

transducer_data_add_lem_example :
    (transducer_data_add "dusk" (heat ∷ []) (record untimed { name = none })
      ≡ refused Code.transducer_null_name)
    × (transducer_data_add "dusk" (heat ∷ []) (record untimed { name = some "light"; value = none })
        ≡ refused Code.transducer_null_value)
    × (value_of "light" (held (heat ∷ []) (transducer_data_add "dusk" (heat ∷ []) untimed))
        ≡ some (record untimed { timestamp = some "dusk" }))
    × (length (held (heat ∷ []) (transducer_data_add "dusk" (heat ∷ []) untimed)) ≡ 2)
unfolding value_of
transducer_data_add_lem_example =
    transducer_data_add_lem "dusk" "light" "light" "off" (heat ∷ []) untimed

-- An item and its callbacks.
abbrev attributes_of : (n v s : String) → Attrs
attributes_of n v s = ("name", n) ∷ ("value", v) ∷ ("timestamp", s) ∷ []

abbrev of_item : String → Attrs
of_item n = ("id", String.◌∷◌ "_" n) ∷ ("xmlns", "http://jabber.org/protocol/mio") ∷ []

abbrev item_events : (tag n v s : String) → List Event
item_events tag n v s =
    start "item" (of_item n) ∷ start tag (attributes_of n v s) ∷ stop tag ∷ stop "item" ∷ []

same_attributes : (n v s k : String) → attribute k (attributes_of n v s) ≡ with_value n v s k
same_attributes n v s k = ground arith

same_item : (n k : String) → attribute k (of_item n) ≡ item_attributes n k
same_item n k = ground arith

item_told :
    (tag n v s : String)
    → Told
        (element
          (some "item")
          (item_attributes n)
          (cons (element (some tag) (with_value n v s) nil) nil))
        (item_events tag n v s)
item_told tag n v s =
    around "item" (of_item n) (item_attributes n) (refl, (refl, tt)) (same_item n)
      (around_all tag (attributes_of n v s) (with_value n v s) (refl, (refl, (refl, tt)))
        (same_attributes n v s) none_told)

abbrev lamp_node : Attrs
lamp_node = ("node", "lamp") ∷ []

abbrev at_lamp : String → Option String
at_lamp k = attribute k lamp_node

abbrev around_events : List Event → List Event
around_events es =
    start "message" []
    ∷ ((start "event" []
          ∷ ((start "items" lamp_node ∷ (es ++ (stop "items" ∷ []))) ++ (stop "event" ∷ [])))
        ++ (stop "message" ∷ []))

notification_told :
    {f : Forest} {es : List Event}
    → ToldAll f es
    → Told (around_items notification no_attributes no_attributes at_lamp f) (around_events es)
notification_told h =
    around "message" [] no_attributes tt (λ _. refl)
      (around "event" [] no_attributes tt (λ _. refl)
        (around_all "items" lamp_node at_lamp (refl, tt) (λ _. refl) h))

abbrev item_of : Option (Option Tree) → Tree
item_of (some (some t)) = t
item_of _ = Xml.text ""

abbrev two_items : Forest
two_items =
    cons (item_tree transducer_data "light" "on" "noon")
      (cons (item_tree transducer_set_data "heat" "20" "noon") nil)

abbrev two_events : List Event
two_events =
    item_events "transducerData" "light" "on" "noon"
    ++ (item_events "transducerSetData" "heat" "20" "noon" ++ [])

two_told : ToldAll two_items two_events
two_told =
    first_told (item_told "transducerData" "light" "on" "noon")
      (first_told (item_told "transducerSetData" "heat" "20" "noon") none_told)

two_AreItems : AreItems trees (light ∷ heat ∷ []) two_items
unfolding transducer_data_to_item
two_AreItems = (_, _, refl, refl, (_, _, refl, refl, refl))

data_reader-transducer_data_to_item_example :
    xml_parse
      (data_reader "dusk")
      (at response_new (packet_new data_new) false)
      (complete (around_events two_events))
    ≡ some (
      Code.ok,
      with_values (light ∷ heat ∷ []) response_new (of_items at_lamp (packet_new data_new)),
    )
data_reader-transducer_data_to_item_example =
    data_reader-transducer_data_to_item trees "dusk" notification no_attributes no_attributes
      at_lamp (light ∷ heat ∷ []) two_items (around_events two_events) response_new
      (packet_new data_new) two_AreItems two_values (notification_told two_told).reports

abbrev again : TransducerData
again = full transducer_data "light" "off" "dusk"

abbrev three_items : Forest
three_items =
    cons (item_tree transducer_data "light" "on" "noon")
      (cons (item_tree transducer_data "light" "off" "dusk") two_items)

abbrev three_events : List Event
three_events =
    item_events "transducerData" "light" "on" "noon"
    ++ (item_events "transducerData" "light" "off" "dusk" ++ two_events)

three_told : ToldAll three_items three_events
three_told =
    first_told (item_told "transducerData" "light" "on" "noon")
      (first_told (item_told "transducerData" "light" "off" "dusk") two_told)

three_AreItems : AreItems trees (light ∷ again ∷ light ∷ heat ∷ []) three_items
unfolding transducer_data_to_item
three_AreItems = (_, _, refl, refl, (_, _, refl, refl, two_AreItems))

data_reader-repeated_example :
    xml_parse
      (data_reader "dusk")
      (at response_new (packet_new data_new) false)
      (complete (around_events three_events))
    ≡ none
data_reader-repeated_example =
    data_reader-repeated trees "dusk" notification no_attributes no_attributes at_lamp light again
      (light ∷ heat ∷ []) three_items (around_events three_events) response_new
      (packet_new data_new) three_AreItems refl (notification_told three_told).reports

-- A server that counts what it takes, and one that does not answer.
abbrev takes :
    ℕ → Option Tree → Option String → Response MioData → Run (Code × ℕ × Response MioData)
takes n none event r = fault
takes n (some (element _ a _)) event r =
    if is_some (a "id") then done (Code.ok, suc n, record r { id = "answer" }) else fault
takes n (some (Xml.text _)) event r = fault

abbrev refuses :
    ℕ → Option Tree → Option String → Response MioData → Run (Code × ℕ × Response MioData)
refuses n stanza event r = done (Code.error_timeout, n, r)

abbrev one_response : Store (Response MioData)
one_response = write (λ _. none) 0 (some response_new)

free_address : (i : ℕ) → one_response (suc i) ≡ none
unfolding write
free_address i = ground arith

publish_data-Delivers_example :
    publish_data trees takes suc
      (record {
        event = some "lamp";
        num_transducers = 2;
        transducers = linked (light ∷ heat ∷ []);
      })
      0
      5
      one_response
    ≡ done (Code.ok, 7, write one_response 0 (some (record response_new { id = "answer" })))
unfolding transducer_data_to_item write
publish_data-Delivers_example =
    publish_data-Delivers trees takes suc (light ∷ heat ∷ []) (some "lamp") 0 5 7 response_new
      (record response_new { id = "answer" }) one_response refl free_address
      (_, _, _, refl, refl, (_, refl, refl))

publish_data-Fails_example :
    (h' : Store (Response MioData)) × (publish_data trees refuses suc
        (record {
          event = some "lamp";
          num_transducers = 2;
          transducers = linked (light ∷ heat ∷ []);
        })
        0
        5
        one_response
      ≡ done (Code.error_timeout, 5, h'))
    × (h' 0 ≡ none)
unfolding transducer_data_to_item write
publish_data-Fails_example =
    publish_data-Fails trees refuses suc (light ∷ heat ∷ []) (some "lamp") 0 5 5 response_new
      Code.error_timeout one_response refl free_address (_, refl, inl (_, refl, refl))
