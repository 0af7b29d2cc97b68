-- ===== src/Examples/Listed.antt =====
-- The theorems on lists of subscriptions, and on requests and parsed stanzas.
use libmio.Base.{◌≡◌, refl, inr, String, true, false, List, [], ◌∷◌, ◌++◌, none, some}
use libmio.Xml.{
  trees, Attrs, attribute, Distinct, Event, start, stop, Tree, Forest, element, nil, cons,
}
use libmio.Response.{Code, Response, ResponseType, PacketType, response_new, packet_new, err}
use libmio.Response.Payloads.{holding, with_more}
use libmio.Handlers.{complete, xml_parse}
use libmio.Examples.Told.{no_attributes, Told, ToldAll, around, around_all, none_told}
use libmio.Affiliations.Query.{subscriptions_reader}
use libmio.Affiliations.Listing.{listing}
use libmio.Decimal.{pos, atoi}
use libmio.Xml.Scan.{scan}
use libmio.Response.{xml_error_handler}
use libmio.Handlers.{read, update_start, update_end}
use libmio.Parser.{parser_new, parse}
use libmio.Parser.Trees.{parse-kept}
use libmio.Pubsub.{Client, Sender, get_server}
use libmio.Pubsub.Calls.{delete, request_tree}
use libmio.Pubsub.Requests.{run, Sends, run-Sends}
use libmio.Collection.{Collection}
use libmio.Collection.Query.{handler_children_query, start_children_query}
use libmio.Collection.Requests.{collection_child_add}
use libmio.Collection.Errors.{refusal, collection_child_add-refusal}
use libmio.Affiliations.Lists.{subscriptions_reader-lists}

-- An element with these attributes.
abbrev el : String → Attrs → Forest → Tree
el n a f = element (some n) (λ k. attribute k a) f

told_el :
    (n : String) (a : Attrs) {f : Forest} {es : List Event}
    → Distinct a
    → ToldAll f es
    → Told (el n a f) (start n a ∷ (es ++ stop n ∷ []))
told_el n a once h = around_all n a (λ k. attribute k a) once (λ _. refl) h

abbrev door : Attrs
door = ("subid", "17") ∷ ("node", "door") ∷ ("subscription", "subscribed") ∷ []

-- The callbacks for one entry in a list.
abbrev callbacks : (list entry : String) → Attrs → List Event
callbacks list entry a =
    start "iq" []
    ∷ start "pubsub" []
    ∷ start list []
    ∷ start entry a
    ∷ stop entry
    ∷ stop list
    ∷ stop "pubsub"
    ∷ stop "iq"
    ∷ []

abbrev answer_with : (list entry : String) → Attrs → Tree
answer_with list entry a =
    listing list no_attributes no_attributes no_attributes (cons (el entry a nil) nil)

told :
    (list entry : String) (a : Attrs)
    → Distinct a
    → Told (answer_with list entry a) (callbacks list entry a)
told list entry a once =
    around "iq" [] no_attributes tt (λ _. refl)
      (around "pubsub" [] no_attributes tt (λ _. refl)
        (around list [] no_attributes tt (λ _. refl) (told_el entry a once none_told)))

subscriptions_reader-lists_example :
    xml_parse subscriptions_reader
      (holding response_new (packet_new []))
      (complete (callbacks "subscriptions" "subscription" door))
    ≡ some (
      Code.ok,
      holding
          (record response_new { response_type = ResponseType.packet })
          (with_more
            (record { subscription = "door"; sub_id = "17" } ∷ [])
            (record (packet_new []) { type = PacketType.subscriptions })),
    )
subscriptions_reader-lists_example =
    subscriptions_reader-lists (record { subscription = "door"; sub_id = "17" } ∷ []) no_attributes
      no_attributes no_attributes (cons (el "subscription" door nil) nil)
      (callbacks "subscriptions" "subscription" door) response_new (packet_new [])
      (
        el "subscription" door nil,
        nil,
        refl,
        ((λ k. attribute k door), refl, inr (refl, refl), refl),
        refl,
      )
      (told "subscriptions" "subscription" door (refl, (refl, (refl, tt)))).reports

-- The text of the entry's element, whose own text would be lost.
parse-kept_example :
    (s : Tree) × (parse trees parser_new (callbacks "subscriptions" "subscription" door)
      ≡ some (some s, record parser_new { ended = true }))
    × (s ≡ answer_with "subscriptions" "subscription" door)
    × ((ds : List Event)
        → parse trees (record parser_new { ended = true }) ds
          ≡ some (none, record parser_new { ended = true }))
parse-kept_example =
    parse-kept trees "iq" no_attributes
      (cons
        (element (some "pubsub") no_attributes (
          cons
            (element (some "subscriptions") no_attributes (cons (el "subscription" door nil) nil))
            nil))
        nil)
      (callbacks "subscriptions" "subscription" door)
      (told "subscriptions" "subscription" door (refl, (refl, (refl, tt)))).reports

abbrev user : Client
user = record { authenticated = true; jid = "me@host"; uuid = "u1" }

-- What is handed over, newest first.
abbrev record_stanza : Sender Tree (List Tree)
record_stanza _ s w = (Code.ok, s ∷ w)

run-Sends_example :
    (run trees record_stanza (delete "n@server") (record user { authenticated = false }) []
      ≡ some (Code.error_disconnected, []))
    × Sends trees record_stanza
        (delete "n@server")
        "server"
        (record user { authenticated = true })
        []
        (request_tree trees user "server" (delete "n@server"))
unfolding get_server
run-Sends_example = run-Sends trees record_stanza (delete "n@server") user "server" [] refl

-- An error that says `cancel`.
abbrev cancelled : Attrs
cancelled = ("type", "cancel") ∷ ("code", "404") ∷ []

abbrev error_callbacks : List Event
error_callbacks = start "iq" [] ∷ start "error" cancelled ∷ stop "error" ∷ stop "iq" ∷ []

refused : Told (refusal no_attributes (λ k. attribute k cancelled) nil) error_callbacks
refused =
    around "iq" [] no_attributes tt (λ _. refl)
      (told_el "error" cancelled (refl, (refl, tt)) none_told)

abbrev refused_response : Response (List Collection)
refused_response = record {
  id = "";
  response_type = ResponseType.error;
  response = err (record { err_num = pos 404; description = some "cancel" });
}

collection_child_add-refusal_example :
    (refused_response.response_type ≡ ResponseType.error)
    × (collection_child_add
          (λ _. none)
          record_stanza
          (λ _ w. some (handler_children_query.finish refused_response, w))
          (λ _ w. some (response_new, w))
          user
          "c@server"
          "p@server"
          []
        ≡ none)
unfolding get_server xml_parse read update_start update_end start_children_query xml_error_handler
    scan atoi
collection_child_add-refusal_example =
    collection_child_add-refusal (λ _. none) record_stanza
      (λ _ w. some (handler_children_query.finish refused_response, w))
      (λ _ w. some (response_new, w)) user "c@server" "p@server" "server" "cancel" [] []
      no_attributes (λ k. attribute k cancelled) nil error_callbacks response_new refused_response
      refl refl tt refused.reports refl refl
