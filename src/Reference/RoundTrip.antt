-- ===== src/Reference/RoundTrip.antt =====
-- The item that publishes a list of references, and what a query for it reads.
use libmio.Base.{◌≡◌, ap, ◌∙◌, String, List, Option, none, some, ◌>>=◌}
use libmio.Xml.{Strophe, Event, Tree, element, nil, cons, Reports}
use libmio.Response.{Code, Response, ResponseType, PacketType, Packet}
use libmio.Response.Payloads.{holding, with_more, answer}
use libmio.Handlers.{open_name, unset, complete, xml_parse}
use libmio.Handlers.Visit.{visit, xml_parse-visit}
use libmio.Reference.{Reference, references_reader, references_to_item}
use libmio.Reference.Callbacks.{visitor, references_reader-visitor}
use libmio.Reference.Item.{Lists, tree-item}

visit-answer :
    (iq pubsub items a : String → Option String) (t : Tree) (rs : List Reference)
    (r : Response (List Reference)) (p : Packet (List Reference))
    → Lists t rs
    → visit visitor none unset
        (answer iq pubsub items (element (some "item") a (cons t nil)))
        (holding r p)
      ≡ some (
          holding
            (record r { response_type = ResponseType.packet })
            (with_more rs (record p { type = PacketType.references })))
visit-answer iq pubsub items a t rs r p l = rw (
  l.shape,
  l.runs (some "references") (open_name "references")
      (record r { response_type = ResponseType.packet })
      (record p { type = PacketType.references }),
)

-- When a list of references has an item, the callbacks of the reference query, run over any text
-- that reports the server's answer around this item, return MIO_OK, mark the response as a packet
-- of references, count each reference and append exactly the list, in order, to the payload.
pub references_reader-references_to_item :
    (x : Strophe) (rs : List Reference) (item : x.Stanza) (iq pubsub items : String → Option String)
    (es : List Event) (r : Response (List Reference)) (p : Packet (List Reference))
    → references_to_item x rs ≡ some item
    → Reports (answer iq pubsub items (x.tree item)) es
    → xml_parse references_reader (holding r p) (complete es)
      ≡ some (
        Code.ok,
        holding
            (record r { response_type = ResponseType.packet })
            (with_more rs (record p { type = PacketType.references })),
      )
references_reader-references_to_item x rs item iq pubsub items es r p e reported =
    let (t, a, l, shape) = tree-item x rs item e in
    xml_parse-visit references_reader visitor references_reader-visitor
      (answer iq pubsub items (x.tree item)) es (holding r p) reported
    ∙ ap
        (λ u. visit visitor none unset (answer iq pubsub items u) (holding r p) >>= λ s.
          some (Code.ok, s))
        shape
    ∙ ap (λ m. m >>= λ s. some (Code.ok, s)) (visit-answer iq pubsub items a t rs r p l)
