-- ===== src/Affiliations/Listing.antt =====
-- Lists of entries, as a server answers a query for them, read by callbacks that look at the start
-- tags alone.
use libmio.Base.{◌≡◌, refl, ap, subst, ◌∙◌, String, List, [], ◌∷◌, Option, some, ◌>>=◌}
use libmio.Xml.{Attrs, Event, Tree, Forest, element, nil, cons, Reports, ReportsAll}
use libmio.Response.{Code, Response, ResponseType, PacketType, Packet}
use libmio.Response.Payloads.{holding, with_more, with_more-append, nothing_more}
use libmio.Handlers.{starts_only, complete, xml_parse}
use libmio.Handlers.Fold.{folded, folded-append, folded-element, folded-wrapped, xml_parse-folded}

-- Each tree shows its entry, in order.
abbrev pub AreEntries : {A : Type 0} → (Tree → A → Type 0) → List A → Forest → Type 0
AreEntries Shows [] f = f ≡ nil
AreEntries Shows (e ∷ es) f =
    (t : Tree) × (g : Forest) × (f ≡ cons t g) × Shows t e × AreEntries Shows es g

-- The answer of the server: entries in a list in an element `pubsub`.
abbrev pub listing : (list : String) (iq pubsub attributes : String → Option String) → Forest → Tree
listing list iq pubsub attributes f =
    element (some "iq") iq
      (cons (element (some "pubsub") pubsub (cons (element (some list) attributes f) nil)) nil)

module _ {A : Type 0} (f : Response (List A) → String → Attrs → Option (Response (List A)))
    (type : PacketType) (Shows : Tree → A → Type 0)
    (takes : (t : Tree) (e : A) (es : List Event) (r : Response (List A)) (p : Packet (List A))
      → Shows t e
      → Reports t es
      → p.type ≡ type
      → folded f es (holding r p) ≡ some (holding r (with_more (e ∷ []) p))) where
  pub folded-entries :
      (l : List A) (forest : Forest) (es : List Event) (r : Response (List A)) (p : Packet (List A))
      → AreEntries Shows l forest
      → ReportsAll forest es
      → p.type ≡ type
      → folded f es (holding r p) ≡ some (holding r (with_more l p))
  folded-entries [] forest es r p shape reported typed =
      let empty : es ≡ [] = subst (λ g. ReportsAll g es) shape reported in
      ap (λ l. folded f l (holding r p)) empty ∙ ap (λ q. some (holding r q)) (nothing_more p)
  folded-entries (e ∷ l) forest es r p (t, g, shape, shows, rest) reported typed =
      let (xs, ys, one, all, split) = subst (λ h. ReportsAll h es) shape reported in
      ap (λ d. folded f d (holding r p)) split
      ∙ folded-append f xs ys (holding r p)
      ∙ ap (λ m. m >>= folded f ys) (takes t e xs r p shows one typed)
      ∙ folded-entries l g ys r (with_more (e ∷ []) p) rest all typed
      ∙ ap (λ q. some (holding r q)) (with_more-append (e ∷ []) l p)

  pub xml_parse-listing :
      (list : String)
      → ((r : Response (List A)) (a : Attrs) → f r "iq" a ≡ some r)
      → ((r : Response (List A)) (a : Attrs) → f r "pubsub" a ≡ some r)
      → ((r : Response (List A)) (p : Packet (List A)) (a : Attrs)
          → f (holding r p) list a
            ≡ some (
                holding
                  (record r { response_type = ResponseType.packet })
                  (record p { type = type })))
      → (l : List A) (iq pubsub attributes : String → Option String) (forest : Forest)
        (es : List Event) (r : Response (List A)) (p : Packet (List A))
      → AreEntries Shows l forest
      → Reports (listing list iq pubsub attributes forest) es
      → xml_parse (starts_only f) (holding r p) (complete es)
        ≡ some (
          Code.ok,
          holding
              (record r { response_type = ResponseType.packet })
              (with_more l (record p { type = type })),
        )
  xml_parse-listing list at_iq at_pubsub at_list l iq pubsub attributes forest es r p entries
        reported =
      let marked : Response (List A) = record r { response_type = ResponseType.packet } in
      let (xs, in_pubsub, by_iq) =
        folded-wrapped f "iq" iq
          (element (some "pubsub") pubsub (cons (element (some list) attributes forest) nil)) es
          (holding r p) (holding r p) (at_iq (holding r p)) reported in
      let (us, in_list, by_pubsub) =
        folded-wrapped f "pubsub" pubsub (element (some list) attributes forest) xs (holding r p)
          (holding r p) (at_pubsub (holding r p)) in_pubsub in
      let (attrs, inner, _, _, all, e) = in_list in
      xml_parse-folded f (listing list iq pubsub attributes forest) es (holding r p) reported
      ∙ ap (λ m. m >>= λ s. some (Code.ok, s))
          (by_iq
            ∙ by_pubsub
            ∙ folded-element f list attrs inner us (holding r p) e
            ∙ ap (λ m. m >>= folded f inner) (at_list r p attrs)
            ∙ folded-entries l forest inner marked (record p { type = type }) entries all refl)
