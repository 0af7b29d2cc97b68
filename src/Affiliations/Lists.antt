-- ===== src/Affiliations/Lists.antt =====
-- What the queries of src/mio_affiliations.c read of a server's lists.
use libmio.Base.{
  ◌+◌, ◌≡◌, refl, ap, sym, subst, ◌∙◌, String, List, [], ◌∷◌, Option, none, some, add_last-append,
  ◌>>=◌,
}
use libmio.Xml.{Attrs, attribute, Distinct, Event, Tree, Forest, element, nil, Reports}
use libmio.Xml.Scan.{scan, apply_to, member-scan}
use mathlib.Core.Path.{fun_ext}
use libmio.Response.{Code, Response, ResponseType, PacketType, Packet}
use libmio.Response.Payloads.{holding, with_more}
use libmio.Handlers.{complete, xml_parse}
use libmio.Handlers.Fold.{folded, folded-element}
use libmio.Affiliations.{
  Subscription, Affiliation, AffiliationType, payload_add, subscription_add, affiliation_add,
}
use libmio.Affiliations.Query.{
  entry_new, affiliated_new, subscription_attribute, affiliation_attribute, affiliation_type,
  start_subscriptions_query, start_affiliations_query, subscriptions_reader, affiliations_reader,
}
use libmio.Affiliations.Names.{IsNamed, scan-IsNamed}
use libmio.Affiliations.Listing.{AreEntries, listing, xml_parse-listing}

-- An element with these attributes alone.
abbrev pub ShowsSubscription : Tree → Subscription → Type 0
ShowsSubscription t e =
    (a : String → Option String) × (t ≡ element (some "subscription") a nil)
    × IsNamed a e.subscription
    × (elim (a "subid") [ some i ↦ i | none ↦ "" ] ≡ e.sub_id)

abbrev pub ShowsAffiliation : Tree → Affiliation → Type 0
ShowsAffiliation t e =
    (a : String → Option String) × (t ≡ element (some "affiliation") a nil)
    × IsNamed a e.affiliation
    × (apply_to affiliation_type AffiliationType.unknown (a "affiliation") ≡ e.type)

payload_add_lem :
    {A : Type 0} (type : PacketType) (a : A) (p : Packet (List A))
    → p.type ≡ type
    → payload_add type a p ≡ with_more (a ∷ []) p
payload_add_lem {A} type a p typed = λ i. record {
  type = kept p.payload i;
  num_payloads = p.num_payloads + 1;
  payload = add_last-append p.payload a i;
}
  where
    kept : (l : List A) → (elim l as (λ _. PacketType) [ [] ↦ type | _ ∷ _ ↦ p.type ]) ≡ p.type
    kept [] = sym typed
    kept (_ ∷ _) = refl

read_or_none : (o : Option String) → apply_to (λ v _. some v) none o ≡ o
read_or_none none = refl
read_or_none (some v) = refl

module _ {A : Type 0} (f : Response (List A) → String → Attrs → Option (Response (List A)))
    (n : String) where
  -- An element with nothing in it.
  folded-empty :
      (a : String → Option String) (t : Tree) (es : List Event) (s s' : Response (List A))
      → ((attrs : Attrs) → Distinct attrs → (λ k. attribute k attrs) ≡ a → f s n attrs ≡ some s')
      → t ≡ element (some n) a nil
      → Reports t es
      → folded f es s ≡ some s'
  folded-empty a t es s s' enters shape reported =
      let (attrs, inner, once, same, empty, e) = subst (λ u. Reports u es) shape reported in
      folded-element f n attrs inner es s e
      ∙ ap (λ l. f s n attrs >>= folded f l) empty
      ∙ ap (λ m. m >>= folded f []) (enters attrs once (fun_ext same))

subscription-takes :
    (t : Tree) (e : Subscription) (es : List Event) (r : Response (List Subscription))
    (p : Packet (List Subscription))
    → ShowsSubscription t e
    → Reports t es
    → p.type ≡ PacketType.subscriptions
    → folded start_subscriptions_query es (holding r p) ≡ some (holding r (with_more (e ∷ []) p))
unfolding start_subscriptions_query subscription_add
subscription-takes t e es r p (a, shape, named, labelled) reported typed =
    folded-empty start_subscriptions_query "subscription" a t es (holding r p)
      (holding r (with_more (e ∷ []) p))
      (λ attrs once same.
        let name =
          scan-IsNamed subscription_attribute (λ c. c.jid_node) (λ _ _ _. refl) attrs entry_new
            e.subscription refl once (subst (λ b. IsNamed b e.subscription) (sym same) named) in
        let id : (scan subscription_attribute entry_new attrs).sub_id ≡ a "subid" =
          member-scan subscription_attribute (λ c. c.sub_id) "subid" (λ v _. some v) (λ _ _ _. refl)
            attrs entry_new once
          ∙ read_or_none (attribute "subid" attrs)
          ∙ ap (λ b. b "subid") same in
        ap (λ m. m >>= λ q. some (holding r q))
          ((λ i. subscription_add p (name i) (id i))
            ∙ ap
                (λ s. some (
                  payload_add PacketType.subscriptions
                    (record { subscription = e.subscription; sub_id = s }) p))
                labelled
            ∙ ap some (payload_add_lem PacketType.subscriptions e p typed)))
      shape reported

affiliation-takes :
    (t : Tree) (e : Affiliation) (es : List Event) (r : Response (List Affiliation))
    (p : Packet (List Affiliation))
    → ShowsAffiliation t e
    → Reports t es
    → p.type ≡ PacketType.affiliations
    → folded start_affiliations_query es (holding r p) ≡ some (holding r (with_more (e ∷ []) p))
unfolding start_affiliations_query affiliation_add
affiliation-takes t e es r p (a, shape, named, labelled) reported typed =
    folded-empty start_affiliations_query "affiliation" a t es (holding r p)
      (holding r (with_more (e ∷ []) p))
      (λ attrs once same.
        let name =
          scan-IsNamed affiliation_attribute (λ c. c.jid_node) (λ _ _ _. refl) attrs affiliated_new
            e.affiliation refl once (subst (λ b. IsNamed b e.affiliation) (sym same) named) in
        let type : (scan affiliation_attribute affiliated_new attrs).aff ≡ e.type =
          member-scan affiliation_attribute (λ c. c.aff) "affiliation" affiliation_type
            (λ _ _ _. refl) attrs affiliated_new once
          ∙ ap (λ b. apply_to affiliation_type AffiliationType.unknown (b "affiliation")) same
          ∙ labelled in
        ap (λ m. m >>= λ q. some (holding r q))
          ((λ i. affiliation_add p (name i) (type i))
            ∙ ap some (payload_add_lem PacketType.affiliations e p typed)))
      shape reported

-- For any text that reports a server's list of entries, each with the subscription in its jid or
-- its node but not in both, and perhaps an id: the callbacks return MIO_OK, and the response is a
-- packet of subscriptions with exactly these entries, in order, behind those that it had, and
-- counts them.
pub subscriptions_reader-lists :
    (l : List Subscription) (iq pubsub attributes : String → Option String) (f : Forest)
    (es : List Event) (r : Response (List Subscription)) (p : Packet (List Subscription))
    → AreEntries ShowsSubscription l f
    → Reports (listing "subscriptions" iq pubsub attributes f) es
    → xml_parse subscriptions_reader (holding r p) (complete es)
      ≡ some (
        Code.ok,
        holding
            (record r { response_type = ResponseType.packet })
            (with_more l (record p { type = PacketType.subscriptions })),
      )
unfolding start_subscriptions_query
subscriptions_reader-lists =
    xml_parse-listing start_subscriptions_query PacketType.subscriptions ShowsSubscription
      subscription-takes "subscriptions" (λ _ _. refl) (λ _ _. refl) (λ _ _ _. refl)

-- Y
pub affiliations_reader-lists :
    (l : List Affiliation) (iq pubsub attributes : String → Option String) (f : Forest)
    (es : List Event) (r : Response (List Affiliation)) (p : Packet (List Affiliation))
    → AreEntries ShowsAffiliation l f
    → Reports (listing "affiliations" iq pubsub attributes f) es
    → xml_parse affiliations_reader (holding r p) (complete es)
      ≡ some (
        Code.ok,
        holding
            (record r { response_type = ResponseType.packet })
            (with_more l (record p { type = PacketType.affiliations })),
      )
unfolding start_affiliations_query
affiliations_reader-lists =
    xml_parse-listing start_affiliations_query PacketType.affiliations ShowsAffiliation
      affiliation-takes "affiliations" (λ _ _. refl) (λ _ _. refl) (λ _ _ _. refl)
