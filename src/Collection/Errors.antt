-- ===== src/Collection/Errors.antt =====
-- A server's error as the answer to the query for the children of a node: src/mio_collection.c.
use libmio.Base.{◌≡◌, refl, ap, sym, ◌∙◌, String, false, List, Option, none, some, str_eq, ◌>>=◌}
use libmio.Xml.{Event, Tree, Forest, element, text, nil, cons, Reports, ReportsAll}
use libmio.Response.{Code, Response, ResponseType, xml_error_handler}
use libmio.Response.Errors.{noted, noted_as, xml_error_handler-noted}
use libmio.Handlers.{complete, xml_parse}
use libmio.Handlers.Fold.{folded, folded-append, folded-element, folded-wrapped, xml_parse-folded}
use mathlib.Core.Path.{fun_ext}
use mathlib.Core.Option.{some-injective}
use libmio.Pubsub.{Client, Sender, server_of}
use libmio.Collection.{Collection}
use libmio.Collection.Query.{
  start_children_query, children_reader, mark_packet, handler_children_query,
}
use libmio.Collection.Requests.{collection_child_add}

abbrev R : Type 0
R = Response (List Collection)

-- No element that the callbacks look at.
abbrev mutual
  pub IsQuiet : Tree → Type 0
  IsQuiet (element none a f) = Unit
  IsQuiet (element (some n) a f) =
      (str_eq n "item" ≡ false) × (str_eq n "error" ≡ false) × AreQuiet f
  IsQuiet (text v) = Unit

  pub AreQuiet : Forest → Type 0
  AreQuiet nil = Unit
  AreQuiet (cons t f) = IsQuiet t × AreQuiet f

mutual
  unfolding start_children_query

  folded-quiet :
      (t : Tree) (es : List Event) (r : R)
      → IsQuiet t
      → Reports t es
      → folded start_children_query es r ≡ some r
  folded-quiet (element none a f) es r quiet reported = absurd reported
  folded-quiet (element (some n) a f) es r (item, error, inside)
        (attrs, inner, once, same, all, e) =
      folded-element start_children_query n attrs inner es r e
      ∙ rw (item, error) (folded_all-quiet f inner r inside all)
  folded-quiet (text String.[]) es r quiet e = ap (λ l. folded start_children_query l r) e
  folded-quiet (text (String.◌∷◌ c v)) es r quiet e = ap (λ l. folded start_children_query l r) e

  folded_all-quiet :
      (f : Forest) (es : List Event) (r : R)
      → AreQuiet f
      → ReportsAll f es
      → folded start_children_query es r ≡ some r
  folded_all-quiet nil es r quiet e = ap (λ l. folded start_children_query l r) e
  folded_all-quiet (cons t f) es r (q, quiet) (us, vs, one, all, e) =
      ap (λ l. folded start_children_query l r) e
      ∙ folded-append start_children_query us vs r
      ∙ ap (λ m. m >>= folded start_children_query vs) (folded-quiet t us r q one)
      ∙ folded_all-quiet f vs r quiet all

-- A server's answer that reports an error.
abbrev pub refusal : (iq a : String → Option String) → Forest → Tree
refusal iq a f = element (some "iq") iq (cons (element (some "error") a f) nil)

children_reader-refusal :
    (iq a : String → Option String) (f : Forest) (es : List Event) (r : R)
    → AreQuiet f
    → Reports (refusal iq a f) es
    → xml_parse children_reader r (complete es) ≡ some (Code.ok, noted a r)
unfolding start_children_query
children_reader-refusal iq a f es r quiet reported =
    let (xs, (attrs, inner, once, same, all, e), by_iq) =
      folded-wrapped start_children_query "iq" iq (element (some "error") a f) es r r (λ _. refl)
        reported in
    xml_parse-folded start_children_query (refusal iq a f) es r reported
    ∙ ap (λ m. m >>= λ s. some (Code.ok, s))
        (by_iq
          ∙ folded-element start_children_query "error" attrs inner xs r e
          ∙ folded_all-quiet f inner (xml_error_handler attrs r) quiet all
          ∙ ap some (xml_error_handler-noted attrs r once)
          ∙ ap (λ b. some (noted b r)) (fun_ext same))

module _ (get_text : Tree → Option String) {W : Type 0} (send : Sender Tree W) where
  -- When the answer to the query for the parent's children reports an error with a type, and the
  -- elements in the error are no items and no errors: the callbacks mark the response as an error,
  -- the handler marks it as a packet all the same, and mio_collection_child_add reads the error as
  -- a packet: undefined behaviour.
  pub collection_child_add-refusal :
      (children_query parents_query : String → W → Option (R × W)) (c : Client)
      (child parent server kind : String) (w w' : W) (iq a : String → Option String) (f : Forest)
      (es : List Event) (r read : R)
      → server_of c (some parent) ≡ some server
      → a "type" ≡ some kind
      → AreQuiet f
      → Reports (refusal iq a f) es
      → xml_parse children_reader (handler_children_query.prepare r) (complete es)
        ≡ some (Code.ok, read)
      → children_query parent w ≡ some (handler_children_query.finish read, w')
      → (read.response_type ≡ ResponseType.error)
        × (collection_child_add get_text send children_query parents_query c child parent w ≡ none)
  unfolding collection_child_add
  collection_child_add-refusal children_query parents_query c child parent server kind w w' iq a f
        es r read at typed quiet reported parsed asked =
      let prepared : R = handler_children_query.prepare r in
      let known : read ≡ noted_as (a "code") (some kind) prepared =
        ap (λ q. q.1)
          (some-injective _ _
            (sym parsed ∙ children_reader-refusal iq a f es prepared quiet reported))
        ∙ ap (λ o. noted_as (a "code") o prepared) typed in
      let asked' : children_query parent w
          ≡ some (mark_packet (noted_as (a "code") (some kind) prepared), w') =
        asked ∙ ap (λ s. some (mark_packet s, w')) known in
      (ap (λ s. s.response_type) known, rw (at, asked') refl)
