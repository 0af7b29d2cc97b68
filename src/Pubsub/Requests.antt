-- ===== src/Pubsub/Requests.antt =====
-- What the requests of src/mio_node.c and src/mio_affiliations.c hand to `mio_send_blocking`.
use libmio.Base.{◌≡◌, refl, ap, ◌∙◌, String, true, false, [], ◌∷◌, Option, none, some, ◌>>=◌}
use libmio.Decimal.{pos}
use libmio.Xml.{Strophe, Tree, element, nil}
use libmio.Xml.Laws.{tree_laws}
use libmio.Response.{Code}
use libmio.Pubsub.{
  or_recent, meta_handler, references_handler, schedule_handler, Client, AnswerHandler,
  error_handler, type_handler, subscriptions_handler, affiliations_handler, Sender,
  if_authenticated, server_of, concat,
}
use libmio.Node.{item_publish, node_create, node_type_query, node_delete, node_register}
use libmio.Affiliations.Requests.{
  subscriptions_query, affiliations_query, affiliation_set, unsubscribe,
}
use libmio.Affiliations.{AffiliationType}
use libmio.Pubsub.Builds.{
  set_twice, renamed_twice, Builds, publish-Builds, affiliate-Builds, recent-Builds,
  all_recent-Builds,
}
use libmio.Node.Items.{
  item_recent_get, items_recent_get, meta_query, references_query, schedule_query,
}
use libmio.Pubsub.Calls.{
  attributes, el, one, Call, publish, create, query_type, delete, register, subscriptions,
  affiliations, affiliate, leave, recent, all_recent, meta, references, schedule, handler_of,
  node_of, any, owner, request_tree,
}

module _ (x : Strophe) where
  open x use {
    Stanza, tree, tree-new, tree-set_name, tree-set_attribute, tree-set_text, tree-add_child,
  }

  module _ {W : Type 0} (send : Sender Stanza W) where
    -- The function of the source for a call.
    abbrev pub run : Call Stanza → Client → W → Option (Code × W)
    run (publish item node) c w = item_publish x send c item node w
    run (create node title access) c w = node_create x send c node title access w
    run (query_type node) c w = node_type_query x send c node w
    run (delete node) c w = node_delete x send c node w
    run (register new_node creation_node) c w = node_register x send c new_node creation_node w
    run (subscriptions asked) c w = subscriptions_query x send c asked w
    run (affiliations asked) c w = affiliations_query x send c asked w
    run (affiliate node jid type) c w = affiliation_set x send c node jid type w
    run (leave node sub_id) c w = unsubscribe x send c node sub_id w
    run (recent node max_items item_id handler) c w =
        item_recent_get x send c node max_items item_id handler w
    run (all_recent node max_items item_id handler) c w =
        items_recent_get x send c node max_items item_id handler w
    run (meta node) c w = meta_query x send c node w
    run (references node) c w = references_query x send c node w
    run (schedule node) c w = schedule_query x send c node w

    run-refused :
        (call : Call Stanza) (c : Client) (w : W)
        → c.authenticated ≡ false
        → run call c w ≡ some (Code.error_disconnected, w)
    unfolding item_publish node_create node_type_query node_delete node_register subscriptions_query
        affiliations_query affiliation_set unsubscribe item_recent_get items_recent_get meta_query
        references_query schedule_query
    run-refused (publish item node) c w e = rw e
    run-refused (create node title access) c w e = rw e
    run-refused (query_type node) c w e = rw e
    run-refused (delete node) c w e = rw e
    run-refused (register new_node creation_node) c w e = rw e
    run-refused (subscriptions asked) c w e = rw e
    run-refused (affiliations asked) c w e = rw e
    run-refused (affiliate node jid type) c w e = rw e
    run-refused (leave node sub_id) c w e = rw e
    run-refused (recent node max_items item_id handler) c w e = rw e
    run-refused (all_recent node max_items item_id handler) c w e = rw e
    run-refused (meta node) c w e = rw e
    run-refused (references node) c w e = rw e
    run-refused (schedule node) c w e = rw e

    -- One request, with the handler and the tree.
    abbrev pub Sends : Call Stanza → (server : String) → Client → W → Option Tree → Type 0
    Sends call server c w none = run call c w ≡ some (Code.error_unknown_affiliation_type, w)
    Sends call server c w (some t) =
        (s : Stanza) × (run call c w ≡ some (send (handler_of call) s w)) × (tree s ≡ t)

    sent :
        (h : AnswerHandler) (o : Option Stanza) (t : Tree) (c : Client) (w : W)
        → c.authenticated ≡ true
        → Builds x o t
        → (s : Stanza) × (if_authenticated c w (o >>= λ s. some (send h s w)) ≡ some (send h s w))
          × (tree s ≡ t)
    sent h none t c w up built = absurd built
    sent h (some s) t c w up built = (s, rw up, built)

    authenticated-Sends :
        (call : Call Stanza) (c : Client) (server : String) (w : W)
        → c.authenticated ≡ true
        → server_of c (node_of call) ≡ some server
        → Sends call server c w (request_tree x c server call)
    unfolding item_publish node_create node_type_query node_delete node_register subscriptions_query
        affiliations_query affiliation_set unsubscribe item_recent_get items_recent_get meta_query
        references_query schedule_query
    authenticated-Sends (publish item node) c server w up at =
        sent error_handler _ _ c w up (publish-Builds x c item node server at)
    authenticated-Sends (create node none none) c server w up at =
        sent error_handler _ _ c w up (rw at (simp tree_laws))
    authenticated-Sends (create node none (some a)) c server w up at =
        sent error_handler _ _ c w up (rw at (simp tree_laws))
    authenticated-Sends (create node (some t) none) c server w up at =
        sent error_handler _ _ c w up (rw at (simp tree_laws))
    authenticated-Sends (create node (some t) (some a)) c server w up at =
        sent error_handler _ _ c w up (rw at (simp tree_laws))
    authenticated-Sends (query_type node) c server w up at =
        sent type_handler _ _ c w up (rw at (simp tree_laws))
    authenticated-Sends (delete node) c server w up at = sent error_handler _ _ c w up (
        rw at (
          simp tree_laws
            (renamed_twice c server "set" owner any (one (el "delete" (("node", node) ∷ []) nil)))))
    authenticated-Sends (register new_node creation_node) c server w up at =
        sent error_handler _ _ c w up (rw at (simp tree_laws))
    authenticated-Sends (subscriptions none) c server w up at =
        sent subscriptions_handler _ _ c w up (rw at (simp tree_laws))
    authenticated-Sends (subscriptions (some n)) c server w up at =
        sent subscriptions_handler _ _ c w up (
          rw at (
            simp tree_laws (
              renamed_twice c server "get" owner any
                (one (el "subscriptions" (("node", n) ∷ []) nil)))))
    authenticated-Sends (affiliations none) c server w up at =
        sent affiliations_handler _ _ c w up (
          rw at (
            simp tree_laws (renamed_twice c server "get" any any (one (el "affiliations" [] nil)))))
    authenticated-Sends (affiliations (some n)) c server w up at =
        sent affiliations_handler _ _ c w up (
          rw at (
            simp tree_laws (
              ap
                (λ a.
                  el "iq" (("type", "get") ∷ ("id", c.uuid) ∷ ("to", concat "pubsub." server) ∷ [])
                    (one
                      (element (some "pubsub") a (one (el "affiliations" (("node", n) ∷ []) nil)))))
                (set_twice "xmlns" owner any (attributes (("xmlns", any) ∷ [])))
              ∙ renamed_twice c server "get" owner any
                  (one (el "affiliations" (("node", n) ∷ []) nil)))))
    authenticated-Sends (affiliate node jid AffiliationType.unknown) c server w up at = rw (up, at)
    authenticated-Sends (affiliate node jid AffiliationType.none) c server w up at =
        sent error_handler _ _ c w up (affiliate-Builds x c node jid "none" server at)
    authenticated-Sends (affiliate node jid AffiliationType.owner) c server w up at =
        sent error_handler _ _ c w up (affiliate-Builds x c node jid "owner" server at)
    authenticated-Sends (affiliate node jid AffiliationType.member) c server w up at =
        sent error_handler _ _ c w up (affiliate-Builds x c node jid "member" server at)
    authenticated-Sends (affiliate node jid AffiliationType.publisher) c server w up at =
        sent error_handler _ _ c w up (affiliate-Builds x c node jid "publisher" server at)
    authenticated-Sends (affiliate node jid AffiliationType.publish_only) c server w up at =
        sent error_handler _ _ c w up (affiliate-Builds x c node jid "publish-only" server at)
    authenticated-Sends (affiliate node jid AffiliationType.outcast) c server w up at =
        sent error_handler _ _ c w up (affiliate-Builds x c node jid "outcast" server at)
    authenticated-Sends (leave node none) c server w up at =
        sent error_handler _ _ c w up (rw at (simp tree_laws))
    authenticated-Sends (leave node (some id)) c server w up at =
        sent error_handler _ _ c w up (rw at (simp tree_laws))
    authenticated-Sends (recent node max_items item_id handler) c server w up at =
        sent (or_recent handler) _ _ c w up (recent-Builds x c node server max_items item_id at)
    authenticated-Sends (all_recent node max_items item_id handler) c server w up at =
        sent (or_recent handler) _ _ c w up (all_recent-Builds x c node server max_items item_id at)
    authenticated-Sends (meta node) c server w up at =
        sent meta_handler _ _ c w up (rw at (simp tree_laws))
    authenticated-Sends (references node) c server w up at =
        sent references_handler _ _ c w up
          (recent-Builds x c node server (pos 1) (some "references") at)
    authenticated-Sends (schedule node) c server w up at =
        sent schedule_handler _ _ c w up
          (recent-Builds x c node server (pos 1) (some "schedule") at)

    -- Fourteen requests: of event nodes, items, affiliations and subscriptions. Where the node, or
    -- else the user's id, names a server: a client that is not authenticated gets
    -- MIO_ERROR_DISCONNECTED and nothing is sent; one that is hands over exactly one stanza, which
    -- is the tree that stands for the request, with the handler of its answer; an affiliation of
    -- an unknown type is refused with its code, and nothing is sent.
    pub run-Sends :
        (call : Call Stanza) (c : Client) (server : String) (w : W)
        → server_of c (node_of call) ≡ some server
        → (run call (record c { authenticated = false }) w ≡ some (Code.error_disconnected, w))
          × Sends call server (record c { authenticated = true }) w (request_tree x c server call)
    run-Sends call c server w at = (
      run-refused call (record c { authenticated = false }) w refl,
      authenticated-Sends call (record c { authenticated = true }) server w refl at,
    )
