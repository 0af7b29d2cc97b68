-- ===== src/Examples/Server.antt =====
-- A server that keeps the lists of references of all nodes, and a child that is added and removed.
use libmio.Handlers.{open_name, unset}
use mathlib.Core.List.{not-mem-nil}
use libmio.Base.{◌≡◌, refl, ap, ◌∙◌, String, true, false, List, [], ◌∷◌, Option, none, some, ℕ}
use libmio.Xml.{trees, Tree, text}
use libmio.Meta.{Meta, meta_new}
use libmio.Response.{Code, Response, ResponseType, Body, packet, response_new, packet_new}
use libmio.Response.Payloads.{holding}
use libmio.Handlers.Visit.{visit}
use libmio.Reference.{Reference, child, parent, references_to_item}
use libmio.Reference.Callbacks.{visitor}
use libmio.Reference.Item.{tree-item}
use libmio.Reference.Children.{Remote, is_error, child_add, child_remove}
use libmio.Reference.Children.Kept.{IsKept, keep_at, answered, described, link, child_add-stores}
use libmio.Reference.Children.Removed.{Parts, child_remove-stores}

abbrev pub W : Type 0
W = String → List Reference

abbrev references_in : Body (List Reference) → List Reference
references_in (packet p) = p.payload
references_in _ = []

abbrev references_of : Option (Response (List Reference)) → List Reference
references_of none = []
references_of (some r) = references_in r.response

-- what a reader of the item finds
abbrev decoded : Tree → List Reference
decoded t = references_of (visit visitor none unset t (holding response_new (packet_new [])))

abbrev accept : W → Option Tree → String → Response Unit → Option (W × Code × Response Unit)
accept w none node r = none
accept w (some item) node r =
    some (keep_at node (decoded item) w, Code.ok, record r { response_type = ResponseType.ok })

abbrev pub no_meta : String → Meta ℕ
no_meta _ = meta_new

abbrev pub server : Remote W ℕ trees
server = record {
  references_query = λ w node. (w, answered (w node));
  meta_query = λ w node. (w, described (no_meta node));
  publish = accept;
}

abbrev pub stored : W → String → List Reference
stored w = w

decoded-references_to_item :
    (rs : List Reference) (item : Tree)
    → references_to_item trees rs ≡ some item
    → decoded item ≡ rs
decoded-references_to_item rs item e =
    let (t, a, l, shape) = tree-item trees rs item e in
    ap decoded shape
    ∙ rw (l.shape, l.runs (some "references") (open_name "references") response_new (packet_new []))

pub kept : IsKept trees server stored no_meta
kept = record {
  queried = λ _ _. refl;
  answers = λ _ _. refl;
  asked = λ _ _. refl;
  describes = λ _ _. refl;
  publishes = λ w rs item node r e. (
    keep_at node (decoded item) w,
    record r { response_type = ResponseType.ok },
    refl,
    refl,
    ap (λ l. keep_at node l w) (decoded-references_to_item rs item e),
  );
}

abbrev pub item_of : Option Tree → Tree
item_of none = text ""
item_of (some t) = t

abbrev pub empty : W
empty _ = []

abbrev pub lamp : Reference
lamp = link child "lamp" (no_meta "lamp")

abbrev pub room : Reference
room = link parent "room" (no_meta "room")

abbrev linked : W
linked = keep_at "room" (lamp ∷ []) (keep_at "lamp" (room ∷ []) empty)

child_add-stores_example :
    (w' : W) × (r' : Response Unit) × (child_add trees server true empty "room" "lamp" response_new
      ≡ some (Code.ok, w', r'))
    × (is_error r'.response_type ≡ false)
    × (w' ≡ linked)
unfolding references_to_item
child_add-stores_example =
    child_add-stores trees server stored no_meta kept empty "room" "lamp" response_new
      (item_of (references_to_item trees (lamp ∷ [])))
      (item_of (references_to_item trees (room ∷ []))) tt tt refl refl refl refl

at_lamp : Parts (linked "lamp") parent "room" [] room []
at_lamp = record { whole = refl; hit = refl; miss = λ b m. absurd (not-mem-nil m) }

at_room : Parts (linked "room") child "lamp" [] lamp []
at_room = record { whole = refl; hit = refl; miss = λ b m. absurd (not-mem-nil m) }

child_remove-stores_example :
    (w' : W) × (child_remove trees server linked "room" "lamp" response_new
      ≡ some (Code.ok, w', record response_new { response_type = ResponseType.ok }))
    × (w' ≡ keep_at "room" [] (keep_at "lamp" [] linked))
unfolding references_to_item
child_remove-stores_example =
    child_remove-stores trees server stored no_meta kept linked "room" "lamp" response_new [] room
      [] [] lamp [] (item_of (references_to_item trees [])) (item_of (references_to_item trees []))
      refl at_lamp at_room refl refl
