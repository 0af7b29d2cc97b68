-- ===== src/Examples/MetaServer.antt =====
-- A server that keeps meta data, and what is merged and removed there.
use libmio.Handlers.{unset}
use mathlib.Core.List.{not-mem-nil}
use libmio.Base.{
  ◌>>=◌, strcmp_eq, unlink_hit, ◌≡◌, refl, ap, ◌∙◌, String, [], ◌∷◌, Option, none, some,
}
use libmio.Xml.{trees, Tree, text}
use libmio.Meta.{location, Meta, meta_new, transducer_remove}
use libmio.Meta.Item.{meta_to_item}
use libmio.Meta.Trees.Whole.{meta_tree, tree-meta_to_item}
use libmio.Meta.Reading.{MetaReading}
use libmio.Meta.Callbacks.{visitor}
use libmio.Meta.RoundTrip.{arrived_meta, start_reading, visit-answer, visit-meta_tree}
use libmio.Meta.Publish.{remove_publish, remove_transducers}
use libmio.Meta.Publish.Kept.{keep_meta_at, IsUnlocated, KeepsMeta, remove_publish-keeps}
use libmio.Response.{Code, Response, ResponseType, Body, packet, response_new, packet_new}
use libmio.Response.Payloads.{answer}
use libmio.Handlers.Visit.{visit}
use libmio.Geoloc.{geoloc_new}
use libmio.Reference.Attributes.{overlay}
use libmio.Reference.Children.{Remote}
use libmio.Reference.Children.Kept.{answered, described}
use libmio.Examples.Told.{no_attributes}
use libmio.Examples.Devices.{texts, switch, lamp}

abbrev W : Type 0
W = String → Meta String

abbrev meta_or : Option (Meta String) → Meta String
meta_or none = meta_new
meta_or (some m) = m

abbrev meta_of_body : Body (Option (Meta String)) → Meta String
meta_of_body (packet p) = meta_or p.payload
meta_of_body _ = meta_new

abbrev meta_of : Option (MetaReading String) → Meta String
meta_of none = meta_new
meta_of (some s) = meta_of_body s.response.response

-- what a reader of the item finds
abbrev decoded : Tree → Meta String
decoded t = meta_of (
    visit (visitor texts) none unset (answer no_attributes no_attributes no_attributes t)
      (start_reading texts response_new (packet_new none)))

abbrev accept : W → Option Tree → String → Response Unit → Option (W × Code × Response Unit)
accept w none node r = none
accept w (some item) node r =
    some (keep_meta_at node (decoded item) w, Code.ok, record r { response_type = ResponseType.ok })

abbrev server : Remote W String trees
server = record {
  references_query = λ w node. (w, answered []);
  meta_query = λ w node. (w, described (w node));
  publish = accept;
}

abbrev metas : W → String → Meta String
metas w = w

abbrev listing : W → String → Code
listing _ _ = Code.ok

decoded-meta_to_item :
    (m : Meta String) (item : Tree)
    → IsUnlocated m
    → meta_to_item trees texts m ≡ some (some item)
    → decoded item ≡ arrived_meta m
decoded-meta_to_item m item h e =
    let (type, typed, shape) = tree-meta_to_item trees texts m item h.here h.there e in
    ap decoded shape
    ∙ ap meta_of (
        visit-answer texts no_attributes no_attributes no_attributes
          (overlay "id" (some "meta") (λ _. none)) (meta_tree m type) response_new (packet_new none)
        ∙ visit-meta_tree texts m type response_new (packet_new none) typed)

kept : KeepsMeta trees texts server listing metas
kept = record {
  queried = λ _ _. refl;
  answers = λ _ _. refl;
  asked = λ _ _. refl;
  lists = λ _ _. (_, refl);
  answered_references = λ _ _. refl;
  publishes = λ w m item node r h e. (
    keep_meta_at node (decoded item) w,
    record r { response_type = ResponseType.ok },
    refl,
    ap (λ l. keep_meta_at node l w) (decoded-meta_to_item m item h e),
  );
}

abbrev lamps : W
lamps _ = lamp

abbrev update : Meta String
update = record meta_new { name = some "lantern"; timestamp = some "noon"; meta_type = location }

abbrev lantern : Meta String
lantern = record lamp { name = some "lantern"; timestamp = some "noon"; meta_type = location }

abbrev item_of : Option (Option Tree) → Tree
item_of (some (some t)) = t
item_of _ = text ""

abbrev placed : W
placed _ = record lamp { geoloc = some geoloc_new }

lamp-IsUnlocated : IsUnlocated lamp
lamp-IsUnlocated = record { here = refl; there = (refl, tt) }

abbrev retract : W → String → Response Unit → W × Code × Response Unit
retract w node r = (keep_meta_at node meta_new w, Code.ok, r)

abbrev bare : Meta String
bare = record lamp { transducers = [] }

without_switch : remove_transducers (switch ∷ []) ("switch" ∷ []) ≡ some []
unfolding transducer_remove
without_switch =
    ap (λ o. o >>= λ l. some l)
      (unlink_hit (λ t. strcmp_eq t.name "switch") [] switch [] refl
        (λ b m. absurd (not-mem-nil m)))

remove_publish-keeps_example :
    (w' : W) × (r' : Response Unit) × (remove_publish trees texts server retract lamps "hall" none
        ("switch" ∷ [])
        []
        response_new
      ≡ some (Code.ok, w', r'))
    × (w' ≡ keep_meta_at "hall" (arrived_meta bare) lamps)
unfolding meta_to_item
remove_publish-keeps_example =
    remove_publish-keeps trees texts server listing metas kept retract lamps "hall" ("switch" ∷ [])
      [] [] lamp.properties response_new (item_of (meta_to_item trees texts bare)) without_switch
      refl (record { here = refl; there = tt }) refl
