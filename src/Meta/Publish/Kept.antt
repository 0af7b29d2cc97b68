-- ===== src/Meta/Publish/Kept.antt =====
-- What a server keeps of the publications of meta data.
use libmio.Base.{◌≡◌, ap, ◌∙◌, String, List, Option, none, some, str_eq, if◌then◌else◌}
use libmio.Xml.{Strophe}
use libmio.Geoloc.{Doubles}
use libmio.Meta.{Property, TransducerMeta, Meta}
use libmio.Meta.Item.{meta_to_item}
use libmio.Meta.Trees.Whole.{HaveNoLocation}
use libmio.Meta.RoundTrip.{arrived_meta}
use libmio.Response.{Code, Response, Packet, packet}
use libmio.Reference.{Reference}
use libmio.Reference.Children.{Remote}
use libmio.Reference.Children.Kept.{described}
use libmio.Meta.Publish.{
  remove_transducers, remove_properties, publish_meta, without_geoloc, geoloc_remove_publish,
  remove_publish,
}

module _ {D : Type 0} where
  abbrev pub keep_meta_at : String → Meta D → (String → Meta D) → String → Meta D
  keep_meta_at node m metas j = if str_eq node j then m else metas j

  -- Meta data without a location.
  pub record IsUnlocated (m : Meta D) : Type 0 where
    pub here : m.geoloc ≡ none
    pub there : HaveNoLocation m.transducers

-- A server that keeps meta data as they arrive, answers with them, and answers each query for
-- references.
pub record KeepsMeta {W : Type 0} (x : Strophe) (d : Doubles) (remote : Remote W d.Double x)
    (references_code : W → String → Code) (metas : W → String → Meta d.Double) : Type 0 where
  pub queried : (w : W) (node : String) → metas (remote.meta_query w node).0 ≡ metas w
  pub answers : (w : W) (node : String) → (remote.meta_query w node).1 ≡ described (metas w node)
  pub asked : (w : W) (node : String) → metas (remote.references_query w node).0 ≡ metas w
  pub lists :
      (w : W) (node : String)
      → (p : Packet (List Reference)) × ((remote.references_query w node).1.response ≡ packet p)
  pub answered_references : (w : W) (node : String) → references_code w node ≡ Code.ok
  pub publishes :
      (w : W) (m : Meta d.Double) (item : x.Stanza) (node : String) (r : Response Unit)
      → IsUnlocated m
      → meta_to_item x d m ≡ some (some item)
      → (w' : W) × (r' : Response Unit) × (remote.publish w (some item) node r
          ≡ some (w', Code.ok, r'))
        × (metas w' ≡ keep_meta_at node (arrived_meta m) (metas w))

module _ {W : Type 0} (x : Strophe) (d : Doubles) (remote : Remote W d.Double x)
    (references_code : W → String → Code) (metas : W → String → Meta d.Double)
    (kept : KeepsMeta x d remote references_code metas) where
  open d use {Double}
  open remote use {references_query, meta_query, publish}

  publish_meta-keeps :
      (w : W) (node : String) (response : Response Unit) (m : Meta Double) (item : x.Stanza)
      → IsUnlocated m
      → meta_to_item x d m ≡ some (some item)
      → (w' : W) × (r' : Response Unit) × (publish_meta x d remote w node response m
          ≡ some (Code.ok, w', r'))
        × (metas w' ≡ keep_meta_at node (arrived_meta m) (metas w))
  publish_meta-keeps w node response m item h e =
      let (w', r', published, after) = kept.publishes w m item node response h e in
      (w', r', rw (e, published), after)

  -- At a server that keeps meta data as they arrive and answers with them: where the node's meta
  -- data without the location of the named transducer, or where none is named without their own,
  -- have no location and have an item, the call returns MIO_OK, and the server keeps just this for
  -- the node, as it arrives, and for the other nodes what it kept before.
  pub geoloc_remove_publish-keeps :
      (w : W) (node : String) (transducer_name : Option String) (left : Meta Double)
      (response : Response Unit) (item : x.Stanza)
      → without_geoloc x d remote (metas w node) transducer_name ≡ some left
      → IsUnlocated left
      → meta_to_item x d left ≡ some (some item)
      → (w' : W) × (r' : Response Unit) × (geoloc_remove_publish x d remote w node transducer_name
            response
          ≡ some (Code.ok, w', r'))
        × (metas w' ≡ keep_meta_at node (arrived_meta left) (metas w))
  unfolding geoloc_remove_publish
  geoloc_remove_publish-keeps w node transducer_name left response item e h built =
      let w1 = (meta_query w node).0 in
      let (w', r', published, after) = publish_meta-keeps w1 node response left item h built in
      (
        w',
        r',
        rw (kept.answers w node, e) published,
        after ∙ ap (keep_meta_at node (arrived_meta left)) (kept.queried w node),
      )

  -- At a server that keeps meta data as they arrive and answers with them: where the transducers
  -- and properties with the given names can be removed from the node's meta data, and what is left
  -- has no location and has an item, the call returns MIO_OK, and the server keeps just this for
  -- the node, as it arrives, and for the other nodes what it kept before.
  pub remove_publish-keeps :
      (retract : W → String → Response Unit → W × Code × Response Unit) (w : W) (node : String)
      (transducer_names property_names : List String) (ts : List (TransducerMeta Double))
      (ps : List Property) (response : Response Unit) (item : x.Stanza)
      → remove_transducers (metas w node).transducers transducer_names ≡ some ts
      → remove_properties (metas w node).properties property_names ≡ some ps
      → IsUnlocated (record (metas w node) { transducers = ts; properties = ps })
      → meta_to_item x d (record (metas w node) { transducers = ts; properties = ps })
        ≡ some (some item)
      → (w' : W) × (r' : Response Unit) × (remove_publish x d remote retract w node none
            transducer_names property_names response
          ≡ some (Code.ok, w', r'))
        × (metas w'
            ≡ keep_meta_at node
                (arrived_meta (record (metas w node) { transducers = ts; properties = ps }))
                (metas w))
  unfolding remove_publish
  remove_publish-keeps retract w node transducer_names property_names ts ps response item et ep h
        built =
      let w1 = (meta_query w node).0 in
      let left : Meta Double = record (metas w node) { transducers = ts; properties = ps } in
      let (w', r', published, after) = publish_meta-keeps w1 node response left item h built in
      (
        w',
        r',
        rw (kept.answers w node, et, ep) published,
        after ∙ ap (keep_meta_at node (arrived_meta left)) (kept.queried w node),
      )
