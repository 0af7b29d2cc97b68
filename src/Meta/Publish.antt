-- ===== src/Meta/Publish.antt =====
-- The functions of src/mio_meta.c that query a node's meta data, change them, and publish them. What
-- the node answers and keeps is an argument.

pub mod Kept
use libmio.Base.{
  String, Bool, true, false, not, ◌||◌, List, [], ◌∷◌, Option, none, some, str_eq, if◌then◌else◌,
  ◌>>=◌,
}
use libmio.Xml.{Strophe}
use libmio.Geoloc.{Doubles}
use libmio.Meta.{
  MetaType, unknown, device, location, gateway, adapter, agent, Property, TransducerMeta, Meta,
  meta_new, meta_merge, transducer_remove, property_remove, transducer_geoloc_remove,
  meta_geoloc_remove,
}
use libmio.Meta.Item.{meta_to_item}
use libmio.Response.{Code, is_ok, Response, Body, null, err, packet, response_new}
use libmio.Reference.{Reference, ReferenceType, unkown, child, parent}
use libmio.Reference.Children.{Remote, is_packet, is_meta, is_references, packet_of}
use libmio.Reference.Overwrite.{overwrite_publish}

abbrev pub same_meta_type : MetaType → MetaType → Bool
same_meta_type unknown unknown = true
same_meta_type device device = true
same_meta_type location location = true
same_meta_type gateway gateway = true
same_meta_type adapter adapter = true
same_meta_type agent agent = true
same_meta_type _ _ = false

-- Whether the name or the type of the meta data changes.
abbrev pub is_renamed : (old new : String) → (old_type new_type : MetaType) → Bool
is_renamed n k y z = not (str_eq n k) || not (same_meta_type y z)

abbrev pub or_new_meta : {D : Type 0} → Option (Meta D) → Meta D
or_new_meta none = meta_new
or_new_meta (some m) = m

-- The loops over the names of what is to be removed.
abbrev pub remove_transducers :
    {D : Type 0} → List (TransducerMeta D) → List String → Option (List (TransducerMeta D))
remove_transducers ts [] = some ts
remove_transducers ts (n ∷ ns) = do l ← transducer_remove ts n; remove_transducers l ns

abbrev pub remove_properties : List Property → List String → Option (List Property)
remove_properties ps [] = some ps
remove_properties ps (n ∷ ns) = do l ← property_remove ps n; remove_properties l ns

module _ {W : Type 0} (x : Strophe) (d : Doubles) (remote : Remote W d.Double x) where
  open d use {Double}
  open remote use {references_query, meta_query, publish}

  -- `mio_meta_to_item` and `mio_item_publish`
  abbrev pub publish_meta :
      W → String → Response Unit → Meta Double → Option (Code × W × Response Unit)
  publish_meta w node response m = do
    item ← meta_to_item x d m
    (w', e, published) ← publish w item node response
    some (e, w', published)

  -- `mio_meta_geoloc_remove` of the meta data, or of the transducer that is named
  abbrev pub without_geoloc : Meta Double → (transducer_name : Option String) → Option (Meta Double)
  without_geoloc m none = meta_geoloc_remove m
  without_geoloc m (some t) = do
    ts ← transducer_geoloc_remove m.transducers t
    some (record m { transducers = ts })

  -- `mio_meta_geoloc_remove_publish`
  unfoldable pub geoloc_remove_publish :
      W
      → String
      → (transducer_name : Option String) → Response Unit
      → Option (Code × W × Response Unit)
  geoloc_remove_publish w node transducer_name response =
      let (w1, queried) = meta_query w node in
      if is_packet queried.response_type
      then (packet_of queried.response >>= λ p.
          if is_meta p.type
          then (p.payload >>= λ m.
              without_geoloc m transducer_name >>= publish_meta w1 node response)
          else some (Code.error_unexpected_payload, w1, response))
      else some (Code.error_unexpected_response, w1, response)

  -- What one reference of a node whose meta data are removed leads to at the other node.
  abbrev pub forget_one : W → String → Code → ReferenceType → Option String → Option (Code × W)
  forget_one w node e child other = do
    o ← other
    (e', w', _) ← overwrite_publish x remote w o node parent unknown response_new
    some (e', w')
  forget_one w node e parent other = do
    o ← other
    (e', w', _) ← overwrite_publish x remote w o node child unknown response_new
    some (e', w')
  forget_one w node e unkown other = some (e, w)

  -- The loop over the references of a node whose meta data are removed. `e` is the code so far.
  abbrev pub forget_at : W → String → Code → List Reference → Option (Code × W)
  forget_at w node e [] = some (e, w)
  forget_at w node e (r ∷ rs) = do
    (e', w') ← forget_one w node e r.type r.node
    forget_at w' node e' rs

  -- `retract` is the request that removes the item of the meta data.
  module _ (retract : W → String → Response Unit → W × Code × Response Unit) where
    abbrev pub retracted : W → String → Response Unit → Option (Code × W × Response Unit)
    retracted w node response =
        let (w1, e, answered) = retract w node response in
        let (w2, queried) = references_query w1 node in
        if is_packet queried.response_type
        then (packet_of queried.response >>= λ p.
            if is_references p.type
            then (forget_at w2 node e p.payload >>= λ (e', w3). some (e', w3, answered))
            else some (e, w2, answered))
        else some (e, w2, answered)

    -- The item is removed whole, or published without some transducers and properties.
    abbrev pub or_change :
        (meta_name : Option String)
        → W
        → String
        → (transducer_names property_names : List String) → Response Unit
        → Option (Meta Double)
        → Option (Code × W × Response Unit)
    or_change (some _) w node transducer_names property_names response m = retracted w node response
    or_change none w node transducer_names property_names response found = do
      m ← found
      ts ← remove_transducers m.transducers transducer_names
      ps ← remove_properties m.properties property_names
      publish_meta w node response (record m { transducers = ts; properties = ps })

    -- `mio_meta_remove_publish`
    unfoldable pub remove_publish :
        W
        → String
        → (meta_name : Option String) (transducer_names property_names : List String)
        → Response Unit
        → Option (Code × W × Response Unit)
    remove_publish w node meta_name transducer_names property_names response =
        let (w1, queried) = meta_query w node in
        if is_packet queried.response_type
        then (packet_of queried.response >>= λ p.
            if is_meta p.type
            then or_change meta_name w1 node transducer_names property_names response p.payload
            else some (Code.error_unexpected_payload, w1, response))
        else some (Code.error_unexpected_response, w1, response)

  -- The second part of `mio_meta_merge_publish`: the references of the node are read, and nothing
  -- is done with them.
  module _ (references_code : W → String → Code) where
    abbrev pub read_references : Bool → W → String → Option (Code × W × Option (Response Unit))
    read_references false w node = some (Code.ok, w, none)
    read_references true w node =
        let (w', queried) = references_query w node in
        if is_ok (references_code w node)
        then (elim queried.response [
          | null ↦ some (Code.ok, w', none)
          | packet p ↦ some (Code.ok, w', none)
          | err e ↦ none
        ])
        else some (references_code w node, w', none)

    -- `mio_meta_merge_publish` of meta data that are not `NULL`. The result has no response where
    -- the caller's is freed.
    unfoldable pub meta_merge_publish :
        W → String → Meta Double → Response Unit → Option (Code × W × Option (Response Unit))
    meta_merge_publish w node m response =
        let (w1, queried) = meta_query w node in
        if is_packet queried.response_type
        then (packet_of queried.response >>= λ p.
            if is_meta p.type
            then (do
              let old = or_new_meta p.payload
              n ← old.name
              k ← m.name
              merged ← meta_merge old m
              (e, w2, published) ← publish_meta w1 node response merged
              if is_ok e
                  then read_references (is_renamed n k old.meta_type m.meta_type) w2 node
                  else some (e, w2, some published))
            else some (Code.error_unexpected_response, w1, some response))
        else some (Code.error_unexpected_response, w1, some response)
