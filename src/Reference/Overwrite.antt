-- ===== src/Reference/Overwrite.antt =====
-- `_mio_reference_meta_type_overwrite_publish` of src/mio_reference.c.
use mathlib.Core.Path.{fun_ext}
use libmio.Base.{
  ◌≡◌, refl, ap, sym, ◌∙◌, String, true, false, List, [], ◌∷◌, ◌++◌, Option, some, if◌then◌else◌,
  ◌>>=◌, add_last-append, str_eq, str_eq_iff, Bool-cases, ◌⊎◌, inl, inr,
}
use libmio.Xml.{Strophe}
use libmio.Meta.{MetaType, Meta}
use libmio.Response.{Code, Response}
use libmio.Reference.{
  ReferenceType, Reference, unkown, same_type, reference_remove, reference_add, references_to_item,
}
use libmio.Reference.Children.{Remote, is_packet, is_references, packet_of, reference_add_named}
use libmio.Reference.Children.Kept.{IsKept, keep_at, IsKnown, fill_in-new}
use libmio.Reference.Children.Removed.{Parts, reference_remove-Parts}

module _ {W D : Type 0} (x : Strophe) (remote : Remote W D x) where
  open remote use {references_query, publish}

  -- What is left is published with the new reference, unless nothing is left.
  abbrev publish_overwritten :
      W
      → (node ref_node : String) → ReferenceType
      → MetaType
      → Response Unit
      → List Reference
      → Option (Code × W × Response Unit)
  publish_overwritten w node ref_node type meta_type response [] = some (Code.ok, w, response)
  publish_overwritten w node ref_node type meta_type response (r ∷ rs) = do
    (w1, more) ← reference_add_named x remote w (r ∷ rs) type meta_type ref_node
    (w2, _, published) ← publish w1 (references_to_item x more) node response
    some (Code.ok, w2, published)

  -- `_mio_reference_meta_type_overwrite_publish`
  unfoldable pub overwrite_publish :
      W
      → (node ref_node : String) → ReferenceType
      → MetaType
      → Response Unit
      → Option (Code × W × Response Unit)
  overwrite_publish w node ref_node type meta_type response =
      let (w1, queried) = references_query w node in
      if is_packet queried.response_type
      then (packet_of queried.response >>= λ p.
          if is_references p.type
          then (reference_remove p.payload type ref_node
              >>= publish_overwritten w1 node ref_node type meta_type response)
          else some (Code.error_unexpected_payload, w1, response))
      else some (Code.error_unexpected_response, w1, response)

keep_at-same :
    (node : String) (stored : String → List Reference) → keep_at node (stored node) stored ≡ stored
keep_at-same node stored = fun_ext λ j. back j (Bool-cases (str_eq node j))
  where
    back :
        (j : String)
        → (str_eq node j ≡ true) ⊎ (str_eq node j ≡ false)
        → keep_at node (stored node) stored j ≡ stored j
    back j (inl hit) = rw hit (ap stored ((str_eq_iff node j).0 hit))
    back j (inr miss) = rw miss

-- The list behind the call, given what is left of the old one.
abbrev pub overwritten : (left old : List Reference) → Reference → List Reference
overwritten [] old new = old
overwritten (r ∷ rs) old new = (r ∷ rs) ++ (new ∷ [])

module _ {W D : Type 0} (x : Strophe) (remote : Remote W D x) (stored : W → String → List Reference)
    (metas : String → Meta D) (kept : IsKept x remote stored metas) where
  open remote use {references_query, meta_query, publish}

  abbrev pub typed_link : ReferenceType → MetaType → String → Reference
  typed_link type meta_type ref_node = record {
    type = type;
    node = some ref_node;
    name = (metas ref_node).name;
    meta_type = meta_type;
  }

  reference_add_named-known :
      (w : W) (r : Reference) (rs : List Reference) (type : ReferenceType) (meta_type : MetaType)
      (ref_node : String)
      → same_type r.type unkown ≡ false
      → reference_add_named x remote w (r ∷ rs) type meta_type ref_node
        ≡ some ((meta_query w ref_node).0, (r ∷ rs) ++ (typed_link type meta_type ref_node ∷ []))
  unfolding reference_add
  reference_add_named-known w r rs type meta_type ref_node known = rw (
    kept.describes w ref_node,
    known,
    fill_in-new type meta_type ref_node (metas ref_node).name,
    add_last-append rs (typed_link type meta_type ref_node),
  )

  publish_overwritten-stores :
      (w : W) (node ref_node : String) (type : ReferenceType) (meta_type : MetaType)
      (response : Response Unit) (left : List Reference) (item : x.Stanza)
      → IsKnown left
      → references_to_item x (left ++ (typed_link type meta_type ref_node ∷ [])) ≡ some item
      → (w' : W) × (r' : Response Unit) × (publish_overwritten x remote w node ref_node type
            meta_type response left
          ≡ some (Code.ok, w', r'))
        × (stored w'
            ≡ keep_at node
                (overwritten left (stored w node) (typed_link type meta_type ref_node))
                (stored w))
  publish_overwritten-stores w node ref_node type meta_type response [] item known e =
      (w, response, refl, sym (keep_at-same node (stored w)))
  publish_overwritten-stores w node ref_node type meta_type response (r ∷ rs) item known e =
      let w1 = (meta_query w ref_node).0 in
      let (w', r', published, _, after) =
        kept.publishes w1 ((r ∷ rs) ++ (typed_link type meta_type ref_node ∷ [])) item node response
          e in
      (
        w',
        r',
        rw (reference_add_named-known w r rs type meta_type ref_node known, e, published),
        after
            ∙ ap (keep_at node ((r ∷ rs) ++ (typed_link type meta_type ref_node ∷ [])))
                (kept.asked w ref_node),
      )

  -- At a server that keeps what is published and answers with it, where the node's list has a
  -- reference of the type to the other node, what is left without it does not start with a
  -- reference of unknown type, and has an item with the new reference behind it: the call returns
  -- MIO_OK, and the node's list is what is left with the new reference at its end; but where
  -- nothing is left, the list stays as it was. The other nodes keep their lists.
  pub overwrite_publish-stores :
      (w : W) (node ref_node : String) (type : ReferenceType) (meta_type : MetaType)
      (response : Response Unit) (xs : List Reference) (r : Reference) (ys : List Reference)
      (item : x.Stanza)
      → Parts (stored w node) type ref_node xs r ys
      → IsKnown (xs ++ ys)
      → references_to_item x ((xs ++ ys) ++ (typed_link type meta_type ref_node ∷ [])) ≡ some item
      → (w' : W) × (r' : Response Unit) × (overwrite_publish x remote w node ref_node type meta_type
            response
          ≡ some (Code.ok, w', r'))
        × (stored w'
            ≡ keep_at node
                (overwritten (xs ++ ys) (stored w node) (typed_link type meta_type ref_node))
                (stored w))
  unfolding overwrite_publish
  overwrite_publish-stores w node ref_node type meta_type response xs r ys item h known e =
      let w1 = (references_query w node).0 in
      let (w', r', published, after) =
        publish_overwritten-stores w1 node ref_node type meta_type response (xs ++ ys) item known
          e in
      (
        w',
        r',
        rw
            (
              kept.answers w node,
              h.whole,
              reference_remove-Parts (stored w node) type ref_node xs r ys h,
            )
            published,
        after
            ∙ ap
                (λ f.
                  keep_at node
                    (overwritten (xs ++ ys) (f node) (typed_link type meta_type ref_node)) f)
                (kept.queried w node),
      )
