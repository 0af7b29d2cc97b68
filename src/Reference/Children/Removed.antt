-- ===== src/Reference/Children/Removed.antt =====
-- What a server keeps when a child is removed.
use mathlib.Core.List.{Mem}
use libmio.Base.{
  ◌≡◌, refl, ap, ◌∙◌, String, true, false, List, [], ◌∷◌, ◌++◌, Option, some, str_eq, unlink_hit,
  ◌>>=◌,
}
use libmio.Xml.{Strophe}
use libmio.Meta.{Meta}
use libmio.Response.{Code, Response, ResponseType, response_new}
use libmio.Reference.{
  ReferenceType, Reference, child, parent, is_reference, reference_remove, references_to_item,
}
use libmio.Reference.Children.{Remote, remove_listed, remove_at, or_empty_item, child_remove}
use libmio.Reference.Children.Kept.{IsKept, keep_at}

-- A list in which the first reference of the type and node is `r`.
pub record Parts (l : List Reference) (type : ReferenceType) (node : String) (xs : List Reference)
    (r : Reference) (ys : List Reference) : Type 0 where
  pub whole : l ≡ xs ++ (r ∷ ys)
  pub hit : is_reference type node r ≡ some true
  pub miss : (b : Reference) → Mem b xs → is_reference type node b ≡ some false

pub reference_remove-Parts :
    (l : List Reference) (type : ReferenceType) (node : String) (xs : List Reference)
    (r : Reference) (ys : List Reference)
    → Parts l type node xs r ys
    → reference_remove (xs ++ (r ∷ ys)) type node ≡ some (xs ++ ys)
unfolding reference_remove
reference_remove-Parts l type node xs r ys h =
    unlink_hit (is_reference type node) xs r ys h.hit h.miss

module _ {W D : Type 0} (x : Strophe) (remote : Remote W D x) (stored : W → String → List Reference)
    (metas : String → Meta D) (kept : IsKept x remote stored metas) where
  open remote use {references_query, meta_query, publish}

  remove_listed-of :
      (item_or : Option x.Stanza → Option x.Stanza) (w : W) (type : ReferenceType)
      (node other : String) (xs : List Reference) (r : Reference) (ys left : List Reference)
      → reference_remove (xs ++ (r ∷ ys)) type other ≡ some left
      → remove_listed x remote item_or w type node other (some (xs ++ (r ∷ ys))) ≡ (
          publish w (item_or (references_to_item x left)) node response_new >>= λ (w', e, _).
          some (w', some e))
  remove_listed-of item_or w type node other [] r ys left h = rw h
  remove_listed-of item_or w type node other (q ∷ xs) r ys left h = rw h

  remove_at-stores :
      (item_or : Option x.Stanza → Option x.Stanza) (w : W) (type : ReferenceType)
      (node other : String) (xs : List Reference) (r : Reference) (ys : List Reference)
      (item : x.Stanza)
      → item_or (some item) ≡ some item
      → Parts (stored w node) type other xs r ys
      → references_to_item x (xs ++ ys) ≡ some item
      → (w' : W) × (remove_at x remote item_or w type node other ≡ some (w', some Code.ok))
        × (stored w' ≡ keep_at node (xs ++ ys) (stored w))
  remove_at-stores item_or w type node other xs r ys item same h e =
      let w1 = (references_query w node).0 in
      let (w', _, published, _, after) = kept.publishes w1 (xs ++ ys) item node response_new e in
      (
        w',
        rw (
          kept.answers w node,
          h.whole,
          remove_listed-of item_or w1 type node other xs r ys (xs ++ ys)
              (reference_remove-Parts (stored w node) type other xs r ys h),
          e,
          same,
          published,
        ),
        after ∙ ap (keep_at node (xs ++ ys)) (kept.queried w node),
      )

  -- At a server that keeps what is published and answers with it, where the child's list has the
  -- parent, the parent's list has the child, the two nodes differ, and what is left has an item:
  -- removing the child returns MIO_OK and the response MIO_RESPONSE_OK, the first such reference
  -- goes at each of the two nodes, the others keep their order, and the lists of all other nodes
  -- are as before.
  pub child_remove-stores :
      (w : W) (p c : String) (response : Response Unit) (xs : List Reference) (r : Reference)
      (ys us : List Reference) (q : Reference) (vs : List Reference) (at_child at_parent : x.Stanza)
      → str_eq c p ≡ false
      → Parts (stored w c) parent p xs r ys
      → Parts (stored w p) child c us q vs
      → references_to_item x (xs ++ ys) ≡ some at_child
      → references_to_item x (us ++ vs) ≡ some at_parent
      → (w' : W) × (child_remove x remote w p c response
          ≡ some (Code.ok, w', record response { response_type = ResponseType.ok }))
        × (stored w' ≡ keep_at p (us ++ vs) (keep_at c (xs ++ ys) (stored w)))
  unfolding child_remove
  child_remove-stores w p c response xs r ys us q vs at_child at_parent other at_c at_p e_c e_p =
      let (w1, removed, after) =
        remove_at-stores (or_empty_item x remote) w parent c p xs r ys at_child refl at_c e_c in
      let same : stored w1 p ≡ stored w p = ap (λ f. f p) after ∙ rw other in
      let (w', removed', after') =
        remove_at-stores (λ i. i) w1 child p c us q vs at_parent refl
          (record { whole = same ∙ at_p.whole; hit = at_p.hit; miss = at_p.miss }) e_p in
      (w', rw (removed, removed'), after' ∙ ap (keep_at p (us ++ vs)) after)
