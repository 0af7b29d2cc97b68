-- ===== src/Reference/Children/Kept.antt =====
-- What a server keeps of the publications of the two functions.
use libmio.Base.{
  ◌≡◌, refl, ap, sym, subst, ◌∙◌, String, true, false, List, [], ◌∷◌, ◌++◌, Option, none, some,
  arith, str_eq, if◌then◌else◌, length, ltb, add_last-append, ◌>>=◌,
}
use libmio.Xml.{Strophe}
use libmio.Meta.{MetaType, Meta}
use libmio.Response.{Code, Response, ResponseType, PacketType, packet, response_new}
use libmio.Reference.{
  ReferenceType, Reference, unkown, child, parent, reference_new, same_type, reference_add, fill_in,
  references_to_item,
}
use libmio.Reference.Children.{
  Remote, is_error, in_the_way, listed, node_type, reference_add_named, publish_parent,
  add_at_child, publish_child, child_add,
}

-- The answer to a query for references, and to one for meta data.
abbrev pub answered : List Reference → Response (List Reference)
answered rs = record response_new {
  response_type = ResponseType.packet;
  response =
      packet (record { type = PacketType.references; num_payloads = length rs; payload = rs });
}

abbrev pub described : {D : Type 0} → Meta D → Response (Option (Meta D))
described m = record response_new {
  response_type = ResponseType.packet;
  response = packet (record { type = PacketType.meta; num_payloads = 1; payload = some m });
}

-- The lists of all nodes, with another at one.
abbrev pub keep_at : String → List Reference → (String → List Reference) → String → List Reference
keep_at node rs stored j = if str_eq node j then rs else stored j

-- A server that keeps what is published, answers with it, and knows each node's meta data.
pub record IsKept {W D : Type 0} (x : Strophe) (remote : Remote W D x)
    (stored : W → String → List Reference) (metas : String → Meta D) : Type 0 where
  pub queried : (w : W) (node : String) → stored (remote.references_query w node).0 ≡ stored w
  pub answers :
      (w : W) (node : String) → (remote.references_query w node).1 ≡ answered (stored w node)
  pub asked : (w : W) (node : String) → stored (remote.meta_query w node).0 ≡ stored w
  pub describes : (w : W) (node : String) → (remote.meta_query w node).1 ≡ described (metas node)
  pub publishes :
      (w : W) (rs : List Reference) (item : x.Stanza) (node : String) (r : Response Unit)
      → references_to_item x rs ≡ some item
      → (w' : W) × (r' : Response Unit) × (remote.publish w (some item) node r
          ≡ some (w', Code.ok, r'))
        × (is_error r'.response_type ≡ false)
        × (stored w' ≡ keep_at node rs (stored w))

-- No list starts with a reference of unknown type.
abbrev pub IsKnown : List Reference → Type 0
IsKnown [] = Unit
IsKnown (r ∷ rs) = same_type r.type unkown ≡ false

abbrev pub link : {D : Type 0} → ReferenceType → String → Meta D → Reference
link type node m = record { type = type; node = some node; name = m.name; meta_type = m.meta_type }

abbrev or_new : List Reference → List Reference
or_new [] = reference_new ∷ []
or_new (r ∷ rs) = r ∷ rs

pub fill_in-new :
    (type : ReferenceType) (mt : MetaType) (node : String) (name : Option String)
    → fill_in type mt node name reference_new
      ≡ record { type = type; node = some node; name = name; meta_type = mt }
fill_in-new type mt node none = refl
fill_in-new type mt node (some n) = refl

reference_add-or_new :
    (rs : List Reference) (type : ReferenceType) (mt : MetaType) (node : String)
    (name : Option String)
    → IsKnown rs
    → reference_add (or_new rs) type mt node name
      ≡ some (rs ++ (record { type = type; node = some node; name = name; meta_type = mt } ∷ []))
unfolding reference_add
reference_add-or_new [] type mt node name h =
    ap (λ r. some (r ∷ [])) (fill_in-new type mt node name)
reference_add-or_new (r ∷ rs) type mt node name h = rw (
  h,
  fill_in-new type mt node name,
  add_last-append rs (record { type = type; node = some node; name = name; meta_type = mt }),
)

listed-answered :
    (duplicate loop : ReferenceType) (node : String) (rs : List Reference)
    → in_the_way duplicate loop node rs ≡ some none
    → listed duplicate loop node
        (some (record { type = PacketType.references; num_payloads = length rs; payload = rs }))
      ≡ some (none, or_new rs)
listed-answered duplicate loop node [] h = refl
listed-answered duplicate loop node (r ∷ rs) h =
    let counted : ltb 0 (length (r ∷ rs)) ≡ true = ground arith in
    ap
      (λ b.
        if b
        then (in_the_way duplicate loop node (r ∷ rs) >>= λ c. some (c, r ∷ rs))
        else some (none, reference_new ∷ []))
      counted
    ∙ ap (λ m. m >>= λ c. some (c, r ∷ rs)) h

module _ {W D : Type 0} (x : Strophe) (remote : Remote W D x) (stored : W → String → List Reference)
    (metas : String → Meta D) (kept : IsKept x remote stored metas) where
  open remote use {references_query, meta_query, publish}

  node_type-described :
      (w : W) (node : String)
      → node_type x remote w node ≡ some ((meta_query w node).0, (metas node).meta_type)
  node_type-described w node = rw (kept.describes w node)

  reference_add_named-or_new :
      (w : W) (rs : List Reference) (type : ReferenceType) (node : String)
      → IsKnown rs
      → reference_add_named x remote w (or_new rs) type (metas node).meta_type node
        ≡ some ((meta_query w node).0, rs ++ (link type node (metas node) ∷ []))
  reference_add_named-or_new w rs type node h = rw (
    kept.describes w node,
    reference_add-or_new rs type (metas node).meta_type node (metas node).name h,
  )

  publish_child-stores :
      (w : W) (rs : List Reference) (item : x.Stanza) (p c : String) (r : Response Unit)
      → IsKnown rs
      → references_to_item x (rs ++ (link child c (metas c) ∷ [])) ≡ some item
      → (w' : W) × (r' : Response Unit) × (publish_child x remote w (or_new rs) p c r
          ≡ some (Code.ok, w', r'))
        × (is_error r'.response_type ≡ false)
        × (stored w' ≡ keep_at p (rs ++ (link child c (metas c) ∷ [])) (stored w))
  publish_child-stores w rs item p c r known e =
      let w1 = (meta_query w c).0 in
      let w2 = (meta_query w1 c).0 in
      let (w', r', published, good, after) =
        kept.publishes w2 (rs ++ (link child c (metas c) ∷ [])) item p r e in
      (
        w',
        r',
        rw (node_type-described w c, reference_add_named-or_new w1 rs child c known, e, published),
        good,
        after
            ∙ ap (keep_at p (rs ++ (link child c (metas c) ∷ [])))
                (kept.asked w1 c ∙ kept.asked w c),
      )

  publish_parent-stores :
      (w : W) (rs : List Reference) (item : x.Stanza) (p c : String) (r : Response Unit)
      → IsKnown rs
      → references_to_item x (rs ++ (link parent p (metas p) ∷ [])) ≡ some item
      → (w' : W) × (publish_parent x remote w (or_new rs) p c (metas p).meta_type r ≡ some (w', r))
        × (stored w' ≡ keep_at c (rs ++ (link parent p (metas p) ∷ [])) (stored w))
  publish_parent-stores w rs item p c r known e =
      let w1 = (meta_query w p).0 in
      let (w', r', published, good, after) =
        kept.publishes w1 (rs ++ (link parent p (metas p) ∷ [])) item c response_new e in
      (
        w',
        rw (reference_add_named-or_new w rs parent p known, e, published, good),
        after ∙ ap (keep_at c (rs ++ (link parent p (metas p) ∷ []))) (kept.asked w p),
      )

  add_at_child-stores :
      (w : W) (item : x.Stanza) (p c : String) (r : Response Unit)
      → IsKnown (stored w c)
      → in_the_way parent child p (stored w c) ≡ some none
      → references_to_item x (stored w c ++ (link parent p (metas p) ∷ [])) ≡ some item
      → (w' : W) × (add_at_child x remote w p c r ≡ some (none, w', r))
        × (stored w' ≡ keep_at c (stored w c ++ (link parent p (metas p) ∷ [])) (stored w))
  add_at_child-stores w item p c r known clear e =
      let w1 = (meta_query w p).0 in
      let w2 = (references_query w1 c).0 in
      let answer : (references_query w1 c).1 ≡ answered (stored w c) =
        kept.answers w1 c ∙ ap (λ f. answered (f c)) (kept.asked w p) in
      let (w', published, after) = publish_parent-stores w2 (stored w c) item p c r known e in
      (
        w',
        rw (
          node_type-described w p,
          answer,
          listed-answered parent child p (stored w c) clear,
          published,
        ),
        after
            ∙ ap (keep_at c (stored w c ++ (link parent p (metas p) ∷ [])))
                (kept.queried w1 c ∙ kept.asked w p),
      )

  -- At a server that keeps what is published and answers with it, where no reference is in the way
  -- at either node, no list starts with a reference of unknown type, and both new lists have an
  -- item: adding a child at both nodes returns MIO_OK and a response that is no error, the
  -- parent's list ends with the child, the child's list ends with the parent, with names and types
  -- from the nodes' meta data, and the lists of all other nodes are as before.
  pub child_add-stores :
      (w : W) (p c : String) (r : Response Unit) (at_parent at_child : x.Stanza)
      → IsKnown (stored w p)
      → IsKnown (stored w c)
      → in_the_way child parent c (stored w p) ≡ some none
      → in_the_way parent child p (stored w c) ≡ some none
      → references_to_item x (stored w p ++ (link child c (metas c) ∷ [])) ≡ some at_parent
      → references_to_item x (stored w c ++ (link parent p (metas p) ∷ [])) ≡ some at_child
      → (w' : W) × (r' : Response Unit) × (child_add x remote true w p c r ≡ some (Code.ok, w', r'))
        × (is_error r'.response_type ≡ false)
        × (stored w'
            ≡ keep_at p
                (stored w p ++ (link child c (metas c) ∷ []))
                (keep_at c (stored w c ++ (link parent p (metas p) ∷ [])) (stored w)))
  unfolding child_add
  child_add-stores w p c r at_parent at_child known_p known_c clear_p clear_c e_p e_c =
      let w1 = (references_query w p).0 in
      let same : stored w1 c ≡ stored w c = ap (λ f. f c) (kept.queried w p) in
      let (w2, added, after) =
        add_at_child-stores w1 at_child p c r (subst IsKnown (sym same) known_c)
          (ap (in_the_way parent child p) same ∙ clear_c)
          (ap (λ l. references_to_item x (l ++ (link parent p (metas p) ∷ []))) same ∙ e_c) in
      let (w', r', published, good, later) =
        publish_child-stores w2 (stored w p) at_parent p c r known_p e_p in
      (
        w',
        r',
        rw (
          kept.answers w p,
          listed-answered child parent c (stored w p) clear_p,
          added,
          published,
        ),
        good,
        later
            ∙ ap (keep_at p (stored w p ++ (link child c (metas c) ∷ []))) (
                after ∙ (λ i.
                  keep_at c (kept.queried w p i c ++ (link parent p (metas p) ∷ []))
                    (kept.queried w p i))),
      )
