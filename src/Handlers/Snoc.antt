-- ===== src/Handlers/Snoc.antt =====
-- The walk over the children of an element to which a child is added.
use libmio.Handlers.{ElementName}
use libmio.Base.{◌≡◌, refl, sym, ◌∙◌, String, Option, none, some, ◌>>=◌}
use libmio.Xml.{Tree, Forest, nil, cons, snoc}
use libmio.Handlers.Visit.{Visitor, visit, visit_all, last_name, last_name_all, >>=-assoc, >>=-cong}

pub >>=-some :
    {A : Type 0} (m : Option A) {f : A → Option A} → ((a : A) → f a ≡ some a) → (m >>= f) ≡ m
>>=-some none h = refl
>>=-some (some a) h = h a

pub visit_all-snoc :
    {S : Type 0} (v : Visitor S) (parent : Option String) (curr : ElementName) (f : Forest)
    (t : Tree) (s : S)
    → visit_all v parent curr (snoc f t) s
      ≡ (visit_all v parent curr f s >>= visit v parent (last_name_all curr f) t)
visit_all-snoc v parent curr nil t s = >>=-some (visit v parent curr t s) (λ _. refl)
visit_all-snoc v parent curr (cons u f) t s =
    >>=-cong (visit v parent curr u s) (visit_all-snoc v parent (last_name curr u) f t)
    ∙ sym (>>=-assoc (visit v parent curr u s) _ _)
