-- ===== src/Examples/Told.antt =====
-- Texts of trees, as lists of callbacks.
use mathlib.Core.List.{append-nil}
use Prim.Native.Char.{Char}
use libmio.Base.{◌≡◌, refl, sym, String, List, [], ◌∷◌, ◌++◌, Option, none, some}
use libmio.Xml.{
  Attrs, attribute, Distinct, Event, start, chars, stop, Tree, Forest, element, text, nil, cons,
  Reports, ReportsAll,
}

abbrev pub no_attributes : String → Option String
no_attributes _ = none

pub record Told (t : Tree) (es : List Event) : Type 0 where
  pub reports : Reports t es

pub record ToldAll (f : Forest) (es : List Event) : Type 0 where
  pub reports : ReportsAll f es

pub around_all :
    (n : String) (attrs : Attrs) (a : String → Option String) {f : Forest} {es : List Event}
    → Distinct attrs
    → ((k : String) → attribute k attrs ≡ a k)
    → ToldAll f es
    → Told (element (some n) a f) (start n attrs ∷ (es ++ stop n ∷ []))
around_all n attrs a {es = es} once same h = record {
  reports = (attrs, es, once, same, h.reports, refl);
}

pub none_told : ToldAll nil []
none_told = record { reports = refl }

pub first_told :
    {t : Tree} {f : Forest} {es ds : List Event}
    → Told t es
    → ToldAll f ds
    → ToldAll (cons t f) (es ++ ds)
first_told {es = es} {ds = ds} h k = record { reports = (es, ds, h.reports, k.reports, refl) }

pub around :
    (n : String) (attrs : Attrs) (a : String → Option String) {t : Tree} {es : List Event}
    → Distinct attrs
    → ((k : String) → attribute k attrs ≡ a k)
    → Told t es
    → Told (element (some n) a (cons t nil)) (start n attrs ∷ (es ++ stop n ∷ []))
around n attrs a {es = es} once same h = record {
  reports = (attrs, es, once, same, (es, [], h.reports, refl, sym (append-nil es)), refl);
}

pub with_text :
    (n : String) (c : Char) (v : String)
    → Told
        (element (some n) (λ _. none) (cons (text (String.◌∷◌ c v)) nil))
        (start n [] ∷ chars (String.◌∷◌ c v) ∷ stop n ∷ [])
with_text n c v = around n [] (λ _. none) tt (λ _. refl) (record { reports = refl })
