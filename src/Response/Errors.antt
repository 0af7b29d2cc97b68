-- ===== src/Response/Errors.antt =====
-- The parser of error elements depends on the attributes alone, not on their order.
use libmio.Base.{
  ◌≡◌, refl, ap, sym, subst, ◌∙◌, String, Bool, inl, inr, true, false, Option, none, some, arith,
  str_eq, str_eq_iff, if◌then◌else◌, Bool-cases, Option-cases,
}
use libmio.Decimal.{pos, atoi}
use libmio.Xml.{Attrs, attribute, Distinct}
use libmio.Xml.Scan.{scan, apply_to, member-scan}
use libmio.Response.{
  Response, ResponseType, ResponseError, err, error_attribute, response_error_new,
  xml_error_handler,
}

-- What an error element with these attributes makes of a response.
abbrev pub noted_as : {P : Type 0} → (code type : Option String) → Response P → Response P
noted_as code none r = r
noted_as code (some description) r = record r {
  response_type = ResponseType.error;
  response =
      err (record {
        err_num = apply_to (λ v _. atoi v) (pos 0) code;
        description = some description;
      });
}

abbrev pub noted : {P : Type 0} → (String → Option String) → Response P → Response P
noted a = noted_as (a "code") (a "type")

number :
    (k v : String) (s : ResponseError × Bool)
    → (error_attribute k v s).0.err_num ≡ (if str_eq k "code" then atoi v else s.0.err_num)
number k v (e, linked) = elim (Bool-cases (str_eq k "type")) [
  | inl hit ↦
      subst
        (λ j.
          (error_attribute j v (e, linked)).0.err_num
          ≡ (if str_eq j "code" then atoi v else e.err_num))
        (sym ((str_eq_iff k "type").0 hit)) refl
  | inr miss ↦ ground arith
]

description :
    (k v : String) (s : ResponseError × Bool)
    → (error_attribute k v s).0.description ≡ (if str_eq k "type" then some v else s.0.description)
description k v (e, linked) = ground arith

linked :
    (k v : String) (s : ResponseError × Bool)
    → (error_attribute k v s).1 ≡ (if str_eq k "type" then true else s.1)
linked k v (e, old) = ground arith

-- The response, once the scan has ended.
linked_to :
    {P : Type 0} (a : String → Option String) (r : Response P) (s : ResponseError × Bool)
    → s.0.err_num ≡ apply_to (λ v _. atoi v) (pos 0) (a "code")
    → s.0.description ≡ apply_to (λ v _. some v) none (a "type")
    → s.1 ≡ apply_to (λ _ _. true) false (a "type")
    → (if s.1 then record r { response_type = ResponseType.error; response = err s.0 } else r)
      ≡ noted a r
linked_to a r s n d l = elim (Option-cases (a "type")) [
  | inl missing ↦
      let l' : s.1 ≡ false = l ∙ ap (apply_to (λ _ _. true) false) missing in rw (missing, l')
  | inr (v, found) ↦
      let l' : s.1 ≡ true = l ∙ ap (apply_to (λ _ _. true) false) found in
      let d' : s.0.description ≡ some v = d ∙ ap (apply_to (λ w _. some w) none) found in
      let both : s.0
          ≡ record { err_num = apply_to (λ w _. atoi w) (pos 0) (a "code"); description = some v } =
        λ i. record { err_num = n i; description = d' i } in
      rw (found, l')
        (ap (λ e. record r { response_type = ResponseType.error; response = err e }) both)
]

pub xml_error_handler-noted :
    {P : Type 0} (attrs : Attrs) (r : Response P)
    → Distinct attrs
    → xml_error_handler attrs r ≡ noted (λ k. attribute k attrs) r
unfolding xml_error_handler
xml_error_handler-noted attrs r once =
    linked_to (λ k. attribute k attrs) r (scan error_attribute (response_error_new, false) attrs)
      (member-scan error_attribute (λ s. s.0.err_num) "code" (λ v _. atoi v) number attrs
        (response_error_new, false) once)
      (member-scan error_attribute (λ s. s.0.description) "type" (λ v _. some v) description attrs
        (response_error_new, false) once)
      (member-scan error_attribute (λ s. s.1) "type" (λ _ _. true) linked attrs
        (response_error_new, false) once)
