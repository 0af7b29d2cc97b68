-- ===== src/Response/Payloads.antt =====
-- Packets whose payload is a list, and the elements that a server puts around an item.
use mathlib.Core.List.{append-nil, append_assoc}
use libmio.Base.{◌+◌, ◌≡◌, sym, String, List, ◌++◌, Option, [], some, arith, length, length-append}
use libmio.Xml.{Tree, element, nil, cons}
use libmio.Response.{Response, Packet, packet}

abbrev pub holding : {P : Type 0} → Response P → Packet P → Response P
holding r p = record r { response = packet p }

module _ {A : Type 0} where
  -- The packet, with more payloads at its end.
  abbrev pub with_more : List A → Packet (List A) → Packet (List A)
  with_more rs p = record p { num_payloads = p.num_payloads + length rs; payload = p.payload ++ rs }

  pub with_more-append :
      (rs qs : List A) (p : Packet (List A))
      → with_more qs (with_more rs p) ≡ with_more (rs ++ qs) p
  with_more-append rs qs p =
      let count : p.num_payloads + length rs + length qs ≡ p.num_payloads + length (rs ++ qs) =
        omega (arith, length-append rs qs) in
      λ i. record {
        type = p.type;
        num_payloads = count i;
        payload = append_assoc p.payload rs qs i;
      }

  pub nothing_more : (p : Packet (List A)) → p ≡ with_more [] p
  nothing_more p =
      let count : p.num_payloads ≡ p.num_payloads + 0 = omega arith in
      λ i. record { type = p.type; num_payloads = count i; payload = sym (append-nil p.payload) i }

-- The answer of a server to a query, around an item.
abbrev pub answer : (iq pubsub items : String → Option String) → Tree → Tree
answer iq pubsub items item = element (some "iq") iq (
    cons (element (some "pubsub") pubsub (cons (element (some "items") items (cons item nil)) nil))
      nil)
