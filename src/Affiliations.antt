-- ===== src/Affiliations.antt =====
-- Subscriptions and affiliations: src/mio_affiliations.c and src/mio_affiliations.h.
pub mod Query
pub mod Names
pub mod Listing
pub mod Lists
pub mod Requests
use libmio.Base.{◌+◌, String, List, [], ◌∷◌, Option, some, add_last}
use libmio.Response.{Packet, PacketType}

pub record Subscription : Type 0 where
  pub subscription : String
  pub sub_id : String

pub data AffiliationType : Type 0 where
  none owner member publisher publish_only outcast unknown : AffiliationType

pub record Affiliation : Type 0 where
  pub affiliation : String
  pub type : AffiliationType

-- A packet with one more entry at the end of its list. `mio_packet_payload_add` is called for the
-- first entry only.
abbrev pub payload_add : {A : Type 0} → PacketType → A → Packet (List A) → Packet (List A)
payload_add type a p = record {
  type = elim p.payload [ [] ↦ type | _ ∷ _ ↦ p.type ];
  num_payloads = p.num_payloads + 1;
  payload = add_last p.payload a;
}

-- `mio_subscription_add`; without a subscription id it is the empty text, and `strlen` of a `NULL`
-- is a fault.
unfoldable pub subscription_add :
    Packet (List Subscription)
    → (subscription sub_id : Option String) → Option (Packet (List Subscription))
subscription_add p Option.none id = Option.none
subscription_add p (some s) id = some (
    payload_add PacketType.subscriptions
      (record { subscription = s; sub_id = elim id [ some i ↦ i | Option.none ↦ "" ] }) p)

-- `_mio_affiliation_add`
unfoldable pub affiliation_add :
    Packet (List Affiliation) → Option String → AffiliationType → Option (Packet (List Affiliation))
affiliation_add p Option.none type = Option.none
affiliation_add p (some a) type =
    some (payload_add PacketType.affiliations (record { affiliation = a; type = type }) p)
