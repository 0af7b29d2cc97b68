-- ===== src/Collection.antt =====
-- Collections of event nodes: src/mio_collection.c.
pub mod Config
pub mod Query
pub mod Requests
pub mod Errors
use libmio.Base.{◌+◌, String, List, [], ◌∷◌, Option, none, some, add_last}
use libmio.Response.{Packet, PacketType}
use libmio.Affiliations.{payload_add}

pub record Collection : Type 0 where
  pub node : Option String
  pub name : Option String

-- `_mio_collection_add`
abbrev pub collection_add :
    Packet (List Collection) → (node name : Option String) → Packet (List Collection)
collection_add p node name =
    payload_add PacketType.collections (record { node = node; name = name }) p
