-- ===== src/Node/Devices.antt =====
-- `mio_item_device_add` of src/mio_node.c. The item is a tree, since the source walks over it.
use libmio.Base.{String, Bool, true, false, Option, none, some, str_eq, if◌then◌else◌, ◌>>=◌}
use libmio.Xml.{Tree, Forest, element, text, nil, cons, snoc, trees}
use libmio.Reference.{attribute_if_set}
use libmio.Pubsub.{set_ns}

abbrev pub mio_ns : String
mio_ns = "http://jabber.org/protocol/mio"

-- The loop over the children: `some none` where a device has the id, or else whether the namespace
-- is to be written. A child without a name, and a device without a namespace or an id, is a fault,
-- since `strcmp` reads it.
unfoldable pub device_scan : (id : String) → (write_ns : Bool) → Forest → Option (Option Bool)
device_scan id write_ns nil = some (some write_ns)
device_scan id write_ns (cons (text v) f) = none
device_scan id write_ns (cons (element none a g) f) = none
device_scan id write_ns (cons (element (some n) a g) f) =
    let as_before = device_scan id write_ns f in
    let written = device_scan id false f in
    if str_eq n "device"
    then (a "xmlns" >>= λ ns. a "id" >>= λ i.
        if str_eq i id then some none else if str_eq ns mio_ns then written else as_before)
    else as_before

-- The element that is added.
abbrev pub device :
    (id : String) (type description serial : Option String) (timestamp : String)
    → (write_ns : Bool) → Tree
device id type description serial timestamp write_ns =
    let named = trees.set_name trees.new "device" in
    let spaced = if write_ns then set_ns trees named mio_ns else named in
    let d0 = trees.set_attribute spaced "id" id in
    let d1 = attribute_if_set trees "type" type d0 in
    let d2 = attribute_if_set trees "description" description d1 in
    let d3 = attribute_if_set trees "serial" serial d2 in
    trees.set_attribute d3 "timestamp" timestamp

-- `mio_item_device_add`; `some none` is the return of -1, which leaves the item. (A tree that is a
-- text has no place for a child.)
unfoldable pub item_device_add :
    (item : Option Tree) (id : String) (type description serial : Option String)
    (timestamp : String)
    → Option (Option Tree)
item_device_add none id type description serial timestamp = some none
item_device_add (some (text v)) id type description serial timestamp = none
item_device_add (some (element n a f)) id type description serial timestamp =
    device_scan id true f >>= λ found. some (
      found >>= λ write_ns.
      some (element n a (snoc f (device id type description serial timestamp write_ns))))
