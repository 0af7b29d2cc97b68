-- ===== src/Examples/Overwriting.antt =====
-- A reference that is overwritten at the server of references.
use mathlib.Core.List.{not-mem-nil}
use libmio.Base.{◌≡◌, refl, [], ◌∷◌, none, some}
use libmio.Xml.{trees}
use libmio.Meta.{location}
use libmio.Response.{Code, Response, response_new}
use libmio.Reference.{Reference, parent, references_to_item}
use libmio.Reference.Children.Kept.{keep_at}
use libmio.Reference.Children.Removed.{Parts}
use libmio.Reference.Overwrite.{overwrite_publish, overwrite_publish-stores}
use libmio.Examples.Server.{W, server, stored, no_meta, kept, item_of, empty, lamp, room}

abbrev both : W
both = keep_at "hall" (room ∷ lamp ∷ []) empty

abbrev to_room : Reference
to_room = record { type = parent; node = some "room"; name = none; meta_type = location }

at_hall : Parts (both "hall") parent "room" [] room (lamp ∷ [])
at_hall = record { whole = refl; hit = refl; miss = λ b m. absurd (not-mem-nil m) }

overwrite_publish-stores_example :
    (w' : W) × (r' : Response Unit) × (overwrite_publish trees server both "hall" "room" parent
        location response_new
      ≡ some (Code.ok, w', r'))
    × (w' ≡ keep_at "hall" (lamp ∷ to_room ∷ []) both)
unfolding references_to_item
overwrite_publish-stores_example =
    overwrite_publish-stores trees server stored no_meta kept both "hall" "room" parent location
      response_new [] room (lamp ∷ []) (item_of (references_to_item trees (lamp ∷ to_room ∷ [])))
      at_hall refl refl
