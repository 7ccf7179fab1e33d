-- ===== src/Item/Examples.antt =====
-- Items, as instances of the theorems on libsocialweb/sw-item.c.
use libsocialweb_flickr_oaut.Item.Equality.{IsEqualTable, item_equal_iff}
use libsocialweb_flickr_oaut.Prelude.Int.{pos, ℤ}
use libsocialweb_flickr_oaut.Prelude.{
  refl, false, none, ◌↔◌, [], Option, true, ◌≡◌, ◌∷◌, some, ℕ, String, List,
}
use libsocialweb_flickr_oaut.Dict.{lookup}
use libsocialweb_flickr_oaut.Item.{same_value, each_in, Fetch, item_equal, Item}

abbrev photo : Item
photo = record {
  service = some 1;
  hash = ("id", "flickr-7") ∷ ("title", "sea") ∷ ("cached", "1") ∷ [];
  cached_date = pos 0;
  mtime = pos 0;
  remaining_fetches = 0;
}

-- The same without the mark of the cache, and in another order.
abbrev fresh_photo : Item
fresh_photo = record photo { hash = ("title", "sea") ∷ ("id", "flickr-7") ∷ []; mtime = pos 9 }

-- The same as the cached one, with another mark.
abbrev marked_photo : Item
marked_photo = record photo { hash = ("cached", "0") ∷ ("title", "sea") ∷ ("id", "flickr-7") ∷ [] }

item_equal_iff_example : (item_equal photo marked_photo ≡ true) ↔ (
    (photo.service ≡ marked_photo.service)
    × (photo.remaining_fetches ≡ marked_photo.remaining_fetches)
    × IsEqualTable photo.hash marked_photo.hash)
unfolding lookup
item_equal_iff_example =
    item_equal_iff photo marked_photo (refl, (refl, (refl, tt))) (refl, (refl, (refl, tt)))

equal_marked : item_equal photo marked_photo ≡ true
unfolding item_equal each_in same_value lookup
equal_marked = refl

unequal_unmarked : item_equal photo fresh_photo ≡ false
unfolding item_equal
unequal_unmarked = refl

abbrev thumbnail : Fetch
thumbnail = record { key = "thumbnail"; delays_ready = true }

abbrev icon : Fetch
icon = record { key = "authoricon"; delays_ready = true }

abbrev answers : List (Fetch × Option String)
answers = (icon, none) ∷ (thumbnail, some "/cache/7") ∷ []

-- The second image is in the cache.
abbrev others : List (Fetch × Option String)
others = (thumbnail, some "/cache/8") ∷ (icon, none) ∷ []

abbrev no_dates : String → ℤ
no_dates s = pos 0

abbrev dated : ℕ → Item
dated n = record photo { cached_date = pos n }
