-- ===== src/ItemView/Examples.antt =====
-- A view of three items, as an instance of the theorems on libsocialweb/sw-item-view.c.
use libsocialweb_flickr_oaut.ItemView.Removed.{removed_then_added}
use libsocialweb_flickr_oaut.ItemView.{remove_by_uid, listed}
use libsocialweb_flickr_oaut.ItemView.Pending.{handle_ready_pending_lem}
use libsocialweb_flickr_oaut.ItemView.Emitted.{bus-set_from_set, expected}
use libsocialweb_flickr_oaut.ItemView.Merge.{set_from_set_lem, merged, Content}
use libsocialweb_flickr_oaut.Prelude.Int.{ℤ, pos}
use libsocialweb_flickr_oaut.Set.Find.{find}
use libsocialweb_flickr_oaut.Set.Laws.{IsDistinct}
use libsocialweb_flickr_oaut.Dict.{lookup}
use libsocialweb_flickr_oaut.Set.{set_is_empty, contains, SwSet}
use libsocialweb_flickr_oaut.ItemView.{
  handle_ready_pending, items_added, items_changed, items_removed, is_stale, ready_arrays,
  removed_pairs, set_from_set, find_indexed, uid, ref_equal, View,
}
use libsocialweb_flickr_oaut.ItemView.Index.{Coherent, HasIds}
use libsocialweb_flickr_oaut.Item.{
  to_value_array, same_value, each_in, item_equal, get_ready, service_name, item_id_equal, Item,
  get,
}
use libsocialweb_flickr_oaut.Prelude.{none, true, refl, ◌≡◌, [], zero, some, ◌∷◌, suc, ℕ, String}

abbrev pub item_of : String → String → ℕ → Item
item_of id title fetches = record {
  service = some 1;
  hash = ("id", id) ∷ ("title", title) ∷ [];
  cached_date = pos 0;
  mtime = pos 0;
  remaining_fetches = fetches;
}

-- 0 and 1 are two versions of one photo, 2 is another, which waits for an image; any other pointer
-- is one item more.
abbrev pub photos : ℕ → Item
photos zero = item_of "a" "sea" 0
photos (suc zero) = item_of "a" "the sea" 0
photos (suc (suc zero)) = item_of "b" "hills" 1
photos (suc (suc (suc n))) = item_of "c" "town" 0

unfoldable pub photos-name : ℕ → String
photos-name zero = "a"
photos-name (suc zero) = "a"
photos-name (suc (suc zero)) = "b"
photos-name (suc (suc (suc n))) = "c"

pub photos-named : (r : ℕ) → uid photos r ≡ some (photos-name r)
unfolding get lookup photos-name
photos-named zero = refl
photos-named (suc zero) = refl
photos-named (suc (suc zero)) = refl
photos-named (suc (suc (suc n))) = refl

unfoldable pub photos-HasIds : HasIds photos
photos-HasIds = record { name = photos-name; named = photos-named }

-- It shows items 0 and 3.
abbrev pub shown : View
shown = record {
  current_items_set = record { ref_count = 1; keys = 0 ∷ 3 ∷ [] };
  pending_items_set = record { ref_count = 1; keys = [] };
  pending_timeout_id = 0;
  refresh_timeout_id = 0;
  uid_to_items = ("a", 0) ∷ ("c", 3) ∷ [];
  changed_items = [];
  ready_handlers = [];
  changed_handlers = 0 ∷ 3 ∷ [];
  bus = [];
}

abbrev pub update : SwSet ℕ
update = record { ref_count = 1; keys = 1 ∷ 2 ∷ [] }

update-IsDistinct : IsDistinct (ref_equal photos) update.keys
unfolding ref_equal item_id_equal get lookup contains
update-IsDistinct = (refl, (refl, tt))

shown-IsDistinct : IsDistinct (ref_equal photos) shown.current_items_set.keys
unfolding ref_equal item_id_equal get lookup contains
shown-IsDistinct = (refl, (refl, tt))

shown-indexed :
    (r : ℕ)
    → find (ref_equal photos) shown.current_items_set.keys r
      ≡ find_indexed (uid photos r) shown.uid_to_items
unfolding ref_equal item_id_equal get lookup find_indexed
shown-indexed zero = refl
shown-indexed (suc zero) = refl
shown-indexed (suc (suc zero)) = refl
shown-indexed (suc (suc (suc n))) = refl

pub shown-Coherent : Coherent photos shown.current_items_set shown.uid_to_items
shown-Coherent = record { distinct = shown-IsDistinct; indexed = shown-indexed }

abbrev pub flickr : ℕ → String
flickr service = "flickr"

abbrev pub no_dates : String → ℤ
no_dates s = pos 0

set_from_set_lem_example :
    Content photos-HasIds flickr no_dates (set_from_set photos flickr no_dates update shown) (λ z.
      merged photos
        (find (ref_equal photos) update.keys z)
        (find (ref_equal photos) shown.current_items_set.keys z))
set_from_set_lem_example =
    set_from_set_lem photos-HasIds flickr no_dates update shown shown-Coherent update-IsDistinct

-- Item 3 goes, item 1 is the new version of item 0, and item 2 is not ready yet.
bus-set_from_set_example :
    (set_from_set photos flickr no_dates update shown).bus
    ≡ items_removed ((some "flickr", some "c") ∷ [])
      ∷ items_changed (to_value_array flickr no_dates (photos 1) ∷ [])
      ∷ items_added []
      ∷ []
unfolding set_is_empty expected removed_pairs service_name ready_arrays get_ready is_stale
    item_equal each_in same_value ref_equal item_id_equal get lookup contains
bus-set_from_set_example =
    bus-set_from_set photos-HasIds flickr no_dates update shown shown-Coherent update-IsDistinct

-- Items 2 and 3 wait; 3 has become ready.
abbrev waiting : View
waiting = record shown {
  pending_items_set = record { ref_count = 1; keys = 2 ∷ 3 ∷ [] };
  pending_timeout_id = 17;
  ready_handlers = 2 ∷ [];
}

waiting-IsDistinct : IsDistinct (ref_equal photos) waiting.pending_items_set.keys
unfolding ref_equal item_id_equal get lookup contains
waiting-IsDistinct = (refl, (refl, tt))

handle_ready_pending_lem_example :
    ((handle_ready_pending photos flickr no_dates waiting).bus
      ≡ items_added (to_value_array flickr no_dates (photos 3) ∷ []) ∷ [])
    × ((handle_ready_pending photos flickr no_dates waiting).pending_items_set.keys ≡ 2 ∷ [])
    × ((handle_ready_pending photos flickr no_dates waiting).pending_timeout_id ≡ 0)
    × ((handle_ready_pending photos flickr no_dates waiting).current_items_set
        ≡ waiting.current_items_set)
unfolding get_ready ready_arrays
handle_ready_pending_lem_example =
    handle_ready_pending_lem photos-HasIds flickr no_dates waiting waiting-IsDistinct

-- Item 3 is removed by its uid before the timeout fires.
removed_then_added_example :
    let w =
      handle_ready_pending photos flickr no_dates
        (remove_by_uid photos flickr no_dates "c" waiting) in
    (w.bus
      ≡ items_removed ((some "flickr", some "c") ∷ [])
        ∷ items_added (to_value_array flickr no_dates (photos 3) ∷ [])
        ∷ [])
    × (listed 3 (3 ∷ []) ≡ true)
    × (lookup "c" w.uid_to_items ≡ none)
unfolding get_ready ready_arrays removed_pairs service_name get lookup listed
removed_then_added_example =
    removed_then_added photos-HasIds flickr no_dates "c" 3 waiting waiting-IsDistinct refl refl refl
