-- ===== src/ItemView/RunExamples.antt =====
-- A run of a view among three items, as an instance of the theorems on libsocialweb/sw-item-view.c.
use libsocialweb_flickr_oaut.Prelude.Int.{pos}
use libsocialweb_flickr_oaut.Set.{set_new, replace, set_add, set_as_list, set_is_empty}
use libsocialweb_flickr_oaut.ItemView.Examples.{
  photos-named, update, no_dates, photos-name, flickr, photos,
}
use libsocialweb_flickr_oaut.ItemView.Liveness.{pending_item_announced, ends}
use libsocialweb_flickr_oaut.ItemView.Waiting.{IsWaiting}
use libsocialweb_flickr_oaut.ItemView.Runs.{
  sets_from_set, fetch_ends, here, next, no_item_forgotten, Reach,
}
use libsocialweb_flickr_oaut.Item.{pop_pending, get_ready}
use libsocialweb_flickr_oaut.ItemView.World.{item_step, World}
use libsocialweb_flickr_oaut.Prelude.{true, ◌++◌, ◌==◌, ℕ, List, false, ◌≡◌, refl, [], ◌∷◌, arith}
use libsocialweb_flickr_oaut.ItemView.{
  ready_arrays, items_added, track_item, track_items, handle_ready_pending, add_items, add_from_set,
  set_from_set, view_init, listed,
}

abbrev start : World
start = record { heap = photos; view = view_init }

-- The view is given two items, one of which waits for an image.
abbrev shown : World
shown = record start { view = set_from_set photos flickr no_dates update view_init }

two_waits : get_ready (photos 2) ≡ false
unfolding get_ready
two_waits = refl

-- The image comes.
abbrev run_shown : Reach flickr no_dates 17 start shown
run_shown = next here (sets_from_set update start)

abbrev arrived : World
arrived = item_step flickr no_dates 17 2 (pop_pending (pos 9)) shown

no_item_forgotten_example : IsWaiting photos-name arrived
no_item_forgotten_example =
    no_item_forgotten flickr no_dates 17 photos-name refl photos photos-named
      (next run_shown (fetch_ends 2 (pos 9) shown two_waits))

shown-IsWaiting : IsWaiting photos-name shown
shown-IsWaiting =
    no_item_forgotten flickr no_dates 17 photos-name refl photos photos-named run_shown

two_pending : listed 2 shown.view.pending_items_set.keys ≡ true
unfolding listed view_init set_from_set set_is_empty add_from_set add_items track_items track_item
    get_ready set_as_list set_add replace set_new
two_pending = refl

pending_item_announced_example :
    let u = ends photos-name flickr no_dates 17 1 (pos 9) 2 shown in
    let fired = handle_ready_pending u.heap flickr no_dates u.view in
    (items : List ℕ) × ((u.view.pending_timeout_id == 0) ≡ false)
    × (fired.bus ≡ u.view.bus ++ items_added (ready_arrays u.heap flickr no_dates items) ∷ [])
    × (listed 2 items ≡ true)
    × (get_ready (u.heap 2) ≡ true)
    × (listed 2 fired.pending_items_set.keys ≡ false)
pending_item_announced_example =
    pending_item_announced photos-name flickr no_dates 17 refl (pos 9) 2 shown shown-IsWaiting
      (omega arith) two_pending
