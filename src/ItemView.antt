-- ===== src/ItemView.antt =====
-- libsocialweb/sw-item-view.c: the items that one client is shown. The view keeps pointers; the items
-- stand in a heap, which the image downloads change behind the view's back. What goes over the bus
-- is recorded in order. GLib's source ids, the services' names and libsoup's date parser are
-- arguments. A signal handler or a weak reference is the entry for its item in a list.
pub mod Index
pub mod Content
pub mod Difference
pub mod Merge
pub mod Emitted
pub mod Removed
pub mod World
pub mod Waiting
pub mod Announced
pub mod Runs
pub mod Liveness
pub mod Pending
pub mod Examples
mod RunExamples
use libsocialweb_flickr_oaut.Prelude.Int.{ℤ}
use libsocialweb_flickr_oaut.Dict.{lookup, remove, insert, Dict}
use libsocialweb_flickr_oaut.Set.{
  set_difference, set_remove_from, set_add_from, set_is_empty, set_as_list, set_remove, set_add,
  SwSet, set_new,
}
use libsocialweb_flickr_oaut.Item.{
  item_equal, service_name, to_value_array, get, Item, ValueArray, get_ready, item_id_equal,
}
use libsocialweb_flickr_oaut.Prelude.{
  length, not, ltb, ◌++◌, ◌||◌, ◌==◌, if◌then◌else◌, String, Bool, Option, ℕ, List, none, some, [],
  ◌∷◌, false,
}

pub data BusSignal : Type 0 where
  items_added items_changed : List ValueArray → BusSignal
  -- the service's name and the id of each item
  items_removed : List (Option String × Option String) → BusSignal

pub record View : Type 0 where
  pub current_items_set : SwSet ℕ
  pub pending_items_set : SwSet ℕ
  -- 0 where no timeout is set
  pub pending_timeout_id : ℕ
  pub refresh_timeout_id : ℕ
  pub uid_to_items : Dict ℕ
  pub changed_items : List ℕ
  -- the items whose "notify::ready" and "changed" are connected
  pub ready_handlers : List ℕ
  pub changed_handlers : List ℕ
  pub bus : List BusSignal

-- The equality of the view's two sets (`sw_item_set_new`).
unfoldable pub ref_equal : (ℕ → Item) → ℕ → ℕ → Bool
unfolding item_id_equal
ref_equal heap a b = item_id_equal (heap a) (heap b)

-- The equality of pointers.
unfoldable pub same_ref : ℕ → ℕ → Bool
same_ref a b = a == b

abbrev pub uid : (ℕ → Item) → ℕ → Option String
uid heap r = get (heap r) "id"

-- `g_hash_table_replace (uid_to_items, id, item)` and the removal of an id. With no id the code
-- passes NULL to `g_str_hash`; the model leaves the table alone there.
unfoldable pub index_item : Option String → ℕ → Dict ℕ → Dict ℕ
index_item none r d = d
index_item (some k) r d = insert k r d

unfoldable pub unindex_item : Option String → Dict ℕ → Dict ℕ
unindex_item none d = d
unindex_item (some k) d = remove k d

unfoldable pub find_indexed : Option String → Dict ℕ → Option ℕ
find_indexed none d = none
find_indexed (some k) d = lookup k d

-- `g_list_find`, and the disconnection of every handler of one item
unfoldable pub listed : ℕ → List ℕ → Bool
listed r [] = false
listed r (x ∷ xs) = x == r || listed r xs

unfoldable pub disconnect : ℕ → List ℕ → List ℕ
disconnect r [] = []
disconnect r (x ∷ xs) = let rest = disconnect r xs in if x == r then rest else x ∷ rest

-- `sw_item_view_init`
unfoldable pub view_init : View
unfolding set_new
view_init = record {
  current_items_set = set_new;
  pending_items_set = set_new;
  pending_timeout_id = 0;
  refresh_timeout_id = 0;
  uid_to_items = [];
  changed_items = [];
  ready_handlers = [];
  changed_handlers = [];
  bus = [];
}

-- One round of the loop of `sw_item_view_add_items`, but for the array: `_setup_ready_handler` and
-- the pending set for an item that is not ready, `_setup_changed_handler` for every item.
unfoldable pub track_item : (ℕ → Item) → ℕ → View → View
unfolding get_ready
track_item heap r v = record v {
  ready_handlers = if get_ready (heap r) then v.ready_handlers else r ∷ v.ready_handlers;
  pending_items_set =
      if get_ready (heap r)
      then v.pending_items_set
      else set_add (ref_equal heap) v.pending_items_set r;
  changed_handlers = r ∷ v.changed_handlers;
}

unfoldable pub track_items : (ℕ → Item) → List ℕ → View → View
unfolding track_item
track_items heap [] v = v
track_items heap (r ∷ rs) v = track_items heap rs (track_item heap r v)

-- The loops over a set's items that fill and clear `uid_to_items`.
unfoldable pub index_all : (ℕ → Item) → List ℕ → Dict ℕ → Dict ℕ
unfolding index_item
index_all heap [] d = d
index_all heap (r ∷ rs) d = index_all heap rs (index_item (uid heap r) r d)

unfoldable pub unindex_all : (ℕ → Item) → List ℕ → Dict ℕ → Dict ℕ
unfolding unindex_item
unindex_all heap [] d = d
unindex_all heap (r ∷ rs) d = unindex_all heap rs (unindex_item (uid heap r) d)

-- The view's version of a new item is there, and is not `sw_item_equal` to it.
unfoldable pub is_stale : (ℕ → Item) → ℕ → Option ℕ → Bool
is_stale heap new none = false
is_stale heap new (some old) = not (item_equal (heap new) (heap old))

-- The loop of `sw_item_view_update_existing`; the list is `items_to_send`.
unfoldable pub replace_stale : (ℕ → Item) → List ℕ → SwSet ℕ → Dict ℕ → SwSet ℕ × Dict ℕ × List ℕ
replace_stale heap [] current d = (current, d, [])
replace_stale heap (new ∷ rs) current d =
    let stale = is_stale heap new (find_indexed (uid heap new) d) in
    let (c, e, sent) =
      replace_stale heap rs (if stale then set_add (ref_equal heap) current new else current)
        (if stale then index_item (uid heap new) new d else d) in
    (c, e, if stale then new ∷ sent else sent)

module _ (heap : ℕ → Item) (name_of : ℕ → String) (time_of_string : String → ℤ) where
  -- The value arrays of the items that are ready, in order.
  unfoldable pub ready_arrays : List ℕ → List ValueArray
  unfolding get_ready
  ready_arrays [] = []
  ready_arrays (r ∷ rs) =
      let rest = ready_arrays rs in
      if get_ready (heap r) then to_value_array name_of time_of_string (heap r) ∷ rest else rest

  unfoldable pub removed_pairs : List ℕ → List (Option String × Option String)
  removed_pairs [] = []
  removed_pairs (r ∷ rs) = (service_name name_of (heap r), uid heap r) ∷ removed_pairs rs

  unfoldable pub add_items : List ℕ → View → View
  unfolding track_items ready_arrays
  add_items items v =
      let w = track_items heap items v in
      record w { bus = w.bus ++ items_added (ready_arrays items) ∷ [] }

  unfoldable pub update_items : List ℕ → View → View
  unfolding ready_arrays
  update_items items v =
      let array = ready_arrays items in
      if ltb 0 (length array) then record v { bus = v.bus ++ items_changed array ∷ [] } else v

  unfoldable pub remove_items : List ℕ → View → View
  unfolding removed_pairs
  remove_items items v = record v { bus = v.bus ++ items_removed (removed_pairs items) ∷ [] }

  -- The loop of `_handle_ready_pending_cb`: the ready items are put in front of `to_send`.
  unfoldable pub take_ready : List ℕ → SwSet ℕ → List ℕ → SwSet ℕ × List ℕ
  unfolding get_ready
  take_ready [] pending to_send = (pending, to_send)
  take_ready (r ∷ rs) pending to_send =
      take_ready rs (if get_ready (heap r) then set_remove (ref_equal heap) pending r else pending)
        (if get_ready (heap r) then r ∷ to_send else to_send)

  unfoldable pub handle_ready_pending : View → View
  unfolding take_ready add_items
  handle_ready_pending v =
      let (pending, to_send) =
        take_ready (set_as_list v.pending_items_set) v.pending_items_set [] in
      let w = add_items to_send (record v { pending_items_set = pending }) in
      record w { pending_timeout_id = 0 }

  -- `source` is what `g_timeout_add_seconds` returns, if it is called.
  unfoldable pub item_ready_notify : ℕ → ℕ → View → View
  unfolding get_ready disconnect
  item_ready_notify source r v =
      if get_ready (heap r)
      then record v {
        ready_handlers = disconnect r v.ready_handlers;
        pending_timeout_id = if v.pending_timeout_id == 0 then source else v.pending_timeout_id;
      }
      else v

  unfoldable pub item_changed_timeout : View → View
  unfolding update_items
  item_changed_timeout v =
      let w = update_items v.changed_items v in
      record w { changed_items = []; refresh_timeout_id = 0 }

  unfoldable pub item_changed : ℕ → ℕ → View → View
  unfolding get_ready listed
  item_changed source r v = if not (get_ready (heap r)) then v else record v {
    changed_items = if listed r v.changed_items then v.changed_items else v.changed_items ++ r ∷ [];
    refresh_timeout_id = if v.refresh_timeout_id == 0 then source else v.refresh_timeout_id;
  }

  unfoldable pub add_from_set : SwSet ℕ → View → View
  unfolding index_all add_items
  add_from_set set v = add_items (set_as_list set) (record v {
    current_items_set = set_add_from (ref_equal heap) v.current_items_set set;
    uid_to_items = index_all heap (set_as_list set) v.uid_to_items;
  })

  unfoldable pub remove_from_set : SwSet ℕ → View → View
  unfolding unindex_all remove_items
  remove_from_set set v = remove_items (set_as_list set) (record v {
    current_items_set = set_remove_from (ref_equal heap) v.current_items_set set;
    uid_to_items = unindex_all heap (set_as_list set) v.uid_to_items;
  })

  unfoldable pub update_existing : SwSet ℕ → View → View
  unfolding update_items
  update_existing set v =
      let (current, d, sent) =
        replace_stale heap (set_as_list set) v.current_items_set v.uid_to_items in
      update_items sent (record v { current_items_set = current; uid_to_items = d })

  unfoldable pub set_from_set : SwSet ℕ → View → View
  set_from_set set v =
      if set_is_empty v.current_items_set
      then add_from_set set v
      else (let removed = set_difference same_ref (ref_equal heap) v.current_items_set set in
          let added = set_difference same_ref (ref_equal heap) set v.current_items_set in
          let w = if not (set_is_empty removed) then remove_from_set removed v else v in
          let u = update_existing set w in
          if not (set_is_empty added) then add_from_set added u else u)

  -- An unknown uid is only reported.
  unfoldable pub remove_by_uid : String → View → View
  unfolding remove_items
  remove_by_uid k v = elim (lookup k v.uid_to_items) [
    | none ↦ v
    | some r ↦
        let w = remove_items (r ∷ []) v in
        record w {
          current_items_set = set_remove (ref_equal heap) v.current_items_set r;
          uid_to_items = remove k v.uid_to_items;
        }
  ]
