-- ===== src/ClientView.antt =====
-- libsocialweb-client/sw-client-item-view.c, with the items of libsocialweb-client/sw-item.c: the view
-- as the client's library keeps it, from the signals of the daemon's view. An item is an object, which
-- a change updates in place; what was added, changed and removed is handed to the client as a list.
pub mod Table
pub mod Signals
pub mod Mirror
mod Examples
use libsocialweb_flickr_oaut.Prelude.{ℕ, suc, String, Option, none, some, List, [], ◌∷◌, ◌++◌}
use libsocialweb_flickr_oaut.Dict.{Dict, lookup, insert, remove}
use libsocialweb_flickr_oaut.Item.{ValueArray}
use libsocialweb_flickr_oaut.ItemView.{BusSignal, items_added, items_changed, items_removed}

-- The fields of a client's item are those of the array that it was made from.
pub record ClientItem : Type 0 where
  pub object : ℕ
  pub value : ValueArray

pub data ClientSignal : Type 0 where
  added changed removed : List ClientItem → ClientSignal

pub record ClientView : Type 0 where
  pub uuid_to_items : Dict ClientItem
  -- how many items were made
  pub created : ℕ
  pub emitted : List ClientSignal

-- `sw_client_item_view_init`
unfoldable pub client_init : ClientView
client_init = record { uuid_to_items = []; created = 0; emitted = [] }

-- The key of a table; the code passes NULL on where there is no uid, and the model leaves the table
-- alone there.
unfoldable pub insert_uid : Option String → ClientItem → Dict ClientItem → Dict ClientItem
insert_uid none i d = d
insert_uid (some uid) i d = insert uid i d

unfoldable pub lookup_uid : Option String → Dict ClientItem → Option ClientItem
lookup_uid none d = none
lookup_uid (some uid) d = lookup uid d

unfoldable pub remove_uid : Option String → Dict ClientItem → Dict ClientItem
remove_uid none d = d
remove_uid (some uid) d = remove uid d

-- `_sw_item_from_value_array`
unfoldable pub item_from : ℕ → ValueArray → ClientItem
item_from object array = record { object = object; value = array }

-- The loop of `_proxy_items_added_cb`, and the items that were made.
unfoldable pub add_each : List ValueArray → ClientView → ClientView × List ClientItem
add_each [] v = (v, [])
add_each (array ∷ arrays) v =
    let i = item_from v.created array in
    let (w, items) = add_each arrays (record v {
      uuid_to_items = insert_uid array.id i v.uuid_to_items;
      created = suc v.created;
    }) in
    (w, i ∷ items)

-- The loop of `_proxy_items_changed_cb`: an unknown item is only reported.
unfoldable pub change_each : List ValueArray → ClientView → ClientView × List ClientItem
change_each [] v = (v, [])
change_each (array ∷ arrays) v = elim (lookup_uid array.id v.uuid_to_items) [
  | none ↦ change_each arrays v
  | some old ↦
      let i : ClientItem = record old { value = array } in
      let (w, items) =
        change_each arrays (record v { uuid_to_items = insert_uid array.id i v.uuid_to_items }) in
      (w, i ∷ items)
]

-- The loop of `_proxy_items_removed_cb`.
unfoldable pub remove_each_uid :
    List (Option String × Option String) → ClientView → ClientView × List ClientItem
remove_each_uid [] v = (v, [])
remove_each_uid ((service, uid) ∷ pairs) v = elim (lookup_uid uid v.uuid_to_items) [
  | none ↦ remove_each_uid pairs v
  | some i ↦
      let (w, items) =
        remove_each_uid pairs (record v { uuid_to_items = remove_uid uid v.uuid_to_items }) in
      (w, i ∷ items)
]

-- The three callbacks.
unfoldable pub receive : BusSignal → ClientView → ClientView
unfolding add_each change_each remove_each_uid
receive (items_added arrays) v =
    let (w, items) = add_each arrays v in record w { emitted = w.emitted ++ added items ∷ [] }
receive (items_changed arrays) v =
    let (w, items) = change_each arrays v in record w { emitted = w.emitted ++ changed items ∷ [] }
receive (items_removed pairs) v =
    let (w, items) = remove_each_uid pairs v in
    record w { emitted = w.emitted ++ removed items ∷ [] }

unfoldable pub receive_all : List BusSignal → ClientView → ClientView
unfolding receive
receive_all [] v = v
receive_all (signal ∷ signals) v = receive_all signals (receive signal v)
