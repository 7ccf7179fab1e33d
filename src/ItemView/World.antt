-- ===== src/ItemView/World.antt =====
-- A view among its items: an operation on an item changes the heap, and its signals reach the view
-- (the handlers that libsocialweb/sw-item-view.c connects to the signals of libsocialweb/sw-item.c).
use libsocialweb_flickr_oaut.Item.{Item, Signal, notify_ready, changed}
use libsocialweb_flickr_oaut.Prelude.Int.{ℤ}
use libsocialweb_flickr_oaut.Prelude.{ℕ, String, List, [], ◌∷◌, ◌==◌, if◌then◌else◌}
use libsocialweb_flickr_oaut.ItemView.{View, item_changed, item_ready_notify, listed}

pub record World : Type 0 where
  pub heap : ℕ → Item
  pub view : View

unfoldable pub update_heap : (ℕ → Item) → ℕ → Item → ℕ → Item
update_heap heap r i q = if q == r then i else heap q

module _ (name_of : ℕ → String) (time_of_string : String → ℤ) (source : ℕ) where
  -- A handler runs if it is connected. `source` is the id that GLib gives to a timeout.
  unfoldable pub deliver : ℕ → Signal → World → World
  deliver r notify_ready w =
      if listed r w.view.ready_handlers
      then record w { view = item_ready_notify w.heap name_of time_of_string source r w.view }
      else w
  deliver r changed w =
      if listed r w.view.changed_handlers
      then record w { view = item_changed w.heap name_of time_of_string source r w.view }
      else w

  unfoldable pub deliver_all : ℕ → List Signal → World → World
  deliver_all r [] w = w
  deliver_all r (e ∷ es) w = deliver_all r es (deliver r e w)

  -- An operation on the item `r`, whose signals go out when it has its new state.
  unfoldable pub item_step : ℕ → (Item → Item × List Signal) → World → World
  item_step r op w =
      deliver_all r (op (w.heap r)).1 (record w { heap = update_heap w.heap r (op (w.heap r)).0 })
