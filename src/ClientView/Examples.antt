-- ===== src/ClientView/Examples.antt =====
-- A client's copy of a view of two items, as an instance of the theorem on
-- libsocialweb-client/sw-client-item-view.c.
use libsocialweb_flickr_oaut.ItemView.Emitted.{bus-set_from_set, expected}
use libsocialweb_flickr_oaut.ItemView.Examples.{
  shown-Coherent, shown, photos-name, no_dates, flickr, photos-HasIds, photos,
}
use libsocialweb_flickr_oaut.Set.Laws.{IsDistinct}
use libsocialweb_flickr_oaut.ItemView.{
  is_stale, set_from_set, ready_arrays, items_changed, removed_pairs, items_removed, BusSignal,
  ref_equal,
}
use libsocialweb_flickr_oaut.ClientView.Mirror.{receive_all-set_from_set, Mirrors}
use libsocialweb_flickr_oaut.Item.{
  same_value, each_in, item_equal, service_name, get, item_id_equal, to_value_array, get_ready,
}
use libsocialweb_flickr_oaut.Set.{set_is_empty, contains, SwSet}
use libsocialweb_flickr_oaut.Dict.{lookup}
use libsocialweb_flickr_oaut.ClientView.{receive_all, ClientView}
use libsocialweb_flickr_oaut.Prelude.{◌++◌, some, true, List, ℕ, zero, suc, [], ◌∷◌, ◌≡◌, refl}

abbrev copy : ClientView
copy = record {
  uuid_to_items =
      ("a", record { object = 0; value = to_value_array flickr no_dates (photos 0) })
      ∷ ("c", record { object = 1; value = to_value_array flickr no_dates (photos 3) })
      ∷ [];
  created = 2;
  emitted = [];
}

copy-Mirrors : Mirrors photos-HasIds flickr no_dates shown.current_items_set copy
unfolding lookup ref_equal item_id_equal get photos-name photos-HasIds
copy-Mirrors zero = refl
copy-Mirrors (suc zero) = refl
copy-Mirrors (suc (suc zero)) = refl
copy-Mirrors (suc (suc (suc n))) = refl

-- The new version of item 0; item 3 is gone.
abbrev ready_update : SwSet ℕ
ready_update = record { ref_count = 1; keys = 1 ∷ [] }

abbrev signals : List BusSignal
signals =
    items_removed ((some "flickr", some "c") ∷ [])
    ∷ items_changed (to_value_array flickr no_dates (photos 1) ∷ [])
    ∷ []

one-IsDistinct : IsDistinct (ref_equal photos) ready_update.keys
unfolding contains
one-IsDistinct = (refl, tt)

one_ready : get_ready (photos 1) ≡ true
unfolding get_ready
one_ready = refl

sent_signals : (set_from_set photos flickr no_dates ready_update shown).bus ≡ shown.bus ++ signals
unfolding set_is_empty expected removed_pairs service_name ready_arrays get_ready is_stale
    item_equal each_in same_value ref_equal item_id_equal get lookup contains
sent_signals =
    bus-set_from_set photos-HasIds flickr no_dates ready_update shown shown-Coherent one-IsDistinct

receive_all-set_from_set_example :
    Mirrors photos-HasIds flickr no_dates
      (set_from_set photos flickr no_dates ready_update shown).current_items_set
      (receive_all signals copy)
receive_all-set_from_set_example =
    receive_all-set_from_set photos-HasIds flickr no_dates ready_update shown copy signals
      shown-Coherent one-IsDistinct (one_ready, tt) copy-Mirrors sent_signals
