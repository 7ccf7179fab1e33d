-- ===== src/ItemView/Removed.antt =====
-- An item that is removed while it waits to be announced (libsocialweb/sw-item-view.c).
use libsocialweb_flickr_oaut.ItemView.Merge.{track_items_lem}
use libsocialweb_flickr_oaut.Set.{set_as_list, set_remove}
use libsocialweb_flickr_oaut.Dict.{lookup-remove, remove, lookup}
use libsocialweb_flickr_oaut.ItemView.Pending.{handle_ready_pending_lem, sent}
use libsocialweb_flickr_oaut.Set.Laws.{IsDistinct}
use libsocialweb_flickr_oaut.ItemView.{
  take_ready, add_items, ready_arrays, items_added, removed_pairs, items_removed,
  handle_ready_pending, ref_equal, View, remove_items, remove_by_uid,
}
use libsocialweb_flickr_oaut.ItemView.{listed}
use libsocialweb_flickr_oaut.Prelude.Int.{ℤ}
use libsocialweb_flickr_oaut.ItemView.Index.{HasIds}
use libsocialweb_flickr_oaut.Item.{get_ready, Item}
use libsocialweb_flickr_oaut.Prelude.{
  eq_refl, none, ==_iff, ◌++◌, inr, inl, some, Bool-cases, ◌||◌, true, List, String, ℕ, ◌≡◌, [],
  ◌∷◌, arith, ◌∙◌, ap,
}

module _ {heap : ℕ → Item} (ids : HasIds heap) (name_of : ℕ → String)
    (time_of_string : String → ℤ) where
  pub listed-sent :
      (r : ℕ) (rs to_send : List ℕ)
      → get_ready (heap r) ≡ true
      → listed r rs || listed r to_send ≡ true
      → listed r (sent ids name_of time_of_string rs to_send) ≡ true
  unfolding listed
  listed-sent r [] to_send ready h = h
  listed-sent r (x ∷ rs) to_send ready h = elim (Bool-cases (get_ready (heap x))) [
    | inl is_ready ↦ rw is_ready (listed-sent r rs (x ∷ to_send) ready (ground arith))
    | inr waits ↦ rw waits (
        listed-sent r rs to_send ready
          (ground (arith, ==_iff x r, ap (λ q. get_ready (heap q)) {x = x} {y = r})))
  ]

  handle_ready_pending-index :
      (v : View)
      → (handle_ready_pending heap name_of time_of_string v).uid_to_items ≡ v.uid_to_items
  unfolding handle_ready_pending add_items
  handle_ready_pending-index v =
      let taken =
        take_ready heap name_of time_of_string (set_as_list v.pending_items_set) v.pending_items_set
          [] in
      ap (λ (u : View). u.uid_to_items)
        (track_items_lem heap taken.1 (record v { pending_items_set = taken.0 }))

  -- A ready item that waits in the pending set, and is removed by its uid, is announced all the same:
  -- its client is told that it is gone, then, when the timeout fires, that it is there, and the view
  -- has no item of that uid.
  pub removed_then_added :
      (k : String) (r : ℕ) (v : View)
      → IsDistinct (ref_equal heap) v.pending_items_set.keys
      → lookup k v.uid_to_items ≡ some r
      → listed r v.pending_items_set.keys ≡ true
      → get_ready (heap r) ≡ true
      → let w =
          handle_ready_pending heap name_of time_of_string
            (remove_by_uid heap name_of time_of_string k v) in
        let announced = sent ids name_of time_of_string v.pending_items_set.keys [] in
        (w.bus
          ≡ (v.bus ++ items_removed (removed_pairs heap name_of time_of_string (r ∷ [])) ∷ [])
            ++ items_added (ready_arrays heap name_of time_of_string announced) ∷ [])
        × (listed r announced ≡ true)
        × (lookup k w.uid_to_items ≡ none)
  unfolding remove_by_uid remove_items
  removed_then_added k r v d h l ready =
      rw (h, remove_by_uid)
        (let u : View = record v {
          bus = v.bus ++ items_removed (removed_pairs heap name_of time_of_string (r ∷ [])) ∷ [];
          current_items_set = set_remove (ref_equal heap) v.current_items_set r;
          uid_to_items = remove k v.uid_to_items;
        } in
          let fired = handle_ready_pending_lem ids name_of time_of_string u d in
          (
            fired.0,
            listed-sent r v.pending_items_set.keys [] ready (ground arith),
            ap (lookup k) (handle_ready_pending-index u)
                ∙ ground (arith, lookup-remove k k v.uid_to_items, eq_refl k),
          ))
