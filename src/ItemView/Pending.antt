-- ===== src/ItemView/Pending.antt =====
-- The items that wait to be announced (libsocialweb/sw-item-view.c).
use libsocialweb_flickr_oaut.ItemView.Merge.{track_items_lem}
use mathlib.Core.Path.{ap₂, subst}
use mathlib.Core.List.{append_assoc}
use libsocialweb_flickr_oaut.Set.Find.{keep}
use libsocialweb_flickr_oaut.ItemView.{
  ready_arrays, items_added, add_items, track_item, View, handle_ready_pending, track_items,
  ref_equal, take_ready,
}
use libsocialweb_flickr_oaut.Set.{set_as_list, set_remove, SwSet, contains, delete}
use libsocialweb_flickr_oaut.Set.Laws.{IsDistinct, IsEquivalence}
use libsocialweb_flickr_oaut.Prelude.Int.{ℤ}
use libsocialweb_flickr_oaut.ItemView.Index.{ref_equal-IsEquivalence, HasIds}
use libsocialweb_flickr_oaut.Item.{get_ready, Item}
use libsocialweb_flickr_oaut.Prelude.{
  true, All, refl, sym, inr, ◌∙◌, ap, inl, Bool-cases, not, ◌||◌, arith, [], false, if◌then◌else◌,
  ◌++◌, ◌≡◌, ◌∷◌, List, Bool, String, ℕ,
}

module _ {heap : ℕ → Item} (ids : HasIds heap) (name_of : ℕ → String)
    (time_of_string : String → ℤ) where
  abbrev same : IsEquivalence (ref_equal heap)
  same = ref_equal-IsEquivalence ids

  abbrev ready : ℕ → Bool
  ready r = get_ready (heap r)

  delete_next :
      (kept : List ℕ) (r : ℕ) (rs : List ℕ)
      → contains (ref_equal heap) kept r ≡ false
      → delete (ref_equal heap) (kept ++ r ∷ rs) r ≡ kept ++ rs
  unfolding delete contains
  delete_next [] r rs h = ground (arith, same.reflexive r)
  delete_next (x ∷ kept) r rs h = ground (arith, delete_next kept r rs)

  contains-snoc :
      (kept : List ℕ) (r z : ℕ)
      → contains (ref_equal heap) (kept ++ r ∷ []) z
        ≡ contains (ref_equal heap) kept z || ref_equal heap r z
  unfolding contains
  contains-snoc [] r z = ground arith
  contains-snoc (x ∷ kept) r z = ground (arith, contains-snoc kept r z)

  -- No key of the second list is in the first.
  abbrev Apart : List ℕ → List ℕ → Type 0
  Apart kept [] = Unit {0}
  Apart kept (r ∷ rs) = (contains (ref_equal heap) kept r ≡ false) × Apart kept rs

  Apart-snoc :
      (kept rs : List ℕ) (x : ℕ)
      → Apart kept rs
      → contains (ref_equal heap) rs x ≡ false
      → Apart (kept ++ x ∷ []) rs
  unfolding contains
  Apart-snoc kept [] x a h = tt
  Apart-snoc kept (r ∷ rs) x a h =
      ground (arith, Apart-snoc kept rs x, contains-snoc kept x r, same.symmetric x r)

  -- The ready items, last first, in front of those found before.
  abbrev pub sent : List ℕ → List ℕ → List ℕ
  sent [] to_send = to_send
  sent (r ∷ rs) to_send = sent rs (if ready r then r ∷ to_send else to_send)

  Apart-nil : (rs : List ℕ) → Apart [] rs
  unfolding contains
  Apart-nil [] = tt
  Apart-nil (r ∷ rs) = (refl, Apart-nil rs)

  take_ready_lem :
      (rs kept to_send : List ℕ) (pending : SwSet ℕ)
      → IsDistinct (ref_equal heap) rs
      → Apart kept rs
      → pending.keys ≡ kept ++ rs
      → ((take_ready heap name_of time_of_string rs pending to_send).0.keys
          ≡ kept ++ keep (λ r. not (ready r)) rs)
        × ((take_ready heap name_of time_of_string rs pending to_send).1 ≡ sent rs to_send)
  unfolding take_ready
  take_ready_lem [] kept to_send pending d a e = (e, refl)
  take_ready_lem (r ∷ rs) kept to_send pending d a e = elim (Bool-cases (ready r)) [
    | inl is_ready ↦
        rw (is_ready, take_ready)
          (take_ready_lem rs kept (r ∷ to_send) (set_remove (ref_equal heap) pending r) d.1 a.1 (
            unfold set_remove in
            ap (λ l. delete (ref_equal heap) l r) e ∙ delete_next kept r rs a.0))
    | inr waits ↦
        let more =
          take_ready_lem rs (kept ++ r ∷ []) to_send pending d.1 (Apart-snoc kept rs r a.1 d.0)
            (e ∙ sym (append_assoc kept (r ∷ []) rs)) in
        rw (waits, take_ready)
          (more.0 ∙ append_assoc kept (r ∷ []) (keep (λ q. not (ready q)) rs), more.1)
  ]

  track_ready :
      (rs : List ℕ) (v : View)
      → All (λ r. get_ready (heap r) ≡ true) rs
      → (track_items heap rs v).pending_items_set ≡ v.pending_items_set
  unfolding track_items
  track_ready [] v a = refl
  track_ready (r ∷ rs) v a = track_ready rs (track_item heap r v) a.1 ∙ ground arith

  All-sent :
      (rs to_send : List ℕ)
      → All (λ r. get_ready (heap r) ≡ true) to_send
      → All (λ r. get_ready (heap r) ≡ true) (sent rs to_send)
  All-sent [] to_send a = a
  All-sent (r ∷ rs) to_send a = elim (Bool-cases (ready r)) [
    | inl is_ready ↦ rw is_ready (All-sent rs (r ∷ to_send) (is_ready, a))
    | inr waits ↦ rw waits (All-sent rs to_send a)
  ]

  track_handlers :
      (rs : List ℕ) (v : View)
      → All (λ r. get_ready (heap r) ≡ true) rs
      → (track_items heap rs v).ready_handlers ≡ v.ready_handlers
  unfolding track_items
  track_handlers [] v a = refl
  track_handlers (r ∷ rs) v a = track_handlers rs (track_item heap r v) a.1 ∙ ground arith

  -- No signal is connected anew: all that is announced is ready.
  pub handle_ready_pending-handlers :
      (v : View)
      → IsDistinct (ref_equal heap) v.pending_items_set.keys
      → (handle_ready_pending heap name_of time_of_string v).ready_handlers ≡ v.ready_handlers
  unfolding handle_ready_pending set_as_list add_items
  handle_ready_pending-handlers v d =
      let taken =
        take_ready heap name_of time_of_string v.pending_items_set.keys v.pending_items_set [] in
      let t =
        take_ready_lem v.pending_items_set.keys [] [] v.pending_items_set d
          (Apart-nil v.pending_items_set.keys) refl in
      track_handlers taken.1 (record v { pending_items_set = taken.0 })
        (subst (All (λ r. get_ready (heap r) ≡ true)) (sym t.1)
          (All-sent v.pending_items_set.keys [] tt))

  -- When the timeout for ready items fires, one "ItemsAdded" goes out, with exactly those of the
  -- pending items that are ready, the last of them first; these leave the pending set, the others
  -- stay in it in their order, and the timeout is cleared.
  pub handle_ready_pending_lem :
      (v : View)
      → IsDistinct (ref_equal heap) v.pending_items_set.keys
      → let w = handle_ready_pending heap name_of time_of_string v in
        (w.bus
          ≡ v.bus
            ++ items_added
                (ready_arrays heap name_of time_of_string (sent v.pending_items_set.keys []))
              ∷ [])
        × (w.pending_items_set.keys ≡ keep (λ r. not (get_ready (heap r))) v.pending_items_set.keys)
        × (w.pending_timeout_id ≡ 0)
        × (w.current_items_set ≡ v.current_items_set)
  unfolding handle_ready_pending set_as_list add_items
  handle_ready_pending_lem v d =
      let taken =
        take_ready heap name_of time_of_string v.pending_items_set.keys v.pending_items_set [] in
      let v' : View = record v { pending_items_set = taken.0 } in
      let t =
        take_ready_lem v.pending_items_set.keys [] [] v.pending_items_set d
          (Apart-nil v.pending_items_set.keys) refl in
      let all_ready =
        subst (All (λ r. get_ready (heap r) ≡ true)) (sym t.1)
          (All-sent v.pending_items_set.keys [] tt) in
      (
        ap₂ (λ b (rs : List ℕ). b ++ items_added (ready_arrays heap name_of time_of_string rs) ∷ [])
            (ap (λ (u : View). u.bus) (track_items_lem heap taken.1 v')) t.1,
        ap (λ (s : SwSet ℕ). s.keys) (track_ready taken.1 v' all_ready) ∙ t.0,
        refl,
        ap (λ (u : View). u.current_items_set) (track_items_lem heap taken.1 v'),
      )
