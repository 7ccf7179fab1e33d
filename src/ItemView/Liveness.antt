-- ===== src/ItemView/Liveness.antt =====
-- Every pending item is announced in the end (libsocialweb/sw-item-view.c, libsocialweb/sw-item.c).
use libsocialweb_flickr_oaut.Set.Find.{keep}
use libsocialweb_flickr_oaut.Item.{changed}
use libsocialweb_flickr_oaut.ItemView.Removed.{listed-sent}
use libsocialweb_flickr_oaut.ItemView.Pending.{sent, handle_ready_pending_lem}
use libsocialweb_flickr_oaut.ItemView.Announced.{listed-keep, IsDistinct-ref_equal, named_ids}
use libsocialweb_flickr_oaut.Set.{SwSet}
use libsocialweb_flickr_oaut.ItemView.Waiting.{pop_pending-IsWaiting, IsWaiting}
use libsocialweb_flickr_oaut.Item.{touch, get_ready, Item, notify_ready, Signal, pop_pending}
use libsocialweb_flickr_oaut.ItemView.{
  ready_arrays, items_added, handle_ready_pending, listed, item_changed, item_ready_notify,
}
use libsocialweb_flickr_oaut.ItemView.World.{update_heap, item_step, deliver_all, deliver, World}
use libsocialweb_flickr_oaut.Prelude.Int.{ℤ}
use libsocialweb_flickr_oaut.Prelude.{
  inr, inl, Bool-cases, not, ◌++◌, ==_iff, true, ◌^◌, zero, ◌<◌, false, List, suc, ◌==◌, String, ℕ,
  ◌≡◌, refl, [], ◌∷◌, arith, ◌∙◌, ap,
}

module _ (name : ℕ → String) (name_of : ℕ → String) (time_of_string : String → ℤ) (source : ℕ) where
  -- `n` fetches of the item `r` end, one after the other.
  unfoldable pub ends : ℕ → ℤ → ℕ → World → World
  ends zero now r w = w
  ends (suc n) now r w =
      ends n now r (item_step name_of time_of_string source r (pop_pending now) w)

  deliver-keeps :
      (r : ℕ) (e : Signal) (w : World)
      → ((deliver name_of time_of_string source r e w).heap ≡ w.heap)
        × ((deliver name_of time_of_string source r e w).view.pending_items_set
            ≡ w.view.pending_items_set)
  unfolding deliver item_ready_notify item_changed
  deliver-keeps r notify_ready w = ground arith
  deliver-keeps r changed w = ground arith

  deliver_all-keeps :
      (r : ℕ) (es : List Signal) (w : World)
      → ((deliver_all name_of time_of_string source r es w).heap ≡ w.heap)
        × ((deliver_all name_of time_of_string source r es w).view.pending_items_set
            ≡ w.view.pending_items_set)
  unfolding deliver_all
  deliver_all-keeps r [] w = (refl, refl)
  deliver_all-keeps r (e ∷ es) w =
      let first = deliver-keeps r e w in
      let rest = deliver_all-keeps r es (deliver name_of time_of_string source r e w) in
      (rest.0 ∙ first.0, rest.1 ∙ first.1)

  popped_once :
      (now : ℤ) (r n : ℕ) (w : World)
      → (w.heap r).remaining_fetches ≡ suc n
      → suc n < 2 ^ 32
      → (((item_step name_of time_of_string source r (pop_pending now) w).heap r).remaining_fetches
          ≡ n)
        × ((item_step name_of time_of_string source r (pop_pending now) w).view.pending_items_set
            ≡ w.view.pending_items_set)
  unfolding item_step
  popped_once now r n w e b =
      let k =
        deliver_all-keeps r (pop_pending now (w.heap r)).1
          (record w { heap = update_heap w.heap r (pop_pending now (w.heap r)).0 }) in
      (
        ap (λ (h : ℕ → Item). (h r).remaining_fetches) k.0
            ∙ unfold update_heap pop_pending touch in ground (arith, e, ==_iff r r),
        k.1,
      )

  module _ (source_set : (source == 0) ≡ false) where
    ends_lem :
        (n : ℕ) (now : ℤ) (r : ℕ) (w : World)
        → IsWaiting name w
        → (w.heap r).remaining_fetches ≡ n
        → n < 2 ^ 32
        → IsWaiting name (ends n now r w)
          × (((ends n now r w).heap r).remaining_fetches ≡ 0)
          × ((ends n now r w).view.pending_items_set ≡ w.view.pending_items_set)
    unfolding ends
    ends_lem zero now r w h e b = (h, e, refl)
    ends_lem (suc n) now r w h e b =
        let once = popped_once now r n w e b in
        let rest =
          ends_lem n now r (item_step name_of time_of_string source r (pop_pending now) w)
            (pop_pending-IsWaiting name name_of time_of_string source r now w h
              (unfold get_ready in ground (arith, e)) source_set)
            once.0 (omega arith) in
        (rest.0, rest.1, rest.2 ∙ once.1)

    not_kept :
        (heap : ℕ → Item) (r : ℕ) (l : List ℕ)
        → get_ready (heap r) ≡ true
        → listed r (keep (λ q. not (get_ready (heap q))) l) ≡ false
    not_kept heap r l ready =
        elim (Bool-cases (listed r (keep (λ q. not (get_ready (heap q))) l))) [
          | inl kept ↦ ground (arith, listed-keep (λ q. not (get_ready (heap q))) r l kept, ready)
          | inr gone ↦ gone
        ]

    -- From any state in which every pending item waits as it should, a pending item is announced: once
    -- its outstanding fetches have ended it is ready and the timeout is set, and when the timeout
    -- fires, the one "ItemsAdded" that goes out has the item, which is pending no longer.
    pub pending_item_announced :
        (now : ℤ) (r : ℕ) (w : World) (h : IsWaiting name w)
        → (w.heap r).remaining_fetches < 2 ^ 32
        → listed r w.view.pending_items_set.keys ≡ true
        → let u = ends (w.heap r).remaining_fetches now r w in
          let fired = handle_ready_pending u.heap name_of time_of_string u.view in
          (items : List ℕ) × ((u.view.pending_timeout_id == 0) ≡ false)
          × (fired.bus
              ≡ u.view.bus ++ items_added (ready_arrays u.heap name_of time_of_string items) ∷ [])
          × (listed r items ≡ true)
          × (get_ready (u.heap r) ≡ true)
          × (listed r fired.pending_items_set.keys ≡ false)
    pending_item_announced now r w h b l =
        let u = ends (w.heap r).remaining_fetches now r w in
        let led = ends_lem (w.heap r).remaining_fetches now r w h refl b in
        let ready : get_ready (u.heap r) ≡ true = unfold get_ready in ground (arith, led.1) in
        let keys = u.view.pending_items_set.keys in
        let waiting : listed r keys ≡ true = ap (λ (s : SwSet ℕ). listed r s.keys) led.2 ∙ l in
        let ids = named_ids name name_of time_of_string source u.heap led.0.named in
        let fired = handle_ready_pending_lem ids name_of time_of_string u.view (
          IsDistinct-ref_equal name name_of time_of_string source u.heap led.0.named keys
            led.0.distinct) in
        (
          sent ids name_of time_of_string keys [],
          ground (arith, led.0.each r waiting, ready),
          fired.0,
          listed-sent ids name_of time_of_string r keys [] ready (ground (arith, waiting)),
          ready,
          ap (listed r) fired.1 ∙ not_kept u.heap r keys ready,
        )
