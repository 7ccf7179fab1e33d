-- ===== src/ItemView/Runs.antt =====
-- What can happen to a view and its items, in any order (libsocialweb/sw-item-view.c,
-- libsocialweb/sw-item.c).
use libsocialweb_flickr_oaut.ItemView.Index.{ref_equal-IsEquivalence}
use libsocialweb_flickr_oaut.Set.Find.{keep-IsDistinct}
use libsocialweb_flickr_oaut.Set.Laws.{IsDistinct}
use mathlib.Core.Path.{subst}
use libsocialweb_flickr_oaut.Set.{set_new, SwSet}
use libsocialweb_flickr_oaut.ItemView.Pending.{
  handle_ready_pending-handlers, handle_ready_pending_lem,
}
use libsocialweb_flickr_oaut.ItemView.Announced.{
  Keeps-item_changed_timeout, Keeps-remove_by_uid, Waits-set_from_set, listed-keep,
  IsDistinct-same_name, IsDistinct-ref_equal, named_ids,
}
use libsocialweb_flickr_oaut.Item.{get, Item, push_pending, pop_pending, get_ready, put}
use libsocialweb_flickr_oaut.ItemView.{
  view_init, item_changed_timeout, remove_by_uid, set_from_set, listed, handle_ready_pending,
}
use libsocialweb_flickr_oaut.ItemView.Waiting.{
  IsWaiting-Keeps, same_name, push_pending-IsWaiting, pop_pending-IsWaiting, put-IsWaiting,
  IsWaiting,
}
use libsocialweb_flickr_oaut.ItemView.World.{item_step, World}
use libsocialweb_flickr_oaut.Prelude.Int.{ℤ}
use libsocialweb_flickr_oaut.Prelude.{
  sym, some, not, Bool, ◌^◌, ◌<◌, ◌+◌, ◌&&◌, str_eq, false, Option, ◌==◌, String, ℕ, ◌≡◌, [], arith,
  ◌∙◌, ap,
}

module _ (name_of : ℕ → String) (time_of_string : String → ℤ) (source : ℕ) where
  -- A fetch ends for an item that has one outstanding; it starts for an item that is not both pending
  -- and ready; no item changes its id; a timeout fires if it is set.
  pub data Step : World → World → Type 0 where
    puts :
        (r : ℕ) (now : ℤ) (key : String) (value : Option String) (w : World)
        → str_eq key "id" ≡ false
        → Step w (item_step name_of time_of_string source r (put now key value) w)
    fetch_ends :
        (r : ℕ) (now : ℤ) (w : World)
        → get_ready (w.heap r) ≡ false
        → Step w (item_step name_of time_of_string source r (pop_pending now) w)
    fetch_starts :
        (r : ℕ) (w : World)
        → listed r w.view.pending_items_set.keys && get_ready (w.heap r) ≡ false
        → (w.heap r).remaining_fetches + 1 < 2 ^ 32
        → Step w (item_step name_of time_of_string source r (λ i. (push_pending i, [])) w)
    sets_from_set :
        (set : SwSet ℕ) (w : World)
        → Step w (record w { view = set_from_set w.heap name_of time_of_string set w.view })
    removes_by_uid :
        (uid : String) (w : World)
        → Step w (record w { view = remove_by_uid w.heap name_of time_of_string uid w.view })
    ready_timeout :
        (w : World)
        → (w.view.pending_timeout_id == 0) ≡ false
        → Step w (record w { view = handle_ready_pending w.heap name_of time_of_string w.view })
    changed_timeout :
        (w : World)
        → (w.view.refresh_timeout_id == 0) ≡ false
        → Step w (record w { view = item_changed_timeout w.heap name_of time_of_string w.view })

  pub data Reach (w : World) : World → Type 0 where
    here : Reach w w
    next : {t u : World} → Reach w t → Step t u → Reach w u

  module _ (name : ℕ → String) (source_set : (source == 0) ≡ false) where
    handle_ready_pending-IsWaiting :
        (w : World)
        → IsWaiting name w
        → IsWaiting name
            (record w { view = handle_ready_pending w.heap name_of time_of_string w.view })
    handle_ready_pending-IsWaiting w h =
        let ids = named_ids name name_of time_of_string source w.heap h.named in
        let keys = w.view.pending_items_set.keys in
        let d =
          IsDistinct-ref_equal name name_of time_of_string source w.heap h.named keys h.distinct in
        let fired = handle_ready_pending_lem ids name_of time_of_string w.view d in
        let handlers = handle_ready_pending-handlers ids name_of time_of_string w.view d in
        let waits_on : ℕ → Bool = λ r. not (get_ready (w.heap r)) in
        record {
          named = h.named;
          distinct = subst (IsDistinct (same_name name)) (sym fired.1) (
              IsDistinct-same_name name name_of time_of_string source w.heap h.named _
                (keep-IsDistinct (ref_equal-IsEquivalence ids) waits_on keys d));
          each = λ q l. ground (
            arith,
            listed-keep waits_on q keys (ap (listed q) (sym fired.1) ∙ l),
            h.each q,
            fired.2,
            ap (listed q) handlers,
          );
        }

    Step-IsWaiting : {t u : World} → Step t u → IsWaiting name t → IsWaiting name u
    Step-IsWaiting (puts r now key value w k) h =
        put-IsWaiting name name_of time_of_string source r now key value w h k
    Step-IsWaiting (fetch_ends r now w unready) h =
        pop_pending-IsWaiting name name_of time_of_string source r now w h unready source_set
    Step-IsWaiting (fetch_starts r w g b) h =
        push_pending-IsWaiting name name_of time_of_string source r w h g b
    Step-IsWaiting (sets_from_set set w) h =
        Waits-set_from_set name name_of time_of_string source w.heap set w.view h
    Step-IsWaiting (removes_by_uid uid w) h =
        IsWaiting-Keeps name name_of time_of_string source w.heap w.view _
          (Keeps-remove_by_uid name name_of time_of_string source w.heap uid w.view) h
    Step-IsWaiting (ready_timeout w set) h = handle_ready_pending-IsWaiting w h
    Step-IsWaiting (changed_timeout w set) h =
        IsWaiting-Keeps name name_of time_of_string source w.heap w.view _
          (Keeps-item_changed_timeout name name_of time_of_string source w.heap w.view) h

    pub Reach-IsWaiting : {w u : World} → IsWaiting name w → Reach w u → IsWaiting name u
    Reach-IsWaiting h here = h
    Reach-IsWaiting h (next r st) = Step-IsWaiting st (Reach-IsWaiting h r)

    view_init-IsWaiting :
        (heap : ℕ → Item)
        → ((r : ℕ) → get (heap r) "id" ≡ some (name r))
        → IsWaiting name (record { heap = heap; view = view_init })
    unfolding view_init listed set_new
    view_init-IsWaiting heap h = record { named = h; distinct = tt; each = λ r l. ground arith }

    -- From a new view among items with ids, whatever steps follow, if none of them changes an id, none
    -- brings a count of fetches to 2^32, no fetch starts for an item that is pending and ready at the
    -- time, and GLib gives no timeout the id 0, every pending item that is not ready has its "notify::ready" connected, and while one
    -- is ready the timeout is set.
    pub no_item_forgotten :
        (heap : ℕ → Item)
        → ((r : ℕ) → get (heap r) "id" ≡ some (name r))
        → {u : World} → Reach (record { heap = heap; view = view_init }) u
        → IsWaiting name u
    no_item_forgotten heap h reach = Reach-IsWaiting (view_init-IsWaiting heap h) reach
