-- ===== src/ItemView/Waiting.antt =====
-- No item is forgotten while it waits to be announced (libsocialweb/sw-item-view.c).
use libsocialweb_flickr_oaut.Dict.{lookup-insert, lookup-remove}
use libsocialweb_flickr_oaut.Set.Laws.{IsDistinct}
use mathlib.Core.Path.{subst}
use libsocialweb_flickr_oaut.Prelude.Int.{ℤ}
use libsocialweb_flickr_oaut.ItemView.World.{deliver_all, item_step, update_heap, deliver, World}
use libsocialweb_flickr_oaut.Item.{
  push_pending, put, touch, pop_pending, store, notify_ready, changed, get_ready, get, Item,
}
use libsocialweb_flickr_oaut.ItemView.{listed}
use libsocialweb_flickr_oaut.ItemView.{item_ready_notify, item_changed, disconnect, View}
use libsocialweb_flickr_oaut.Prelude.{
  ◌<◌, ◌&&◌, ◌%◌, refl, ◌-◌, none, ◌^◌, Option, ◌+◌, ◌⊎◌, ==_iff, inr, inl, Bool-cases, sym, false,
  true, not, ◌==◌, some, if◌then◌else◌, str_eq, List, Bool, String, ℕ, ◌≡◌, [], ◌∷◌, arith, ap,
}

abbrev pub same_name : (ℕ → String) → ℕ → ℕ → Bool
same_name name a b = str_eq (name a) (name b)

-- A pending item that is not ready has its "notify::ready" connected; for one that is ready the
-- timeout is set.
abbrev pub waits : (ℕ → Item) → View → ℕ → Bool
waits heap v r =
    if get_ready (heap r) then not (v.pending_timeout_id == 0) else listed r v.ready_handlers

pub record IsWaiting (name : ℕ → String) (w : World) : Type 0 where
  pub named : (r : ℕ) → get (w.heap r) "id" ≡ some (name r)
  pub distinct : IsDistinct (same_name name) w.view.pending_items_set.keys
  pub each : (r : ℕ) → listed r w.view.pending_items_set.keys ≡ true → waits w.heap w.view r ≡ true

-- The two fields that these operations leave alone.
pub record Keeps (v w : View) : Type 0 where
  pub pending : w.pending_items_set.keys ≡ v.pending_items_set.keys
  pub timeout : w.pending_timeout_id ≡ v.pending_timeout_id
  pub handlers : w.ready_handlers ≡ v.ready_handlers

listed-disconnect :
    (q r : ℕ) (l : List ℕ) → listed q (disconnect r l) ≡ (if q == r then false else listed q l)
unfolding listed disconnect
listed-disconnect q r [] = ground arith
listed-disconnect q r (x ∷ l) = ground (arith, listed-disconnect q r l)

module _ (name : ℕ → String) (name_of : ℕ → String) (time_of_string : String → ℤ) (source : ℕ) where
  get-store :
      (key : String) (value : Option String) (i : Item) (now : ℤ)
      → str_eq key "id" ≡ false
      → get (record (store key value i) { mtime = now }) "id" ≡ get i "id"
  unfolding get store
  get-store key none i now k = ground (arith, lookup-remove key "id" i.hash)
  get-store key (some v) i now k = ground (arith, lookup-insert key "id" v i.hash)

  store-ready :
      (key : String) (value : Option String) (r : ℕ) (w : World) (now : ℤ)
      → waits w.heap w.view r ≡ true
      → (if get_ready (record (store key value (w.heap r)) { mtime = now })
          then not (w.view.pending_timeout_id == 0)
          else listed r w.view.ready_handlers)
        ≡ true
  unfolding store get_ready
  store-ready key none r w now h = h
  store-ready key (some v) r w now h = h

  pub IsWaiting-Keeps :
      (heap : ℕ → Item) (v w : View)
      → Keeps v w
      → IsWaiting name (record { heap = heap; view = v })
      → IsWaiting name (record { heap = heap; view = w })
  IsWaiting-Keeps heap v w k h = record {
    named = h.named;
    distinct = subst (IsDistinct (same_name name)) (sym k.pending) h.distinct;
    each = λ r l.
        ground (arith, k.timeout, ap (listed r) k.handlers, ap (listed r) k.pending, h.each r);
  }

  Keeps-item_changed :
      (heap : ℕ → Item) (r : ℕ) (v : View)
      → Keeps v (item_changed heap name_of time_of_string source r v)
  unfolding item_changed
  Keeps-item_changed heap r v = record {
    pending = ground arith;
    timeout = ground arith;
    handlers = ground arith;
  }

  deliver-changed :
      (r : ℕ) (w : World)
      → IsWaiting name w
      → IsWaiting name (deliver name_of time_of_string source r changed w)
  unfolding deliver
  deliver-changed r w h = elim (Bool-cases (listed r w.view.changed_handlers)) [
    | inl connected ↦
        rw (connected, deliver)
          (IsWaiting-Keeps w.heap w.view _ (Keeps-item_changed w.heap r w.view) h)
    | inr other ↦ rw (other, deliver) h
  ]

  named-update :
      (r : ℕ) (i : Item) (heap : ℕ → Item)
      → ((q : ℕ) → get (heap q) "id" ≡ some (name q))
      → get i "id" ≡ get (heap r) "id"
      → (q : ℕ) → get (update_heap heap r i q) "id" ≡ some (name q)
  unfolding update_heap
  named-update r i heap h e q = elim (Bool-cases (q == r)) [
    | inl here ↦ ground (arith, here, ==_iff q r, e, h r, ap name {x = q} {y = r})
    | inr there ↦ rw there (h q)
  ]

  -- A changed item keeps its id, and waits as it should if it is pending.
  IsWaiting-update :
      (r : ℕ) (i : Item) (heap : ℕ → Item) (v : View)
      → IsWaiting name (record { heap = heap; view = v })
      → get i "id" ≡ get (heap r) "id"
      → (listed r v.pending_items_set.keys ≡ true
          → (if get_ready i then not (v.pending_timeout_id == 0) else listed r v.ready_handlers)
            ≡ true)
      → IsWaiting name (record { heap = update_heap heap r i; view = v })
  unfolding update_heap
  IsWaiting-update r i heap v h e p = record {
    named = named-update r i heap h.named e;
    distinct = h.distinct;
    each = λ q l. elim (Bool-cases (q == r)) [
      | inl here ↦
          let same = (==_iff q r).0 here in
          subst (λ k. waits (update_heap heap r i) v k ≡ true) (sym same)
            (ground
              (arith, ==_iff r r, p (subst (λ k. listed k v.pending_items_set.keys ≡ true) same l)))
      | inr there ↦ rw there (h.each q l)
    ];
  }

  -- The view after a pending item's signal: the handler is gone and the timeout is set.
  noticed : ℕ → View → View
  noticed r v = record v {
    ready_handlers = disconnect r v.ready_handlers;
    pending_timeout_id = if v.pending_timeout_id == 0 then source else v.pending_timeout_id;
  }

  item_ready_notify-noticed :
      (r : ℕ) (i : Item) (heap : ℕ → Item) (v : View)
      → get_ready i ≡ true
      → item_ready_notify (update_heap heap r i) name_of time_of_string source r v ≡ noticed r v
  unfolding item_ready_notify update_heap noticed
  item_ready_notify-noticed r i heap v e = ground (arith, e)

  waits-noticed :
      (r q : ℕ) (heap : ℕ → Item) (v : View)
      → (source == 0) ≡ false
      → get_ready (heap r) ≡ true
      → (waits heap v q ≡ true) ⊎ ((q == r) ≡ true)
      → waits heap (noticed r v) q ≡ true
  unfolding noticed
  waits-noticed r q heap v s e (inl h) = ground (
    arith,
    h,
    listed-disconnect q r v.ready_handlers,
    ==_iff q r,
    ap (λ k. get_ready (heap k)) {x = q} {y = r},
  )
  waits-noticed r q heap v s e (inr h) =
      ground (arith, ==_iff q r, ap (λ k. get_ready (heap k)) {x = q} {y = r})

  -- An item that becomes ready while its signal is connected to the view sets the timeout.
  deliver-notify_ready :
      (r : ℕ) (i : Item) (w : World)
      → IsWaiting name w
      → get i "id" ≡ get (w.heap r) "id"
      → get_ready (w.heap r) ≡ false
      → get_ready i ≡ true
      → (source == 0) ≡ false
      → IsWaiting name (
          deliver name_of time_of_string source r notify_ready
            (record w { heap = update_heap w.heap r i }))
  unfolding deliver
  deliver-notify_ready r i w h e before after s =
      elim (Bool-cases (listed r w.view.ready_handlers)) [
        | inl connected ↦
            rw (connected, deliver)
              (rw (item_ready_notify-noticed r i w.heap w.view after) (record {
                named = named-update r i w.heap h.named e;
                distinct = unfold noticed in h.distinct;
                each = λ q l.
                    waits-noticed r q (update_heap w.heap r i) w.view s
                      (unfold update_heap in ground (arith, after))
                      (elim (Bool-cases (q == r)) [
                        | inl here ↦ inr here
                        | inr there ↦
                            inl (unfold update_heap in rw there (h.each q (unfold noticed in l)))
                      ]);
              }))
        | inr other ↦
            rw (other, deliver)
              (IsWaiting-update r i w.heap w.view h e (λ l. ground (arith, h.each r l)))
      ]

  -- The item after the end of a fetch.
  popped : ℤ → Item → Item
  popped now i = record i {
    remaining_fetches = (i.remaining_fetches + (2 ^ 32 - 1)) % 2 ^ 32;
    mtime = now;
  }

  pop_pending_lem :
      (now : ℤ) (i : Item)
      → pop_pending now i ≡ (
        popped now i,
        if get_ready (popped now i) then notify_ready ∷ changed ∷ [] else changed ∷ [],
      )
  unfolding pop_pending touch popped get_ready
  pop_pending_lem now i = ground arith

  pub pop_pending-IsWaiting :
      (r : ℕ) (now : ℤ) (w : World)
      → IsWaiting name w
      → get_ready (w.heap r) ≡ false
      → (source == 0) ≡ false
      → IsWaiting name (item_step name_of time_of_string source r (pop_pending now) w)
  unfolding item_step deliver_all
  pop_pending-IsWaiting r now w h before s =
      let same_id : get (popped now (w.heap r)) "id" ≡ get (w.heap r) "id" =
        unfold popped get in refl in
      let pop : (i : Item)
          → pop_pending now i ≡ (
            popped now i,
            if get_ready (popped now i) then notify_ready ∷ changed ∷ [] else changed ∷ [],
          ) =
        pop_pending_lem now in
      rw (pop (w.heap r)) (elim (Bool-cases (get_ready (popped now (w.heap r)))) [
        | inl last ↦
            rw (last, deliver_all)
              (deliver-changed r _
                (deliver-notify_ready r (popped now (w.heap r)) w h same_id before last s))
        | inr more ↦
            rw (more, deliver_all)
              (deliver-changed r _ (
                IsWaiting-update r (popped now (w.heap r)) w.heap w.view h same_id
                  (λ l. ground (arith, more, h.each r l))))
      ])

  pub put-IsWaiting :
      (r : ℕ) (now : ℤ) (key : String) (value : Option String) (w : World)
      → IsWaiting name w
      → str_eq key "id" ≡ false
      → IsWaiting name (item_step name_of time_of_string source r (put now key value) w)
  unfolding item_step deliver_all put touch
  put-IsWaiting r now key value w h k = deliver-changed r _ (
      IsWaiting-update r _ w.heap w.view h (get-store key value (w.heap r) now k)
        (λ l. store-ready key value r w now (h.each r l)))

  -- A fetch that starts is no step of the view, but it may not hold a pending item back again.
  pub push_pending-IsWaiting :
      (r : ℕ) (w : World)
      → IsWaiting name w
      → listed r w.view.pending_items_set.keys && get_ready (w.heap r) ≡ false
      → (w.heap r).remaining_fetches + 1 < 2 ^ 32
      → IsWaiting name (item_step name_of time_of_string source r (λ i. (push_pending i, [])) w)
  unfolding item_step deliver_all
  push_pending-IsWaiting r w h g b =
      IsWaiting-update r (push_pending (w.heap r)) w.heap w.view h (unfold push_pending get in refl)
        (λ l. unfold push_pending get_ready in ground (arith, h.each r l, g, l))
