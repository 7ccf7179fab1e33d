-- ===== src/ClientMonitor/Tracking.antt =====
-- Every tracked object is alive (libsocialweb/sw-client-monitor.c).
use libsocialweb_flickr_oaut.Prelude.{
  inr, inl, Bool-cases, ◌++◌, ℕ, String, ◌==◌, ◌-◌, ◌+◌, ◌≤◌, ◌≡◌, List, [], ◌∷◌, str_eq,
  if◌then◌else◌, ◌&&◌, arith, eq_iff,
}
use libsocialweb_flickr_oaut.Dict.{lookup, lookup-remove, Dict, insert, lookup-insert}
use libsocialweb_flickr_oaut.ClientMonitor.{
  init, name_owner_changed, forget, unref_each, unref, Monitor, objects_of, remove_one, add, remove,
  untrack, notify_each, drop_weak, object_died,
}

abbrev pub count : ℕ → List ℕ → ℕ
count p [] = 0
count p (x ∷ xs) = (if x == p then 1 else 0) + count p xs

-- The weak references to an object that were made for a sender.
abbrev pub weak_count : String → ℕ → List (String × ℕ) → ℕ
weak_count s p [] = 0
weak_count s p ((t, x) ∷ weak) = (if str_eq t s && x == p then 1 else 0) + weak_count s p weak

count-remove_one :
    (p o : ℕ) (l : List ℕ)
    → count p (remove_one o l) ≡ (if o == p then count p l - 1 else count p l)
unfolding remove_one
count-remove_one p o [] = ground arith
count-remove_one p o (x ∷ xs) = ground (arith, count-remove_one p o xs)

objects_of-insert :
    (s t : String) (l : List ℕ) (clients : Dict (List ℕ))
    → objects_of s (insert t l clients) ≡ (if str_eq t s then l else objects_of s clients)
unfolding objects_of
objects_of-insert s t l clients = ground (arith, lookup-insert t s l clients)

count-untrack :
    (s t : String) (p o : ℕ) (clients : Dict (List ℕ))
    → count p (objects_of s (untrack t o clients)) ≡ (
        if str_eq t s && o == p
        then count p (objects_of s clients) - 1
        else count p (objects_of s clients))
unfolding untrack
count-untrack s t p o clients = ground (
  arith,
  objects_of-insert s t (remove_one o (objects_of t clients)) clients,
  count-remove_one p o (objects_of t clients),
  eq_iff t s,
)

count-notify_each :
    (s : String) (p o : ℕ) (weak : List (String × ℕ)) (clients : Dict (List ℕ))
    → count p (objects_of s (notify_each o weak clients)) ≡ (
        if o == p
        then count p (objects_of s clients) - weak_count s p weak
        else count p (objects_of s clients))
unfolding notify_each
count-notify_each s p o [] clients = ground arith
count-notify_each s p o ((t, x) ∷ weak) clients = ground (
  arith,
  count-notify_each s p o weak (if x == o then untrack t o clients else clients),
  count-untrack s t p o clients,
)

weak_count-drop_weak :
    (s : String) (p o : ℕ) (weak : List (String × ℕ))
    → weak_count s p (drop_weak o weak) ≡ (if o == p then 0 else weak_count s p weak)
unfolding drop_weak
weak_count-drop_weak s p o [] = ground arith
weak_count-drop_weak s p o ((t, x) ∷ weak) = ground (arith, weak_count-drop_weak s p o weak)

-- Each entry of an object has its own weak reference.
abbrev pub IsTracked : Monitor → Type 0
IsTracked m = (s : String) (p : ℕ) → count p (objects_of s m.clients) ≤ weak_count s p m.weak

IsTracked-add : (s : String) (o : ℕ) (m : Monitor) → IsTracked m → IsTracked (add s o m)
unfolding add
IsTracked-add t o m h s p =
    ground (arith, objects_of-insert s t (o ∷ objects_of t m.clients) m.clients, eq_iff t s, h s p)

IsTracked-remove : (s : String) (o : ℕ) (m : Monitor) → IsTracked m → IsTracked (remove s o m)
unfolding remove
IsTracked-remove t o m h s p = ground (arith, count-untrack s t p o m.clients, h s p)

IsTracked-object_died : (o : ℕ) (m : Monitor) → IsTracked m → IsTracked (object_died o m)
unfolding object_died
IsTracked-object_died o m h s p =
    ground
      (arith, count-notify_each s p o m.weak m.clients, weak_count-drop_weak s p o m.weak, h s p)

IsTracked-unref : (o : ℕ) (m : Monitor) → IsTracked m → IsTracked (unref o m)
unfolding unref
IsTracked-unref o m h =
    let less : Monitor = record m {
      ref_count = λ p. if p == o then m.ref_count p - 1 else m.ref_count p;
      unrefs = m.unrefs ++ o ∷ [];
    } in
    elim (Bool-cases (m.ref_count o == 1)) [
      | inl last ↦ rw last (IsTracked-object_died o less h)
      | inr more ↦ rw more h
    ]

IsTracked-unref_each : (l : List ℕ) (m : Monitor) → IsTracked m → IsTracked (unref_each l m)
unfolding unref_each
IsTracked-unref_each [] m h = h
IsTracked-unref_each (o ∷ l) m h = IsTracked-unref_each l (unref o m) (IsTracked-unref o m h)

pub objects_of-forget :
    (s t : String) (clients : Dict (List ℕ))
    → objects_of s (forget t clients) ≡ (if str_eq t s then [] else objects_of s clients)
unfolding objects_of
objects_of-forget s t clients = ground (arith, lookup-remove t s clients)

IsTracked-name_owner_changed :
    (name prev_owner new_owner : String) (m : Monitor)
    → IsTracked m
    → IsTracked (name_owner_changed name prev_owner new_owner m)
unfolding name_owner_changed
IsTracked-name_owner_changed name prev_owner new_owner m h =
    let left : Monitor = record m { clients = forget prev_owner m.clients } in
    elim (Bool-cases (str_eq new_owner "" && str_eq name prev_owner)) [
      | inl leaves ↦
          rw (leaves, name_owner_changed)
            (IsTracked-unref_each (objects_of prev_owner m.clients) left
              (λ s p. ground (arith, h s p, objects_of-forget s prev_owner m.clients)))
      | inr other ↦ rw (other, name_owner_changed) h
    ]

-- What reaches a monitor.
pub data Event : Type 0 where
  adds removes : String → ℕ → Event
  dies : ℕ → Event
  owner_changes : String → String → String → Event

unfoldable pub step : Event → Monitor → Monitor
step (adds s o) m = add s o m
step (removes s o) m = remove s o m
step (dies o) m = object_died o m
step (owner_changes name prev_owner new_owner) m = name_owner_changed name prev_owner new_owner m

unfoldable pub run : List Event → Monitor → Monitor
run [] m = m
run (e ∷ es) m = run es (step e m)

IsTracked-step : (e : Event) (m : Monitor) → IsTracked m → IsTracked (step e m)
unfolding step
IsTracked-step (adds s o) m h = IsTracked-add s o m h
IsTracked-step (removes s o) m h = IsTracked-remove s o m h
IsTracked-step (dies o) m h = IsTracked-object_died o m h
IsTracked-step (owner_changes name prev_owner new_owner) m h =
    IsTracked-name_owner_changed name prev_owner new_owner m h

run-IsTracked : (es : List Event) (m : Monitor) → IsTracked m → IsTracked (run es m)
unfolding run
run-IsTracked [] m h = h
run-IsTracked (e ∷ es) m h = run-IsTracked es (step e m) (IsTracked-step e m h)

init-IsTracked : (ref_count : ℕ → ℕ) → IsTracked (init ref_count)
unfolding init objects_of lookup
init-IsTracked ref_count s p = omega arith

-- Whatever has reached a new monitor, when an object dies no client's list has it any more: the
-- monitor keeps no pointer to a dead object.
pub no_dead_object :
    (es : List Event) (ref_count : ℕ → ℕ) (o : ℕ) (s : String)
    → count o (objects_of s (object_died o (run es (init ref_count))).clients) ≡ 0
unfolding object_died
no_dead_object es ref_count o s =
    let m = run es (init ref_count) in
    ground (
      arith,
      count-notify_each s o o m.weak m.clients,
      run-IsTracked es (init ref_count) (init-IsTracked ref_count) s o,
    )
