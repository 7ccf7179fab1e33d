-- ===== src/ClientMonitor.antt =====
-- libsocialweb/sw-client-monitor.c: which objects (views) each client of the bus uses. Objects are
-- pointers with their reference counts; a weak reference is an entry of `weak`, with the sender that
-- was copied for it. The counts are GLib's, and so is that an object with no reference left dies.
pub mod Tracking
pub mod Leaving
mod Examples
use libsocialweb_flickr_oaut.Prelude.{
  ℕ, String, ◌==◌, ◌-◌, Option, none, some, List, [], ◌∷◌, ◌++◌, str_eq, if◌then◌else◌, Bool, ◌&&◌,
}
use libsocialweb_flickr_oaut.Dict.{Dict, insert, lookup, remove as forget}

pub record Monitor : Type 0 where
  pub clients : Dict (List ℕ)
  pub weak : List (String × ℕ)
  pub ref_count : ℕ → ℕ
  -- the objects of `g_object_unref`, newest last
  pub unrefs : List ℕ

-- A missing client is looked up as NULL, the empty list.
unfoldable pub objects_of : String → Dict (List ℕ) → List ℕ
objects_of sender clients = elim (lookup sender clients) [ none ↦ [] | some objects ↦ objects ]

-- `g_list_remove`
unfoldable pub remove_one : ℕ → List ℕ → List ℕ
remove_one o [] = []
remove_one o (x ∷ xs) = if x == o then xs else x ∷ remove_one o xs

-- `sw_client_monitor_init`
unfoldable pub init : (ℕ → ℕ) → Monitor
init ref_count = record { clients = []; weak = []; ref_count = ref_count; unrefs = [] }

unfoldable pub add : String → ℕ → Monitor → Monitor
add sender o m = record m {
  clients = insert sender (o ∷ objects_of sender m.clients) m.clients;
  weak = (sender, o) ∷ m.weak;
}

unfoldable pub untrack : String → ℕ → Dict (List ℕ) → Dict (List ℕ)
untrack sender o clients = insert sender (remove_one o (objects_of sender clients)) clients

-- `sw_client_monitor_remove`: the weak reference stays.
unfoldable pub remove : String → ℕ → Monitor → Monitor
remove sender o m = record m { clients = untrack sender o m.clients }

-- `_view_weak_notify`, for each weak reference to `o`.
unfoldable pub notify_each : ℕ → List (String × ℕ) → Dict (List ℕ) → Dict (List ℕ)
notify_each o [] clients = clients
notify_each o ((sender, p) ∷ weak) clients =
    notify_each o weak (if p == o then untrack sender o clients else clients)

-- The weak references that are left when `o` is gone.
unfoldable pub drop_weak : ℕ → List (String × ℕ) → List (String × ℕ)
drop_weak o [] = []
drop_weak o ((sender, p) ∷ weak) =
    let rest = drop_weak o weak in if p == o then rest else (sender, p) ∷ rest

-- An object dies.
unfoldable pub object_died : ℕ → Monitor → Monitor
object_died o m = record m { clients = notify_each o m.weak m.clients; weak = drop_weak o m.weak }

-- `g_object_unref`
unfoldable pub unref : ℕ → Monitor → Monitor
unref o m =
    let less : Monitor = record m {
      ref_count = λ p. if p == o then m.ref_count p - 1 else m.ref_count p;
      unrefs = m.unrefs ++ o ∷ [];
    } in
    if m.ref_count o == 1 then object_died o less else less

-- The loop of `name_owner_changed`.
unfoldable pub unref_each : List ℕ → Monitor → Monitor
unref_each [] m = m
unref_each (o ∷ objects) m = unref_each objects (unref o m)

unfoldable pub name_owner_changed : String → String → String → Monitor → Monitor
name_owner_changed name prev_owner new_owner m =
    if str_eq new_owner "" && str_eq name prev_owner
    then unref_each (objects_of prev_owner m.clients)
        (record m { clients = forget prev_owner m.clients })
    else m
