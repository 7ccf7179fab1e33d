-- ===== src/ClientMonitor/Leaving.antt =====
-- A client that leaves the bus (libsocialweb/sw-client-monitor.c).
use libsocialweb_flickr_oaut.ClientMonitor.Tracking.{objects_of-forget}
use mathlib.Core.List.{append_assoc, append-nil}
use libsocialweb_flickr_oaut.Dict.{lookup-insert, Dict}
use libsocialweb_flickr_oaut.ClientMonitor.{
  forget, Monitor, remove_one, object_died, objects_of, name_owner_changed, unref_each, unref,
  notify_each, untrack,
}
use libsocialweb_flickr_oaut.Prelude.{
  eq_refl, inr, inl, Bool-cases, ◌==◌, eq_iff, if◌then◌else◌, ◌++◌, List, ℕ, String, ◌≡◌, refl, [],
  ◌∷◌, arith, ◌∙◌, ap, sym,
}

untrack_empty :
    (s t : String) (o : ℕ) (clients : Dict (List ℕ))
    → objects_of s clients ≡ []
    → objects_of s (untrack t o clients) ≡ []
unfolding untrack objects_of remove_one
untrack_empty s t o clients h =
    ground (arith, h, eq_iff t s, lookup-insert t s (remove_one o (objects_of t clients)) clients)

notify_each_empty :
    (s : String) (o : ℕ) (weak : List (String × ℕ)) (clients : Dict (List ℕ))
    → objects_of s clients ≡ []
    → objects_of s (notify_each o weak clients) ≡ []
unfolding notify_each
notify_each_empty s o [] clients h = h
notify_each_empty s o ((t, p) ∷ weak) clients h =
    notify_each_empty s o weak (if p == o then untrack t o clients else clients)
      (ground (arith, h, untrack_empty s t o clients))

unref_empty :
    (s : String) (o : ℕ) (m : Monitor)
    → objects_of s m.clients ≡ []
    → (objects_of s (unref o m).clients ≡ []) × ((unref o m).unrefs ≡ m.unrefs ++ o ∷ [])
unfolding unref object_died
unref_empty s o m h = elim (Bool-cases (m.ref_count o == 1)) [
  | inl last ↦ rw last (notify_each_empty s o m.weak m.clients h, refl)
  | inr more ↦ rw more (h, refl)
]

unref_each_empty :
    (s : String) (l : List ℕ) (m : Monitor)
    → objects_of s m.clients ≡ []
    → (objects_of s (unref_each l m).clients ≡ []) × ((unref_each l m).unrefs ≡ m.unrefs ++ l)
unfolding unref_each
unref_each_empty s [] m h = (h, sym (append-nil m.unrefs))
unref_each_empty s (o ∷ l) m h =
    let once = unref_empty s o m h in
    let rest = unref_each_empty s l (unref o m) once.0 in
    (rest.0, rest.1 ∙ ap (λ u. u ++ l) once.1 ∙ append_assoc m.unrefs (o ∷ []) l)

-- When a client leaves the bus, each entry of its list is unreferenced once, in order, and the client
-- has no objects afterwards, whichever of them die with it.
pub client_left :
    (name : String) (m : Monitor)
    → let w = name_owner_changed name name "" m in
      (objects_of name w.clients ≡ []) × (w.unrefs ≡ m.unrefs ++ objects_of name m.clients)
unfolding name_owner_changed
client_left name m =
    let left : Monitor = record m { clients = forget name m.clients } in
    rw (eq_refl name, name_owner_changed)
      (unref_each_empty name (objects_of name m.clients) left
        (ground (arith, objects_of-forget name name m.clients, eq_refl name)))
