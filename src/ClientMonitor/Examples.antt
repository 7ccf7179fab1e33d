-- ===== src/ClientMonitor/Examples.antt =====
-- A client with two views, as an instance of the theorems on libsocialweb/sw-client-monitor.c.
use libsocialweb_flickr_oaut.ClientMonitor.{init, object_died, objects_of, Monitor}
use libsocialweb_flickr_oaut.ClientMonitor.Tracking.{
  no_dead_object, removes, run, adds, Event, count,
}
use libsocialweb_flickr_oaut.Prelude.{List, ℕ, ◌≡◌, [], ◌∷◌}

-- Each view has one reference.
abbrev one_reference : ℕ → ℕ
one_reference o = 1

-- The first view is closed, and removed, while the client still has the second.
abbrev session : List Event
session = adds ":1.7" 4 ∷ adds ":1.7" 5 ∷ adds ":1.9" 4 ∷ removes ":1.7" 4 ∷ []

no_dead_object_example :
    count 4 (objects_of ":1.9" (object_died 4 (run session (init one_reference))).clients) ≡ 0
no_dead_object_example = no_dead_object session one_reference 4 ":1.9"

abbrev two_views : Monitor
two_views = record {
  clients = (":1.7", 5 ∷ 4 ∷ []) ∷ [];
  weak = (":1.7", 5) ∷ (":1.7", 4) ∷ [];
  ref_count = one_reference;
  unrefs = [];
}
