-- ===== src/Online/Examples.antt =====
-- A listener of the online state, as instances of the theorems on libsocialweb/sw-online.c.
use libsocialweb_flickr_oaut.Online.Settled.{listener_settled, last_told, spare, listening}
use libsocialweb_flickr_oaut.Prelude.{◌≡◌, [], ◌∷◌, List, true, refl}
use libsocialweb_flickr_oaut.Online.{
  connected_global, same_listener, connected_local, removes, is_connected, disconnected,
  we_are_online, nm_state, state_changed, adds, nm_step, NmEvent, asleep, nm_run, NmOnline,
  ListenerData, timeout,
}

abbrev banner : ListenerData
banner = record { callback = 1; user_data = 10 }

abbrev other : ListenerData
other = record { callback = 1; user_data = 11 }

abbrev asleep_nm : NmOnline
asleep_nm = record {
  client = true;
  state = asleep;
  timeouts = 0;
  listeners = banner ∷ [];
  told = [];
}

-- The network comes, is lost before the timeout, and comes back.
abbrev flicker : List NmEvent
flicker =
    adds other
    ∷ nm_state disconnected
    ∷ timeout
    ∷ removes other
    ∷ nm_state connected_local
    ∷ timeout
    ∷ []

listener_settled_example :
    last_told banner
      (is_connected (nm_run (nm_state connected_global ∷ flicker) asleep_nm).state)
      (nm_run (nm_state connected_global ∷ flicker) asleep_nm).told
    ≡ true
unfolding nm_run nm_step state_changed we_are_online is_connected listening spare same_listener
listener_settled_example =
    listener_settled banner connected_global flicker asleep_nm refl refl refl refl
