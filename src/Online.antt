-- ===== src/Online.antt =====
-- libsocialweb/sw-online.c: whether the computer is online, as NetworkManager or ConnMan say, and the
-- listeners that are told. NetworkManager's client and ConnMan's proxy are states that events change;
-- a listener's callback leaves the list of listeners as it is.
pub mod Settled
mod Examples
use libsocialweb_flickr_oaut.Prelude.{
  none, str_eq, some, false, [], ◌&&◌, String, ltb, ◌+◌, true, ◌∷◌, ◌==◌, Option, ◌-◌,
  if◌then◌else◌, List, Bool, ℕ,
}

-- `ListenerData`: the callback and its data, as pointers
pub record ListenerData : Type 0 where
  pub callback : ℕ
  pub user_data : ℕ

unfoldable pub same_listener : ListenerData → ListenerData → Bool
same_listener k l = (k.callback == l.callback) && (k.user_data == l.user_data)

-- `sw_online_add_notify`, with what `online_init` returns
unfoldable pub online_add_notify : Bool → ListenerData → List ListenerData → List ListenerData
online_add_notify initialised l listeners = if initialised then l ∷ listeners else listeners

-- `sw_online_remove_notify`
unfoldable pub online_remove_notify : ListenerData → List ListenerData → List ListenerData
unfolding same_listener
online_remove_notify l [] = []
online_remove_notify l (k ∷ listeners) =
    let rest = online_remove_notify l listeners in if same_listener k l then rest else k ∷ rest

-- `emit_notify`, with what was told before, the newest first
unfoldable pub emit_notify :
    Bool → List ListenerData → List (ListenerData × Bool) → List (ListenerData × Bool)
emit_notify online [] told = told
emit_notify online (l ∷ listeners) told = emit_notify online listeners ((l, online) ∷ told)

-- `NMState`, from version 0.8.992 on
pub data NmState : Type 0 where
  unknown asleep disconnected disconnecting connecting connected_local connected_site
        connected_global :
      NmState

-- The switch of `sw_is_online`
unfoldable pub is_connected : NmState → Bool
is_connected connected_local = true
is_connected connected_site = true
is_connected connected_global = true
is_connected unknown = false
is_connected asleep = false
is_connected disconnected = false
is_connected disconnecting = false
is_connected connecting = false

-- With NetworkManager: whether `client` is there, its state, the timeouts of `we_are_online` that wait,
-- the listeners and what they were told.
pub record NmOnline : Type 0 where
  pub client : Bool
  pub state : NmState
  pub timeouts : ℕ
  pub listeners : List ListenerData
  pub told : List (ListenerData × Bool)

-- `state_changed`
unfoldable pub state_changed : NmOnline → NmOnline
unfolding is_connected emit_notify
state_changed o =
    if is_connected o.state
    then record o { timeouts = o.timeouts + 1 }
    else record o { told = emit_notify false o.listeners o.told }

-- `we_are_online`, which returns FALSE, so that its timeout is gone
unfoldable pub we_are_online : NmOnline → NmOnline
unfolding is_connected emit_notify
we_are_online o = record o {
  timeouts = o.timeouts - 1;
  told = emit_notify (is_connected o.state) o.listeners o.told;
}

pub data NmEvent : Type 0 where
  nm_state : NmState → NmEvent
  timeout : NmEvent
  adds removes : ListenerData → NmEvent

-- A timeout comes only where one waits; the signal, only where a client is connected to it.
unfoldable pub nm_step : NmEvent → NmOnline → NmOnline
unfolding state_changed we_are_online online_add_notify online_remove_notify
nm_step (nm_state s) o =
    let now = record o { state = s } in if o.client then state_changed now else now
nm_step timeout o = if ltb 0 o.timeouts then we_are_online o else o
nm_step (adds l) o = record o { client = true; listeners = online_add_notify true l o.listeners }
nm_step (removes l) o = record o { listeners = online_remove_notify l o.listeners }

unfoldable pub nm_run : List NmEvent → NmOnline → NmOnline
unfolding nm_step
nm_run [] o = o
nm_run (e ∷ es) o = nm_run es (nm_step e o)

-- With ConnMan: whether `proxy` is there, `current_state`, the listeners and what they were told.
pub record ConnmanOnline : Type 0 where
  pub proxy : Bool
  pub current_state : Bool
  pub connman_listeners : List ListenerData
  pub connman_told : List (ListenerData × Bool)

-- `online_init`, given whether there is a system bus, with what it returns
unfoldable pub connman_init : Bool → ConnmanOnline → Bool × ConnmanOnline
connman_init bus o =
    if o.proxy
    then (true, o)
    else (if bus then (true, record o { proxy = true; current_state = false }) else (false, o))

-- `sw_is_online`
unfoldable pub connman_is_online : Bool → ConnmanOnline → Bool × ConnmanOnline
unfolding connman_init
connman_is_online bus o =
    let (initialised, now) = connman_init bus o in
    (if initialised then now.current_state else true, now)

-- `state_changed` and, with none for an error, `got_state_cb`
unfoldable pub connman_state : Option String → ConnmanOnline → ConnmanOnline
unfolding emit_notify
connman_state none o = o
connman_state (some state) o =
    let online = str_eq state "online" in
    record o {
      current_state = online;
      connman_told = emit_notify online o.connman_listeners o.connman_told;
    }

pub data ConnmanEvent : Type 0 where
  connman_says : Option String → ConnmanEvent
  -- with whether there is a system bus
  connman_adds : Bool → ListenerData → ConnmanEvent
  connman_removes : ListenerData → ConnmanEvent
  asked_online : Bool → ConnmanEvent

-- ConnMan says something only where a proxy is connected to it.
unfoldable pub connman_step : ConnmanEvent → ConnmanOnline → ConnmanOnline
unfolding connman_state connman_init connman_is_online online_add_notify online_remove_notify
connman_step (connman_says state) o = if o.proxy then connman_state state o else o
connman_step (connman_adds bus l) o =
    let (initialised, now) = connman_init bus o in
    record now { connman_listeners = online_add_notify initialised l now.connman_listeners }
connman_step (connman_removes l) o = record o {
  connman_listeners = online_remove_notify l o.connman_listeners;
}
connman_step (asked_online bus) o = (connman_is_online bus o).1

unfoldable pub connman_run : List ConnmanEvent → ConnmanOnline → ConnmanOnline
unfolding connman_step
connman_run [] o = o
connman_run (e ∷ es) o = connman_run es (connman_step e o)
