-- ===== src/Online/Settled.antt =====
-- What the listeners were last told (libsocialweb/sw-online.c).
use libsocialweb_flickr_oaut.Prelude.{
  String, Option, str_eq, ltb, ◌&&◌, if◌then◌else◌, [], ◌||◌, arith, ◌∷◌, ◌≡◌, not, List, Bool,
  true, false, refl, none, some,
}
use libsocialweb_flickr_oaut.Online.{
  connman_run, asked_online, connman_init, connman_adds, connman_is_online, connman_says,
  connman_state, connman_removes, connman_step, ConnmanOnline, ConnmanEvent, NmState,
  online_add_notify, nm_run, nm_step, we_are_online, nm_state, adds, removes, is_connected, NmEvent,
  NmOnline, same_listener, state_changed, online_remove_notify, emit_notify, ListenerData, timeout,
}

unfoldable pub listening : ListenerData → List ListenerData → Bool
listening l [] = false
listening l (k ∷ listeners) = same_listener k l || listening l listeners

abbrev pub same_answer : Bool → Bool → Bool
same_answer true b = b
same_answer false b = not b

-- The last that the listener was told is this.
unfoldable pub last_told : ListenerData → Bool → List (ListenerData × Bool) → Bool
last_told l online [] = false
last_told l online ((k, answer) ∷ told) =
    if same_listener k l then same_answer answer online else last_told l online told

abbrev pub spares : ListenerData → NmEvent → Bool
spares l (removes k) = not (same_listener k l)
spares l (adds k) = true
spares l timeout = true
spares l (nm_state s) = true

-- No event removes the listener.
unfoldable pub spare : ListenerData → List NmEvent → Bool
spare l [] = true
spare l (e ∷ es) = spares l e && spare l es

same_answer_refl : (b : Bool) → same_answer b b ≡ true
same_answer_refl b = ground arith

last_told-emit_notify :
    (l : ListenerData) (b : Bool) (ls : List ListenerData) (told : List (ListenerData × Bool))
    → (listening l ls || last_told l b told) ≡ true
    → last_told l b (emit_notify b ls told) ≡ true
unfolding listening last_told emit_notify
last_told-emit_notify l b [] told h = h
last_told-emit_notify l b (k ∷ ls) told h =
    last_told-emit_notify l b ls ((k, b) ∷ told) (ground (arith, h, same_answer_refl b))

listening-online_remove_notify :
    (l k : ListenerData) (ls : List ListenerData)
    → same_listener k l ≡ false
    → listening l ls ≡ true
    → listening l (online_remove_notify k ls) ≡ true
unfolding listening online_remove_notify same_listener
listening-online_remove_notify l k [] other h = h
listening-online_remove_notify l k (j ∷ ls) other h =
    ground (arith, other, h, listening-online_remove_notify l k ls other)

-- The listener was last told what holds, or a timeout is still to tell it that the computer is online.
abbrev agrees : ListenerData → NmOnline → Bool
agrees l o = last_told l (is_connected o.state) o.told || (is_connected o.state && ltb 0 o.timeouts)

-- Some client is connected, and the listener is on the list.
abbrev follows : ListenerData → NmOnline → Bool
follows l o = o.client && listening l o.listeners

agrees-state_changed :
    (l : ListenerData) (o : NmOnline) → follows l o ≡ true → agrees l (state_changed o) ≡ true
unfolding state_changed
agrees-state_changed l o f = ground (arith, f, last_told-emit_notify l false o.listeners o.told)

agrees-we_are_online :
    (l : ListenerData) (o : NmOnline) → follows l o ≡ true → agrees l (we_are_online o) ≡ true
unfolding we_are_online
agrees-we_are_online l o f =
    ground (arith, f, last_told-emit_notify l (is_connected o.state) o.listeners o.told)

follows-nm_step :
    (l : ListenerData) (e : NmEvent) (o : NmOnline)
    → spares l e ≡ true
    → follows l o ≡ true
    → follows l (nm_step e o) ≡ true
unfolding nm_step state_changed we_are_online online_add_notify listening
follows-nm_step l (nm_state s) o spared f = ground (arith, f)
follows-nm_step l timeout o spared f = ground (arith, f)
follows-nm_step l (adds k) o spared f = ground (arith, f)
follows-nm_step l (removes k) o spared f =
    ground (arith, spared, f, listening-online_remove_notify l k o.listeners)

agrees-nm_step :
    (l : ListenerData) (e : NmEvent) (o : NmOnline)
    → follows l o ≡ true
    → agrees l o ≡ true
    → agrees l (nm_step e o) ≡ true
unfolding nm_step
agrees-nm_step l (nm_state s) o f a =
    ground (arith, f, agrees-state_changed l (record o { state = s }))
agrees-nm_step l timeout o f a = ground (arith, f, a, agrees-we_are_online l o)
agrees-nm_step l (adds k) o f a = a
agrees-nm_step l (removes k) o f a = a

agrees-nm_run :
    (l : ListenerData) (es : List NmEvent) (o : NmOnline)
    → spare l es ≡ true
    → follows l o ≡ true
    → agrees l o ≡ true
    → agrees l (nm_run es o) ≡ true
unfolding nm_run spare
agrees-nm_run l [] o spared f a = a
agrees-nm_run l (e ∷ es) o spared f a =
    agrees-nm_run l es (nm_step e o) (ground (arith, spared))
      (follows-nm_step l e o (ground (arith, spared)) f) (agrees-nm_step l e o f a)

-- With NetworkManager, for a listener that is on the list and stays on it: however changes of state,
-- timeouts, and other listeners' coming and going follow a first change, whenever no timeout waits, the
-- last that the listener was told is what `sw_is_online` returns.
pub listener_settled :
    (l : ListenerData) (s : NmState) (es : List NmEvent) (o : NmOnline)
    → o.client ≡ true
    → listening l o.listeners ≡ true
    → spare l es ≡ true
    → (nm_run (nm_state s ∷ es) o).timeouts ≡ 0
    → last_told l
        (is_connected (nm_run (nm_state s ∷ es) o).state)
        (nm_run (nm_state s ∷ es) o).told
      ≡ true
unfolding nm_run nm_step
listener_settled l s es o connected listens spared quiet =
    let f : follows l o ≡ true = ground (arith, connected, listens) in
    let changed = record o { state = s } in
    ground (
      arith,
      quiet,
      agrees-nm_run l es (nm_step (nm_state s) o) spared (follows-nm_step l (nm_state s) o refl f)
          (ground (arith, connected, f, agrees-state_changed l changed)),
    )

-- No event of ConnMan removes the listener.
unfoldable pub connman_spare : ListenerData → List ConnmanEvent → Bool
connman_spare l [] = true
connman_spare l (connman_removes k ∷ es) = not (same_listener k l) && connman_spare l es
connman_spare l (connman_says state ∷ es) = connman_spare l es
connman_spare l (connman_adds bus k ∷ es) = connman_spare l es
connman_spare l (asked_online bus ∷ es) = connman_spare l es

-- The proxy is there, the listener is on the list, and it was last told the state.
record IsTold (l : ListenerData) (o : ConnmanOnline) : Type 0 where
  there : o.proxy ≡ true
  heard : listening l o.connman_listeners ≡ true
  agreed : last_told l o.current_state o.connman_told ≡ true

connman_init_there :
    (bus : Bool) (o : ConnmanOnline) → o.proxy ≡ true → connman_init bus o ≡ (true, o)
unfolding connman_init
connman_init_there bus o there = rw (there, connman_init) refl

word-IsTold :
    (l : ListenerData) (state : String) (o : ConnmanOnline)
    → o.proxy ≡ true
    → listening l o.connman_listeners ≡ true
    → IsTold l (connman_state (some state) o)
unfolding connman_state
word-IsTold l state o there heard = record {
  there = there;
  heard = heard;
  agreed =
      last_told-emit_notify l (str_eq state "online") o.connman_listeners o.connman_told
        (ground (arith, heard));
}

connman_state-IsTold :
    (l : ListenerData) (state : Option String) (o : ConnmanOnline)
    → IsTold l o
    → IsTold l (connman_state state o)
unfolding connman_state
connman_state-IsTold l none o t = t
connman_state-IsTold l (some state) o t = word-IsTold l state o t.there t.heard

if_IsTold :
    (l : ListenerData) (b : Bool) (o p : ConnmanOnline)
    → b ≡ true
    → IsTold l o
    → IsTold l (if b then o else p)
if_IsTold l true o p e t = t
if_IsTold l false o p e t = cc

connman_step-IsTold :
    (l : ListenerData) (e : ConnmanEvent) (o : ConnmanOnline)
    → connman_spare l (e ∷ []) ≡ true
    → IsTold l o
    → IsTold l (connman_step e o)
unfolding connman_step connman_spare connman_is_online online_add_notify listening
connman_step-IsTold l (connman_says state) o spared t =
    if_IsTold l o.proxy (connman_state state o) o t.there (connman_state-IsTold l state o t)
connman_step-IsTold l (connman_adds bus k) o spared t =
    rw (connman_init_there bus o t.there)
      (record { there = t.there; heard = ground (arith, t.heard); agreed = t.agreed })
connman_step-IsTold l (connman_removes k) o spared t = record {
  there = t.there;
  heard = listening-online_remove_notify l k o.connman_listeners (ground (arith, spared)) t.heard;
  agreed = t.agreed;
}
connman_step-IsTold l (asked_online bus) o spared t =
    rw (connman_init_there bus o t.there, connman_step) t

connman_spare-cons :
    (l : ListenerData) (e : ConnmanEvent) (es : List ConnmanEvent)
    → connman_spare l (e ∷ es) ≡ (connman_spare l (e ∷ []) && connman_spare l es)
unfolding connman_spare
connman_spare-cons l e es = ground arith

connman_run-IsTold :
    (l : ListenerData) (es : List ConnmanEvent) (o : ConnmanOnline)
    → connman_spare l es ≡ true
    → IsTold l o
    → IsTold l (connman_run es o)
unfolding connman_run
connman_run-IsTold l [] o spared t = t
connman_run-IsTold l (e ∷ es) o spared t =
    connman_run-IsTold l es (connman_step e o) (ground (arith, spared, connman_spare-cons l e es))
      (connman_step-IsTold l e o (ground (arith, spared, connman_spare-cons l e es)) t)

-- With ConnMan, for a listener that is on the list and stays on it: from ConnMan's next word on, the
-- last that the listener was told is always what `sw_is_online` returns, with or without a system bus.
pub connman_listener_settled :
    (l : ListenerData) (state : String) (es : List ConnmanEvent) (bus : Bool) (o : ConnmanOnline)
    → o.proxy ≡ true
    → listening l o.connman_listeners ≡ true
    → connman_spare l es ≡ true
    → let now = connman_run (connman_says (some state) ∷ es) o in
      last_told l (connman_is_online bus now).0 now.connman_told ≡ true
unfolding connman_run connman_is_online connman_step
connman_listener_settled l state es bus o there heard spared =
    let t = connman_run-IsTold l es (connman_step (connman_says (some state)) o) spared (
      if_IsTold l o.proxy (connman_state (some state) o) o there
        (word-IsTold l state o there heard)) in
    rw (connman_init_there bus (connman_run (connman_says (some state) ∷ es) o) t.there) t.agreed
