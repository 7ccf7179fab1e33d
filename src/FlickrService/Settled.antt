-- ===== src/FlickrService/Settled.antt =====
-- What the clients were told last of the capabilities of the Flickr service, and what they are
-- (services/flickr/flickr.c).
use libsocialweb_flickr_oaut.FlickrService.Told.{emit_caps-IsTold, forget-IsTold, announced, IsTold}
use libsocialweb_flickr_oaut.Flickr.{Answer}
use libsocialweb_flickr_oaut.FlickrService.{
  forget, view_loads, notified, arrived, updated, initialised, Event, initable_init, service_init,
  run, step, call_back, resume, online_notify, credentials_updated, check_tokens, emit_user,
  ask_load, load_answered, on_credentials_available, configure, check_answered, emit_caps,
  get_dynamic_caps, ask_check, on_credentials_checked, World,
}
use libsocialweb_flickr_oaut.Prelude.{
  ◌==◌, ◌&&◌, if◌then◌else◌, refl, some, Bool-cases, inr, none, inl, ℕ, Option, false, ◌+◌, [], ◌<◌,
  arith, true, ◌∷◌, Bool, ◌≡◌, ◌⊎◌, List,
}
use libsocialweb_flickr_oaut.Credentials.{answer_for, one_of, at_once, Credentials, IsAnswering}

module _ {M I : Type 0} (c : Credentials M I) where
  -- What the clients were told last is so, or the service has tokens and waits: for the answer to a
  -- request of its own, or to be online.
  abbrev pub IsSettled : World M → Type 0
  IsSettled w =
      IsTold w.service
      ⊎ ((w.service.configured ≡ true)
          × ((0 < c.held 0 w.credentials + c.held 1 w.credentials) ⊎ (w.online ≡ false)))

  -- What is left of that where the callback is called.
  abbrev MayTell : World M → Type 0
  MayTell w = IsTold w.service ⊎ (w.service.configured ≡ true)

  checked-IsTold : (ok : Bool) (w : World M) → IsTold (on_credentials_checked c ok w).service
  unfolding on_credentials_checked emit_caps get_dynamic_caps announced
  checked-IsTold ok w = ground arith

  check_answered-IsSettled :
      (answer : Option Bool) (w : World M)
      → (answer ≡ none → IsSettled w)
      → IsSettled (check_answered c answer w)
  unfolding check_answered
  check_answered-IsSettled none w h = h refl
  check_answered-IsSettled (some ok) w h = inl (checked-IsTold ok w)

  -- What a callback for credentials leaves where it does not go on to check them
  configure-IsTold :
      (available : Bool) (w : World M)
      → MayTell w
      → (configure c available w).configured ≡ false
      → IsTold (configure c available w)
  unfolding configure emit_caps emit_user get_dynamic_caps announced
  configure-IsTold available w (inl told) n = ground arith
  configure-IsTold available w (inr h) n = ground arith

  unconfigured-IsTold : (w : World M) → MayTell w → w.service.configured ≡ false → IsTold w.service
  unconfigured-IsTold w (inl told) e = told
  unconfigured-IsTold w (inr has) e = cc

  if_IsSettled :
      (b : Bool) (x y : World M)
      → (b ≡ true → IsSettled x)
      → (b ≡ false → IsSettled y)
      → IsSettled (if b then x else y)
  if_IsSettled true x y h k = h refl
  if_IsSettled false x y h k = k refl

  -- A service that is told, or has tokens and is offline
  idle :
      (w : World M)
      → (w.service.configured ≡ false → IsTold w.service)
      → (w.service.configured && w.online) ≡ false
      → IsSettled w
  idle w h e = elim (Bool-cases w.service.configured) [
    | inl has ↦ inr (has, inr (ground (arith, e, has)))
    | inr lost ↦ inl (h lost)
  ]

  -- No change of what the service waits for
  kept :
      (w : World M) (m : M)
      → IsSettled w
      → c.held 0 m ≡ c.held 0 w.credentials
      → c.held 1 m ≡ c.held 1 w.credentials
      → IsSettled (record w { credentials = m })
  kept w m (inl told) e f = inl told
  kept w m (inr (has, inl waiting)) e f = inr (has, inl (omega (arith, waiting, e, f)))
  kept w m (inr (has, inr offline)) e f = inr (has, inr offline)

  other_user :
      (user u : ℕ) (answer : Option Bool) (after before : ℕ)
      → (u == user) ≡ false
      → after + at_once user u answer ≡ before + one_of user u
      → after ≡ before
  other_user user u none after before n e = ground (arith, n, e)
  other_user user u (some ok) after before n e = ground (arith, n, e)

  -- A request that is not answered on the spot waits.
  waits :
      (h t : ℕ) (answer : Option Bool) (u : ℕ)
      → h + at_once u u answer ≡ t + one_of u u
      → answer ≡ none
      → 0 < h
  waits h t none u e n = ground arith
  waits h t (some ok) u e n = cc

  module _ (laws : IsAnswering c) where
    still :
        (w v : World M)
        → v.service ≡ w.service
        → MayTell w
        → 0 < c.held 0 v.credentials + c.held 1 v.credentials
        → IsSettled v
    still w v e (inl told) h = inl (rw e told)
    still w v e (inr configured) h = inr (rw e configured, inl h)

    ask_check-IsSettled : (i : I) (w : World M) → MayTell w → IsSettled (ask_check c i w)
    unfolding ask_check
    ask_check-IsSettled i w h = check_answered-IsSettled (c.check 1 i w.credentials).1 _ (λ e.
        still w _ refl h (omega (arith, waits _ _ _ 1 (laws.held-check 1 1 i w.credentials) e)))

    check_tokens-IsSettled :
        (i : I) (w : World M)
        → (w.service.configured ≡ false → IsTold w.service)
        → IsSettled (check_tokens c i w)
    unfolding check_tokens
    check_tokens-IsSettled i w h =
        if_IsSettled (w.service.configured && w.online) (ask_check c i w) w
          (λ e. ask_check-IsSettled i w (inr (ground (arith, e)))) (idle w h)

    available-IsSettled :
        (i : I) (available : Bool) (w : World M)
        → MayTell w
        → IsSettled (on_credentials_available c i available w)
    unfolding on_credentials_available
    available-IsSettled i available w h =
        check_tokens-IsSettled i (record w { service = configure c available w })
          (configure-IsTold available w h)

    load_answered-IsSettled :
        (j : I) (answer : Option Bool) (w : World M)
        → MayTell w
        → (answer ≡ none → IsSettled w)
        → IsSettled (load_answered c j answer w)
    unfolding load_answered
    load_answered-IsSettled j none w m h = h refl
    load_answered-IsSettled j (some ok) w m h = available-IsSettled j ok w m

    ask_load-IsSettled : (i j : I) (w : World M) → MayTell w → IsSettled (ask_load c i j w)
    unfolding ask_load
    ask_load-IsSettled i j w h = load_answered-IsSettled j (c.load 0 i w.credentials).1 _ h (λ e.
        still w _ refl h (omega (arith, waits _ _ _ 0 (laws.held-load 0 0 i w.credentials) e)))

    updated-IsSettled :
        (i j : I) (w : World M) → MayTell w → IsSettled (credentials_updated c i j w)
    unfolding credentials_updated
    updated-IsSettled i j w h =
        ask_load-IsSettled i j (record w { service = forget w.service })
          (inl (forget-IsTold w.service (unconfigured-IsTold w h)))

    notified-IsSettled :
        (i j : I) (online : Bool) (w : World M)
        → MayTell w
        → IsSettled (online_notify c i j online w)
    unfolding online_notify
    notified-IsSettled i j true w h =
        if_IsSettled w.service.configured _ _
          (λ e. ask_load-IsSettled i j (record w { online = true }) h)
          (λ e. ask_check-IsSettled i (record w { online = true }) h)
    notified-IsSettled i j false w h =
        inl (emit_caps-IsTold (record w.service { authorised = false }))

    call_back-IsSettled :
        (j : I) (answer : Option Answer) (w : World M)
        → MayTell w
        → (answer_for 0 answer ≡ 0 → answer_for 1 answer ≡ 0 → IsSettled w)
        → IsSettled (call_back c j answer w)
    unfolding call_back
    call_back-IsSettled j none w m h = h refl refl
    call_back-IsSettled j (some a) w m h =
        if_IsSettled (a.user == 0) _ _ (λ e. available-IsSettled j a.ok w m)
          (λ e.
            if_IsSettled (a.user == 1) _ w (λ f. inl (checked-IsTold a.ok w))
              (λ f. h (ground (arith, e)) (ground (arith, f))))

    may_tell : (w : World M) → IsSettled w → MayTell w
    may_tell w (inl told) = inl told
    may_tell w (inr (has, waiting)) = inr has

    arrived-IsSettled : (i j : I) (w : World M) → IsSettled w → IsSettled (resume c i j w)
    unfolding resume
    arrived-IsSettled i j w h =
        call_back-IsSettled j (c.resume i w.credentials).1 _ (may_tell w h) (λ e f.
          kept w _ h (omega (arith, laws.held-resume 0 i w.credentials, e))
            (omega (arith, laws.held-resume 1 i w.credentials, f)))

    -- A request of a view is not one of the service's.
    view_loads-IsSettled :
        (view : ℕ) (i : I) (w : World M)
        → IsSettled w
        → IsSettled (record w { credentials = (c.load (2 + view) i w.credentials).0 })
    view_loads-IsSettled view i w h =
        kept w _ h
          (other_user 0 (2 + view) (c.load (2 + view) i w.credentials).1 _ _ (ground arith)
            (laws.held-load 0 (2 + view) i w.credentials))
          (other_user 1 (2 + view) (c.load (2 + view) i w.credentials).1 _ _ (ground arith)
            (laws.held-load 1 (2 + view) i w.credentials))

    step-IsSettled : (e : Event I) (w : World M) → IsSettled w → IsSettled (step c e w)
    unfolding step initable_init
    step-IsSettled (initialised i j) w h =
        if_IsSettled w.service.inited w _ (λ e. h)
          (λ e.
            updated-IsSettled i j (record w { service = record w.service { inited = true } })
              (may_tell w h))
    step-IsSettled (updated i j) w h = updated-IsSettled i j w (may_tell w h)
    step-IsSettled (arrived i j) w h = arrived-IsSettled i j w h
    step-IsSettled (notified i j online) w h = notified-IsSettled i j online w (may_tell w h)
    step-IsSettled (view_loads view i) w h = view_loads-IsSettled view i w h

    run-IsSettled : (es : List (Event I)) (w : World M) → IsSettled w → IsSettled (run c es w)
    unfolding run
    run-IsSettled [] w h = h
    run-IsSettled (e ∷ es) w h = run-IsSettled es (step c e w) (step-IsSettled e w h)

    -- From a new service, whatever steps follow, if the object that gets its credentials answers every
    -- request once: the capabilities that were announced last are those of the service, or it has
    -- tokens, and a load or a check of its own waits for an answer, or it is offline.
    pub capabilities_told :
        (es : List (Event I)) (m : M) (online : Bool)
        → IsSettled (run c es (record { service = service_init; credentials = m; online = online }))
    unfolding service_init get_dynamic_caps announced
    capabilities_told es m online = run-IsSettled es _ (inl refl)
