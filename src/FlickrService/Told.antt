-- ===== src/FlickrService/Told.antt =====
-- What the clients of the Flickr service were told last (services/flickr/flickr.c).
use libsocialweb_flickr_oaut.FlickrService.{
  emit_user, user_changed, capabilities_changed, get_dynamic_caps, Signal, forget, emit_caps,
  SwServiceFlickr,
}
use libsocialweb_flickr_oaut.Prelude.{
  arith, true, [], ◌||◌, if◌then◌else◌, refl, ◌∷◌, false, String, ◌≡◌, Bool, List,
}

-- The capabilities that were announced last; at first there are none.
unfoldable pub announced : List Signal → List String
announced [] = []
announced (user_changed ∷ signals) = announced signals
announced (capabilities_changed caps ∷ signals) = caps

-- They are those of the service.
abbrev pub IsTold : SwServiceFlickr → Type 0
IsTold s = get_dynamic_caps s ≡ announced s.emitted

pub emit_caps-IsTold : (s : SwServiceFlickr) → IsTold (emit_caps s)
unfolding emit_caps get_dynamic_caps announced
emit_caps-IsTold s = refl

if_IsTold :
    (b : Bool) (s t : SwServiceFlickr)
    → IsTold s
    → (b ≡ false → IsTold t)
    → IsTold (if b then s else t)
if_IsTold true s t h k = h
if_IsTold false s t h k = k refl

pub forget-IsTold : (s : SwServiceFlickr) → (s.configured ≡ false → IsTold s) → IsTold (forget s)
unfolding forget
forget-IsTold s h =
    if_IsTold (s.configured || s.authorised) _ s
      (emit_caps-IsTold (emit_user (record s { configured = false; authorised = false })))
      (λ e. h (ground (arith, e)))
