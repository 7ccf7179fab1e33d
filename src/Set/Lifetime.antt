-- ===== src/Set/Lifetime.antt =====
-- The reference count of a set (sw_set_ref and sw_set_unref of libsocialweb/sw-set.c).
use libsocialweb_flickr_oaut.Prelude.{
  ℕ, zero, suc, ◌+◌, ◌-◌, ◌^◌, ◌<◌, ◌≡◌, Option, none, some, arith,
}
use libsocialweb_flickr_oaut.Set.{SwSet, set_ref, set_unref}

module _ {ℓ} {A : Type ℓ} where
  -- `n` calls of `sw_set_unref` by the holders of references.
  unfoldable pub unref_times : ℕ → SwSet A → Option (SwSet A)
  unfolding set_unref
  unref_times zero s = some s
  unref_times (suc n) s = elim (set_unref s) [ none ↦ none | some t ↦ unref_times n t ]

  -- While fewer references are given back than the count shows, the set stays and only its count
  -- falls, by one for each.
  pub unref_times_keeps :
      (n : ℕ) (s : SwSet A)
      → n < s.ref_count
      → s.ref_count < 2 ^ 31
      → unref_times n s ≡ some (record s { ref_count = s.ref_count - n })
  unfolding unref_times
  unref_times_keeps zero s h b = ground arith
  unref_times_keeps (suc n) s h b =
      ground (arith, unref_times_keeps n (record s { ref_count = s.ref_count - 1 }))

  pub unref_times_frees :
      (n : ℕ) (s : SwSet A)
      → s.ref_count ≡ suc n
      → s.ref_count < 2 ^ 31
      → unref_times (suc n) s ≡ none
  unfolding unref_times
  unref_times_frees zero s h b = ground arith
  unref_times_frees (suc n) s h b =
      ground (arith, unref_times_frees n (record s { ref_count = s.ref_count - 1 }))

  -- `n` calls of `sw_set_ref`
  unfoldable pub ref_times : ℕ → SwSet A → Option (SwSet A)
  unfolding set_ref
  ref_times zero s = some s
  ref_times (suc n) s = elim (set_ref s) [ none ↦ none | some t ↦ ref_times n t ]

  pub ref_times_lem :
      (n : ℕ) (s : SwSet A)
      → 0 < s.ref_count
      → s.ref_count + n < 2 ^ 31
      → ref_times n s ≡ some (record s { ref_count = s.ref_count + n })
  unfolding ref_times
  ref_times_lem zero s h b = ground arith
  ref_times_lem (suc n) s h b =
      ground (arith, ref_times_lem n (record s { ref_count = s.ref_count + 1 }))

-- While the count fits a positive 32-bit integer, references pair off: after k more references are
-- taken a set that had m lives through any fewer than m + k releases, with its keys as they were,
-- and the (m + k)-th frees it.
pub set_lifetime {ℓ} :
    {A : Type ℓ} (k m n : ℕ) (s : SwSet A)
    → s.ref_count ≡ suc m
    → suc m + k < 2 ^ 31
    → n < suc m + k
    → (t : SwSet A) × (ref_times k s ≡ some t)
      × (unref_times n t ≡ some (record s { ref_count = suc m + k - n }))
      × (unref_times (suc (m + k)) t ≡ none)
set_lifetime k m n s h b l =
    let t : SwSet _ = record s { ref_count = s.ref_count + k } in
    (
      t,
      ref_times_lem k s (omega arith) (omega arith),
      ground (arith, unref_times_keeps n t),
      unref_times_frees (m + k) t (omega arith) (omega arith),
    )
