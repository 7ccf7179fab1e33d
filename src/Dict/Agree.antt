-- ===== src/Dict/Agree.antt =====
-- Two tables that agree at every key have the same size, and the other way round.
use libsocialweb_flickr_oaut.Prelude.{
  ◌≤◌, String, ◌≡◌, refl, none, some, [], ◌∷◌, arith, eq_iff, eq_refl, length,
}
use libsocialweb_flickr_oaut.Dict.{
  Dict, IsTable, lookup, remove, lookup-remove, remove-IsTable, length-remove,
}

module _ {ℓ} {V : Type ℓ} where
  abbrev pub Includes : Dict V → Dict V → Type ℓ
  Includes b a = (k : String) (v : V) → lookup k a ≡ some v → lookup k b ≡ some v

  tail-Includes :
      (k : String) (v : V) (a b : Dict V)
      → lookup k a ≡ none
      → Includes b ((k, v) ∷ a)
      → Includes (remove k b) a
  unfolding lookup
  tail-Includes k v a b t inc j w h = ground (arith, inc j w, lookup-remove k j b, eq_iff k j)

  -- Pigeonhole: as many keys, and each with its value in `b`, so `b` has no others.
  pub lookup_of_Includes :
      (a b : Dict V)
      → IsTable a
      → IsTable b
      → length a ≡ length b
      → Includes b a
      → (j : String) → lookup j a ≡ lookup j b
  unfolding lookup
  lookup_of_Includes [] [] ta tb l inc j = refl
  lookup_of_Includes [] (x ∷ b) ta tb l inc j = ground arith
  lookup_of_Includes ((k, v) ∷ a) b ta tb l inc j =
      let here = inc k v (ground (arith, eq_refl k)) in
      ground (
        arith,
        eq_iff k j,
        here,
        length-remove k b {v = v} tb here,
        lookup-remove k j b,
        lookup_of_Includes a (remove k b) ta.1 (remove-IsTable k b tb)
            (ground (arith, length-remove k b {v = v} tb here)) (tail-Includes k v a b ta.0 inc) j,
      )

  pub length_of_Includes :
      (a b : Dict V) → IsTable a → IsTable b → Includes b a → length a ≤ length b
  unfolding lookup
  length_of_Includes [] b ta tb inc = omega arith
  length_of_Includes ((k, v) ∷ a) b ta tb inc =
      let here = inc k v (ground (arith, eq_refl k)) in
      omega (
        arith,
        length-remove k b {v = v} tb here,
        length_of_Includes a (remove k b) ta.1 (remove-IsTable k b tb)
            (tail-Includes k v a b ta.0 inc),
      )

  pub length_of_lookup :
      (a b : Dict V)
      → IsTable a
      → IsTable b
      → ((j : String) → lookup j a ≡ lookup j b)
      → length a ≡ length b
  unfolding lookup
  length_of_lookup [] [] ta tb h = refl
  length_of_lookup [] ((k, v) ∷ b) ta tb h = ground (arith, h k, eq_refl k)
  length_of_lookup ((k, v) ∷ a) b ta tb h = ground (
    arith,
    h k,
    eq_refl k,
    length-remove k b {v = v} tb,
    length_of_lookup a (remove k b) ta.1 (remove-IsTable k b tb)
        (λ j. ground (arith, h j, ta.0, lookup-remove k j b, eq_iff k j)),
  )
