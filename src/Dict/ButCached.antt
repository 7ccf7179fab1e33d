-- ===== src/Dict/ButCached.antt =====
-- Two tables compared at every key but "cached", as `sw_item_equal` and `sw_contact_equal` compare
-- them.
use libsocialweb_flickr_oaut.Dict.Agree.{length_of_Includes, lookup_of_Includes, length_of_lookup}
use libsocialweb_flickr_oaut.Prelude.{◌≤◌, arith, some, false, ◌≡◌, length, str_eq, String}
use libsocialweb_flickr_oaut.Dict.{lookup-remove, remove-IsTable, remove, lookup, IsTable, Dict}

module _ {ℓ} {V : Type ℓ} where
  abbrev pub AgreesButCached : Dict V → Dict V → Type ℓ
  AgreesButCached a b = (j : String) → str_eq "cached" j ≡ false → lookup j a ≡ lookup j b

  -- Each entry of `a` but that of "cached" is one of `b`.
  abbrev pub Carries : Dict V → Dict V → Type ℓ
  Carries a b =
      (k : String) (v : V) → lookup k a ≡ some v → str_eq "cached" k ≡ false → lookup k b ≡ some v

  pub length-AgreesButCached :
      (a b : Dict V)
      → IsTable a
      → IsTable b
      → AgreesButCached a b
      → length (remove "cached" a) ≡ length (remove "cached" b)
  length-AgreesButCached a b ta tb g =
      length_of_lookup (remove "cached" a) (remove "cached" b) (remove-IsTable "cached" a ta)
        (remove-IsTable "cached" b tb)
        (λ j. ground (arith, g j, lookup-remove "cached" j a, lookup-remove "cached" j b))

  -- Pigeonhole: what one table carries into another of the same size is all that the other has.
  pub Carries-AgreesButCached :
      (a b : Dict V)
      → IsTable a
      → IsTable b
      → length (remove "cached" a) ≡ length (remove "cached" b)
      → Carries a b
      → AgreesButCached a b
  Carries-AgreesButCached a b ta tb s c j n = ground (
    arith,
    lookup-remove "cached" j a,
    lookup-remove "cached" j b,
    lookup_of_Includes (remove "cached" a) (remove "cached" b) (remove-IsTable "cached" a ta)
        (remove-IsTable "cached" b tb) s
        (λ k v e. ground (arith, e, lookup-remove "cached" k a, lookup-remove "cached" k b, c k v))
        j,
  )

  pub length_of_Carries :
      (a b : Dict V)
      → IsTable a
      → IsTable b
      → Carries a b
      → length (remove "cached" a) ≤ length (remove "cached" b)
  length_of_Carries a b ta tb c =
      length_of_Includes (remove "cached" a) (remove "cached" b) (remove-IsTable "cached" a ta)
        (remove-IsTable "cached" b tb)
        (λ k v e. ground (arith, e, lookup-remove "cached" k a, lookup-remove "cached" k b, c k v))
