-- ===== src/Set/Examples.antt =====
-- Sets of numbers, as instances of the theorems on libsocialweb/sw-set.c.
use libsocialweb_flickr_oaut.Set.Algebra.{set_refinement, Denotes}
use libsocialweb_flickr_oaut.Set.{
  set_filter, set_union, set_remove_from, set_add_from, set_remove, set_as_list, contains, set_add,
  set_has, SwSet,
}
use libsocialweb_flickr_oaut.Set.Laws.{IsEquivalence}
use libsocialweb_flickr_oaut.Prelude.{
  not, ◌&&◌, refl, false, ◌≡◌, ltb, ◌||◌, [], ◌%◌, ◌==◌, ◌∷◌, arith, Bool, ℕ,
}

abbrev same : ℕ → ℕ → Bool
same a b = a == b

-- Equal up to the last digit.
abbrev alike : ℕ → ℕ → Bool
alike a b = a % 10 == b % 10

same-IsEquivalence : IsEquivalence same
same-IsEquivalence = record {
  reflexive = λ a. ground arith;
  symmetric = λ a b h. ground arith;
  transitive = λ a b c h k. ground arith;
}

alike-IsEquivalence : IsEquivalence alike
alike-IsEquivalence = record {
  reflexive = λ a. ground arith;
  symmetric = λ a b h. ground arith;
  transitive = λ a b c h k. ground arith;
}

abbrev one_two : SwSet ℕ
one_two = record { ref_count = 1; keys = 1 ∷ 2 ∷ [] }

abbrev twelve : SwSet ℕ
twelve = record { ref_count = 1; keys = 12 ∷ [] }

twelve-Denotes : Denotes alike twelve (λ z. 2 == z % 10 || false)
unfolding set_has contains
twelve-Denotes = record { distinct = (refl, tt); has = λ z. refl }

abbrev two : SwSet ℕ
two = record { ref_count = 1; keys = 2 ∷ [] }

two-Denotes : Denotes alike two (λ z. 2 == z % 10 || false)
unfolding set_has contains
two-Denotes = record { distinct = (refl, tt); has = λ z. refl }

abbrev small : ℕ → Bool
small z = ltb (z % 10) 2

-- The union holds both 12 and 2, which the two sets do not tell apart.
set_refinement_example :
    Denotes alike (set_add alike twelve 3) (λ z. 3 == z % 10 || (2 == z % 10 || false))
    × Denotes alike (set_remove alike twelve 3) (λ z. not (3 == z % 10) && (2 == z % 10 || false))
    × Denotes alike
        (set_add_from alike twelve two)
        (λ z. (2 == z % 10 || false) || (2 == z % 10 || false))
    × Denotes alike
        (set_remove_from alike twelve two)
        (λ z. not (2 == z % 10 || false) && (2 == z % 10 || false))
    × Denotes same (set_union same twelve two) (λ z. (12 == z || false) || (2 == z || false))
    × Denotes alike (set_filter alike twelve small) (λ z. (2 == z % 10 || false) && small z)
unfolding contains
set_refinement_example =
    set_refinement small 3 same-IsEquivalence alike-IsEquivalence (λ a b h. ground arith)
      twelve-Denotes two-Denotes

-- The newer of two equal objects is kept, and the size stays.
add_replaces : set_as_list (set_add alike (set_add alike one_two 12) 23) ≡ 1 ∷ 12 ∷ 23 ∷ []
unfolding set_add set_as_list
add_replaces = refl
