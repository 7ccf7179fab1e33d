-- ===== src/Set/Algebra.antt =====
-- The sets of libsocialweb/sw-set.c refine Boolean predicates: the abstract view forgets the order
-- in which the table walks its keys.
use libsocialweb_flickr_oaut.Prelude.{
  ◌+◌, ◌≡◌, refl, Bool, true, false, ◌&&◌, ◌||◌, not, List, arith, ap,
}
use libsocialweb_flickr_oaut.Set.{
  SwSet, contains, set_new, set_has, set_size, set_add, set_remove, set_add_from, set_remove_from,
  set_union, set_difference, set_filter, set_foreach_remove, add_each,
}
use libsocialweb_flickr_oaut.Set.Laws.{
  IsEquivalence, Respects, IsDistinct, contains-Respects, contains-replace, contains-delete,
  replace-IsDistinct, delete-IsDistinct, contains-add_each, add_each-IsDistinct,
  contains-remove_each, remove_each-IsDistinct, contains-add_unless, add_unless-IsDistinct,
  contains-foreach_remove, length-foreach_remove,
}

-- The set `s` stands for the predicate `p`.
pub record Denotes {ℓ} {A : Type ℓ} (eq : A → A → Bool) (s : SwSet A) (p : A → Bool) : Type ℓ where
  pub distinct : IsDistinct eq s.keys
  pub has : (z : A) → set_has eq s z ≡ p z

module _ {ℓ} {A : Type ℓ} {eq : A → A → Bool} (e : IsEquivalence eq) where
  pub Denotes-set_new : Denotes eq set_new (λ z. false)
  unfolding set_new set_has
  Denotes-set_new = record { distinct = tt; has = λ z. refl }

  module _ {s : SwSet A} {p : A → Bool} (d : Denotes eq s p) where
    pub Denotes-set_add : (x : A) → Denotes eq (set_add eq s x) (λ z. eq x z || p z)
    unfolding set_add set_has
    Denotes-set_add x = record {
      distinct = replace-IsDistinct e s.keys x d.distinct;
      has = λ z. ground (arith, contains-replace e s.keys x z, d.has z);
    }

    pub Denotes-set_remove : (x : A) → Denotes eq (set_remove eq s x) (λ z. not (eq x z) && p z)
    unfolding set_remove set_has
    Denotes-set_remove x = record {
      distinct = delete-IsDistinct e s.keys x d.distinct;
      has = λ z. ground (arith, contains-delete e s.keys x z d.distinct, d.has z);
    }

    pub Denotes-add_each :
        (xs : List A) → Denotes eq (add_each eq s xs) (λ z. contains eq xs z || p z)
    unfolding set_has
    Denotes-add_each xs = record {
      distinct = add_each-IsDistinct e s xs d.distinct;
      has = λ z. ground (arith, contains-add_each e s xs z, d.has z);
    }

    pub Denotes-set_filter :
        (func : A → Bool)
        → Respects eq func
        → Denotes eq (set_filter eq s func) (λ z. p z && func z)
    unfolding set_filter set_has set_new contains
    Denotes-set_filter func r = record {
      distinct = add_unless-IsDistinct e (λ x. not (func x)) set_new s.keys tt;
      has = λ z. ground (
        arith,
        contains-add_unless e (λ x. not (func x)) set_new s.keys z (λ a b h. ap not (r a b h)),
        d.has z,
      );
    }

  module _ {s t : SwSet A} {p q : A → Bool} (d : Denotes eq s p) (f : Denotes eq t q) where
    pub Denotes-set_add_from : Denotes eq (set_add_from eq s t) (λ z. q z || p z)
    unfolding set_add_from set_has
    Denotes-set_add_from = record {
      distinct = add_each-IsDistinct e s t.keys d.distinct;
      has = λ z. ground (arith, contains-add_each e s t.keys z, d.has z, f.has z);
    }

    pub Denotes-set_remove_from : Denotes eq (set_remove_from eq s t) (λ z. not (q z) && p z)
    unfolding set_remove_from set_has
    Denotes-set_remove_from = record {
      distinct = remove_each-IsDistinct e s t.keys d.distinct;
      has = λ z. ground (arith, contains-remove_each e s t.keys z d.distinct, d.has z, f.has z);
    }

-- A new union holds the objects that either set holds, as pointers: where `same` tells two objects apart
-- that the sets' own equality does not, it holds both.
pub Denotes-set_union {ℓ} :
    {A : Type ℓ} {same : A → A → Bool} (s t : SwSet A)
    → IsEquivalence same
    → Denotes same (set_union same s t) (λ z. contains same s.keys z || contains same t.keys z)
unfolding set_union set_has set_new contains
Denotes-set_union {same = same} s t k = record {
  distinct = add_each-IsDistinct k _ t.keys (add_each-IsDistinct k set_new s.keys tt);
  has = λ z. ground (
    arith,
    contains-add_each k (add_each same set_new s.keys) t.keys z,
    contains-add_each k set_new s.keys z,
  );
}

-- From sets that stand for `p` and `q`, each operation gives a set that stands for the predicate
-- which its name promises: insertion, deletion, union in place, difference in place, and the filter by
-- a test that does not tell equal objects apart. A new union, whatever the equality of the two sets,
-- compares pointers, and holds exactly the objects that are in one of them.
pub set_refinement {ℓ} :
    {A : Type ℓ} {same eq : A → A → Bool} {s t : SwSet A} {p q : A → Bool} (func : A → Bool) (x : A)
    → IsEquivalence same
    → IsEquivalence eq
    → Respects eq func
    → Denotes eq s p
    → Denotes eq t q
    → Denotes eq (set_add eq s x) (λ z. eq x z || p z)
      × Denotes eq (set_remove eq s x) (λ z. not (eq x z) && p z)
      × Denotes eq (set_add_from eq s t) (λ z. q z || p z)
      × Denotes eq (set_remove_from eq s t) (λ z. not (q z) && p z)
      × Denotes same (set_union same s t) (λ z. contains same s.keys z || contains same t.keys z)
      × Denotes eq (set_filter eq s func) (λ z. p z && func z)
set_refinement {s = s} {t = t} func x k e r d f = (
  Denotes-set_add e d x,
  Denotes-set_remove e d x,
  Denotes-set_add_from e d f,
  Denotes-set_remove_from e d f,
  Denotes-set_union s t k,
  Denotes-set_filter e d func r,
)

-- The difference of two sets, built over pointer equality `same` as `sw_set_new` does, holds
-- exactly the objects of the first for which the second, by its own equality, has no equal.
pub set_difference_lem {ℓ} :
    {A : Type ℓ} {same eq : A → A → Bool} {s t : SwSet A} {p q : A → Bool}
    → IsEquivalence same
    → IsEquivalence eq
    → ((a b : A) → same a b ≡ true → eq a b ≡ true)
    → Denotes same s p
    → Denotes eq t q
    → Denotes same (set_difference same eq s t) (λ z. p z && not (q z))
unfolding set_difference set_has set_new contains
set_difference_lem {same = same} {eq = eq} {s = s} {t = t} k e finer d f = record {
  distinct = add_unless-IsDistinct k (contains eq t.keys) set_new s.keys tt;
  has = λ z. ground (
    arith,
    contains-add_unless k (contains eq t.keys) set_new s.keys z
        (λ a b h. contains-Respects e t.keys a b (finer a b h)),
    d.has z,
    f.has z,
  );
}

-- `sw_set_foreach_remove` keeps exactly the objects that the test is false of, and returns by how
-- many objects the set has shrunk.
pub set_foreach_remove_lem {ℓ} :
    {A : Type ℓ} {eq : A → A → Bool} {s : SwSet A} {p : A → Bool} (func : A → Bool)
    → Respects eq func
    → IsEquivalence eq
    → Denotes eq s p
    → ((z : A) → set_has eq (set_foreach_remove s func).0 z ≡ p z && not (func z))
      × (set_size (set_foreach_remove s func).0 + (set_foreach_remove s func).1 ≡ set_size s)
unfolding set_foreach_remove set_has set_size
set_foreach_remove_lem {s = s} func r e d = (
  λ z. ground (arith, contains-foreach_remove e func s.keys z r, d.has z),
  length-foreach_remove func s.keys,
)
