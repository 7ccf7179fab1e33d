-- ===== src/Set/Laws.antt =====
-- What membership and size are after each operation on the keys of a set
-- (libsocialweb/sw-set.c).
use libsocialweb_flickr_oaut.Prelude.{
  suc, ◌+◌, ◌≡◌, refl, Bool, true, false, ◌&&◌, ◌||◌, not, List, [], ◌∷◌, arith, if◌then◌else◌,
  length,
}
use libsocialweb_flickr_oaut.Set.{
  SwSet, contains, replace, delete, set_add, set_remove, add_each, remove_each, add_unless,
  foreach_remove,
}

-- What GLib asks of a `GEqualFunc`: an equivalence.
pub record IsEquivalence {ℓ} {A : Type ℓ} (eq : A → A → Bool) : Type ℓ where
  pub reflexive : (a : A) → eq a a ≡ true
  pub symmetric : (a b : A) → eq a b ≡ true → eq b a ≡ true
  pub transitive : (a b c : A) → eq a b ≡ true → eq b c ≡ true → eq a c ≡ true

-- A test that does not tell equal objects apart.
abbrev pub Respects {ℓ} : {A : Type ℓ} → (A → A → Bool) → (A → Bool) → Type ℓ
Respects {A = A} eq p = (a b : A) → eq a b ≡ true → p a ≡ p b

-- No two keys of a table are equal.
abbrev pub IsDistinct {ℓ} : {A : Type ℓ} → (A → A → Bool) → List A → Type 0
IsDistinct eq [] = Unit {0}
IsDistinct eq (x ∷ xs) = (contains eq xs x ≡ false) × IsDistinct eq xs

module _ {ℓ} {A : Type ℓ} {eq : A → A → Bool} (e : IsEquivalence eq) where
  pub eq-left : (a b c : A) → eq a b ≡ true → eq a c ≡ eq b c
  eq-left a b c h = ground (arith, e.symmetric a b, e.transitive a b c, e.transitive b a c)

  pub contains-Respects :
      (ys : List A) (a b : A) → eq a b ≡ true → contains eq ys a ≡ contains eq ys b
  unfolding contains
  contains-Respects [] a b h = refl
  contains-Respects (y ∷ ys) a b h =
      ground
        (arith, contains-Respects ys a b, e.symmetric a b, e.transitive y a b, e.transitive y b a)

  pub contains-replace :
      (ys : List A) (x z : A) → contains eq (replace eq ys x) z ≡ eq x z || contains eq ys z
  unfolding contains replace
  contains-replace [] x z = ground arith
  contains-replace (y ∷ ys) x z = ground (arith, contains-replace ys x z, eq-left y x z)

  pub contains-delete :
      (ys : List A) (x z : A)
      → IsDistinct eq ys
      → contains eq (delete eq ys x) z ≡ not (eq x z) && contains eq ys z
  unfolding contains delete
  contains-delete [] x z d = ground arith
  contains-delete (y ∷ ys) x z d = ground (
    arith,
    contains-delete ys x z d.1,
    eq-left y x z,
    contains-Respects ys y z,
    e.symmetric x z,
    e.transitive y z x,
  )

  pub replace-IsDistinct :
      (ys : List A) (x : A) → IsDistinct eq ys → IsDistinct eq (replace eq ys x)
  unfolding contains replace
  replace-IsDistinct [] x d = (refl, tt)
  replace-IsDistinct (y ∷ ys) x d = ground (
    arith,
    replace-IsDistinct ys x d.1,
    contains-replace ys x y,
    contains-Respects ys y x,
    e.symmetric x y,
  )

  pub delete-IsDistinct : (ys : List A) (x : A) → IsDistinct eq ys → IsDistinct eq (delete eq ys x)
  unfolding contains delete
  delete-IsDistinct [] x d = tt
  delete-IsDistinct (y ∷ ys) x d =
      ground (arith, delete-IsDistinct ys x d.1, contains-delete ys x y d.1)

  pub length-replace :
      (ys : List A) (x : A)
      → length (replace eq ys x) ≡ (if contains eq ys x then length ys else suc (length ys))
  unfolding contains replace
  length-replace [] x = refl
  length-replace (y ∷ ys) x = ground (arith, length-replace ys x)

  pub contains-add_each :
      (s : SwSet A) (xs : List A) (z : A)
      → contains eq (add_each eq s xs).keys z ≡ contains eq xs z || contains eq s.keys z
  unfolding add_each contains
  contains-add_each s [] z = refl
  contains-add_each s (x ∷ xs) z =
      ground (arith, contains-add_each (set_add eq s x) xs z, contains-replace s.keys x z)

  pub add_each-IsDistinct :
      (s : SwSet A) (xs : List A) → IsDistinct eq s.keys → IsDistinct eq (add_each eq s xs).keys
  unfolding add_each
  add_each-IsDistinct s [] d = d
  add_each-IsDistinct s (x ∷ xs) d =
      add_each-IsDistinct (set_add eq s x) xs (replace-IsDistinct s.keys x d)

  pub contains-remove_each :
      (s : SwSet A) (xs : List A) (z : A)
      → IsDistinct eq s.keys
      → contains eq (remove_each eq s xs).keys z ≡ not (contains eq xs z) && contains eq s.keys z
  unfolding remove_each contains
  contains-remove_each s [] z d = refl
  contains-remove_each s (x ∷ xs) z d = ground (
    arith,
    contains-remove_each (set_remove eq s x) xs z (delete-IsDistinct s.keys x d),
    contains-delete s.keys x z d,
  )

  pub remove_each-IsDistinct :
      (s : SwSet A) (xs : List A) → IsDistinct eq s.keys → IsDistinct eq (remove_each eq s xs).keys
  unfolding remove_each
  remove_each-IsDistinct s [] d = d
  remove_each-IsDistinct s (x ∷ xs) d =
      remove_each-IsDistinct (set_remove eq s x) xs (delete-IsDistinct s.keys x d)

  pub contains-add_unless :
      (skip : A → Bool) (s : SwSet A) (xs : List A) (z : A)
      → Respects eq skip
      → contains eq (add_unless eq skip s xs).keys z
        ≡ contains eq s.keys z || (contains eq xs z && not (skip z))
  unfolding add_unless contains
  contains-add_unless skip s [] z r = ground arith
  contains-add_unless skip s (x ∷ xs) z r = ground (
    arith,
    contains-add_unless skip s xs z r,
    contains-add_unless skip (set_add eq s x) xs z r,
    contains-replace s.keys x z,
    r x z,
  )

  pub add_unless-IsDistinct :
      (skip : A → Bool) (s : SwSet A) (xs : List A)
      → IsDistinct eq s.keys
      → IsDistinct eq (add_unless eq skip s xs).keys
  unfolding add_unless
  add_unless-IsDistinct skip s [] d = d
  add_unless-IsDistinct skip s (x ∷ xs) d = ground (
    arith,
    add_unless-IsDistinct skip s xs d,
    add_unless-IsDistinct skip (set_add eq s x) xs (replace-IsDistinct s.keys x d),
  )

  pub contains-foreach_remove :
      (func : A → Bool) (xs : List A) (z : A)
      → Respects eq func
      → contains eq (foreach_remove func xs).0 z ≡ contains eq xs z && not (func z)
  unfolding foreach_remove contains
  contains-foreach_remove func [] z r = refl
  contains-foreach_remove func (x ∷ xs) z r =
      ground (arith, contains-foreach_remove func xs z r, r x z)

pub length-foreach_remove {ℓ} :
    {A : Type ℓ} (func : A → Bool) (xs : List A)
    → length (foreach_remove func xs).0 + (foreach_remove func xs).1 ≡ length xs
unfolding foreach_remove
length-foreach_remove func [] = omega arith
length-foreach_remove func (x ∷ xs) = ground (arith, length-foreach_remove func xs)
