-- ===== src/Set/Find.antt =====
-- Which of several equal objects a set holds, after each operation of libsocialweb/sw-set.c.
use mathlib.Core.List.{append-nil, append_assoc}
use mathlib.Core.Path.{subst}
use libsocialweb_flickr_oaut.Set.Laws.{
  delete-IsDistinct, eq-left, IsDistinct, Respects, IsEquivalence,
}
use libsocialweb_flickr_oaut.Set.{
  set_new, set_difference, set_remove, set_add, SwSet, add_unless, remove_each, add_each, delete,
  replace, contains,
}
use libsocialweb_flickr_oaut.Prelude.{
  ap, ◌∙◌, inr, inl, Bool-cases, sym, not, ◌||◌, arith, ◌++◌, ◌≡◌, if◌then◌else◌, List, Option,
  Bool, none, some, [], ◌∷◌, true, false, refl,
}

-- The stored object that equals the given one.
abbrev pub find {ℓ} : {A : Type ℓ} → (A → A → Bool) → List A → A → Option A
find eq [] z = none
find eq (y ∷ ys) z = if eq y z then some y else find eq ys z

abbrev pub or_else {ℓ} : {A : Type ℓ} → Option A → Option A → Option A
or_else none b = b
or_else (some a) b = some a

abbrev pub is_some {ℓ} : {A : Type ℓ} → Option A → Bool
is_some none = false
is_some (some a) = true

-- The elements that a test is true of, in order.
abbrev pub keep {ℓ} : {A : Type ℓ} → (A → Bool) → List A → List A
keep p [] = []
keep p (x ∷ xs) = if p x then x ∷ keep p xs else keep p xs

module _ {ℓ} {A : Type ℓ} (eq : A → A → Bool) where
  pub contains-find : (ys : List A) (z : A) → contains eq ys z ≡ is_some (find eq ys z)
  unfolding contains
  contains-find [] z = refl
  contains-find (y ∷ ys) z = ground (arith, contains-find ys z)

module _ {ℓ} {A : Type ℓ} {eq : A → A → Bool} (e : IsEquivalence eq) where
  pub find-Respects : (ys : List A) (a b : A) → eq a b ≡ true → find eq ys a ≡ find eq ys b
  find-Respects [] a b h = refl
  find-Respects (y ∷ ys) a b h =
      ground (arith, find-Respects ys a b, e.symmetric a b, e.transitive y a b, e.transitive y b a)

  pub find-replace :
      (ys : List A) (x z : A)
      → find eq (replace eq ys x) z ≡ (if eq x z then some x else find eq ys z)
  unfolding replace
  find-replace [] x z = refl
  find-replace (y ∷ ys) x z =
      ground (arith, find-replace ys x z, eq-left e y x z, e.symmetric x z, e.transitive y z x)

  pub find-delete :
      (ys : List A) (x z : A)
      → IsDistinct eq ys
      → find eq (delete eq ys x) z ≡ (if eq x z then none else find eq ys z)
  unfolding delete
  find-delete [] x z d = ground arith
  find-delete (y ∷ ys) x z d = ground (
    arith,
    find-delete ys x z d.1,
    eq-left e y x z,
    contains-find eq ys y,
    find-Respects ys y z,
    e.symmetric x z,
    e.transitive y z x,
  )

  pub find-add_each :
      (s : SwSet A) (xs : List A) (z : A)
      → IsDistinct eq xs
      → find eq (add_each eq s xs).keys z ≡ or_else (find eq xs z) (find eq s.keys z)
  unfolding add_each
  find-add_each s [] z d = refl
  find-add_each s (x ∷ xs) z d = ground (
    arith,
    find-add_each (set_add eq s x) xs z d.1,
    find-replace s.keys x z,
    contains-find eq xs x,
    find-Respects xs x z,
  )

  pub find-remove_each :
      (s : SwSet A) (xs : List A) (z : A)
      → IsDistinct eq s.keys
      → find eq (remove_each eq s xs).keys z ≡ (if contains eq xs z then none else find eq s.keys z)
  unfolding remove_each contains
  find-remove_each s [] z d = refl
  find-remove_each s (x ∷ xs) z d = ground (
    arith,
    find-remove_each (set_remove eq s x) xs z (delete-IsDistinct e s.keys x d),
    find-delete s.keys x z d,
  )

  pub find-keep :
      (p : A → Bool) (xs : List A) (z : A)
      → Respects eq p
      → find eq (keep p xs) z ≡ (if p z then find eq xs z else none)
  find-keep p [] z r = ground arith
  find-keep p (x ∷ xs) z r = ground (arith, find-keep p xs z r, r x z)

  -- Objects that are pairwise different are appended one by one.
  replace_new : (ys : List A) (x : A) → contains eq ys x ≡ false → replace eq ys x ≡ ys ++ x ∷ []
  unfolding replace contains
  replace_new [] x h = refl
  replace_new (y ∷ ys) x h = ground (arith, replace_new ys x)

  contains-append :
      (xs ys : List A) (z : A) → contains eq (xs ++ ys) z ≡ contains eq xs z || contains eq ys z
  unfolding contains
  contains-append [] ys z = refl
  contains-append (x ∷ xs) ys z = ground (arith, contains-append xs ys z)

  -- No object of the second list is in the first.
  abbrev Apart : List A → List A → Type 0
  Apart ys [] = Unit {0}
  Apart ys (x ∷ xs) = (contains eq ys x ≡ false) × Apart ys xs

  Apart-append :
      (ys : List A) (x : A) (xs : List A)
      → Apart ys xs
      → contains eq xs x ≡ false
      → Apart (ys ++ x ∷ []) xs
  unfolding contains
  Apart-append ys x [] a h = tt
  Apart-append ys x (w ∷ xs) a h =
      ground (arith, Apart-append ys x xs a.1, contains-append ys (x ∷ []) w, e.symmetric x w)

  pub keys-add_unless :
      (skip : A → Bool) (s : SwSet A) (xs : List A)
      → IsDistinct eq xs
      → Apart s.keys xs
      → (add_unless eq skip s xs).keys ≡ s.keys ++ keep (λ x. not (skip x)) xs
  unfolding add_unless
  keys-add_unless skip s [] d a = sym (append-nil s.keys)
  keys-add_unless skip s (x ∷ xs) d a = elim (Bool-cases (skip x)) [
    | inl skipped ↦ rw (skipped, add_unless) (keys-add_unless skip s xs d.1 a.1)
    | inr kept ↦
        let new : replace eq s.keys x ≡ s.keys ++ x ∷ [] = replace_new s.keys x a.0 in
        rw (kept, add_unless)
          (keys-add_unless skip (set_add eq s x) xs d.1
              (subst (λ l. Apart l xs) (sym new) (Apart-append s.keys x xs a.1 d.0))
            ∙ ap (λ l. l ++ keep (λ w. not (skip w)) xs) new
            ∙ append_assoc s.keys (x ∷ []) (keep (λ w. not (skip w)) xs))
  ]

  Apart-nil : (xs : List A) → Apart [] xs
  unfolding contains
  Apart-nil [] = tt
  Apart-nil (x ∷ xs) = (refl, Apart-nil xs)

  -- The keys of a difference, in the order of the first set, where no two of them are the same.
  pub keys-set_difference :
      (eq_b : A → A → Bool) (a b : SwSet A)
      → IsDistinct eq a.keys
      → (set_difference eq eq_b a b).keys ≡ keep (λ x. not (contains eq_b b.keys x)) a.keys
  unfolding set_difference set_new
  keys-set_difference eq_b a b d =
      keys-add_unless (contains eq_b b.keys) set_new a.keys d (Apart-nil a.keys)

  contains-keep :
      (p : A → Bool) (xs : List A) (z : A)
      → contains eq xs z ≡ false
      → contains eq (keep p xs) z ≡ false
  unfolding contains
  contains-keep p [] z h = refl
  contains-keep p (x ∷ xs) z h = ground (arith, contains-keep p xs z)

  pub keep-IsDistinct : (p : A → Bool) (xs : List A) → IsDistinct eq xs → IsDistinct eq (keep p xs)
  unfolding contains
  keep-IsDistinct p [] d = tt
  keep-IsDistinct p (x ∷ xs) d = ground (arith, keep-IsDistinct p xs d.1, contains-keep p xs x)

-- What is distinct for one equality is so for a finer one.
module _ {ℓ} {A : Type ℓ} {eq same : A → A → Bool}
    (finer : (a b : A) → same a b ≡ true → eq a b ≡ true) where
  contains_finer : (xs : List A) (z : A) → contains eq xs z ≡ false → contains same xs z ≡ false
  unfolding contains
  contains_finer [] z h = refl
  contains_finer (x ∷ xs) z h = ground (arith, contains_finer xs z, finer x z)

  pub IsDistinct-finer : (xs : List A) → IsDistinct eq xs → IsDistinct same xs
  IsDistinct-finer [] d = tt
  IsDistinct-finer (x ∷ xs) d = (contains_finer xs x d.0, IsDistinct-finer xs d.1)
