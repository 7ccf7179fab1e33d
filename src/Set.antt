-- ===== src/Set.antt =====
-- libsocialweb/sw-set.c: a counted set of objects over a GHashTable whose keys are the objects and
-- whose values are one sentinel. The table is the list of its keys. The equality that the table
-- was made with (`GEqualFunc`; pointer equality where it is NULL) is the argument `eq` of each
-- operation that looks a key up.
pub mod Laws
pub mod Algebra
pub mod Find
pub mod Lifetime
mod Examples
use libsocialweb_flickr_oaut.Prelude.{
  ℕ, suc, ◌+◌, ◌-◌, ◌^◌, ◌%◌, Bool, true, false, ◌&&◌, ◌||◌, not, Option, none, some, List, [], ◌∷◌,
  ltb, ◌==◌, if◌then◌else◌, length,
}

module _ {ℓ} {A : Type ℓ} (eq : A → A → Bool) where
  -- `g_hash_table_lookup (hash, object) != NULL`; the table compares a stored key with the given one.
  unfoldable pub contains : List A → A → Bool
  contains [] x = false
  contains (y ∷ ys) x = eq y x || contains ys x

  -- `g_hash_table_replace`: the new object takes the place of an equal one.
  unfoldable pub replace : List A → A → List A
  replace [] x = x ∷ []
  replace (y ∷ ys) x = if eq y x then x ∷ ys else y ∷ replace ys x

  -- `g_hash_table_remove`
  unfoldable pub delete : List A → A → List A
  delete [] x = []
  delete (y ∷ ys) x = if eq y x then ys else y ∷ delete ys x

pub record SwSet {ℓ} (A : Type ℓ) : Type ℓ where
  -- a 32-bit pattern
  pub ref_count : ℕ
  pub keys : List A

-- `sw_set_new_full`, and `sw_set_new`, which passes NULL for both functions.
unfoldable pub set_new {ℓ} : {A : Type ℓ} → SwSet A
set_new = record { ref_count = 1; keys = [] }

-- `set->ref_count > 0` on a signed 32-bit integer
abbrev pub is_live : ℕ → Bool
is_live n = ltb 0 n && ltb n (2 ^ 31)

module _ {ℓ} {A : Type ℓ} where
  -- `none` is the NULL that a failed check returns.
  unfoldable pub set_ref : SwSet A → Option (SwSet A)
  set_ref s =
      if is_live s.ref_count
      then some (record s { ref_count = (s.ref_count + 1) % 2 ^ 32 })
      else none

  -- `none` is the set after its release: the last reference frees table and set.
  unfoldable pub set_unref : SwSet A → Option (SwSet A)
  set_unref s =
      if is_live s.ref_count
      then (if s.ref_count - 1 == 0 then none else some (record s { ref_count = s.ref_count - 1 }))
      else some s

  unfoldable pub set_is_empty : SwSet A → Bool
  set_is_empty s = length s.keys == 0

  unfoldable pub set_size : SwSet A → ℕ
  set_size s = length s.keys

  unfoldable pub set_empty : SwSet A → SwSet A
  set_empty s = record s { keys = [] }

  unfoldable pub set_as_list : SwSet A → List A
  set_as_list s = s.keys

  -- the keys that `func` is not true of, and how many it is true of
  unfoldable pub foreach_remove : (A → Bool) → List A → List A × ℕ
  foreach_remove func [] = ([], 0)
  foreach_remove func (x ∷ xs) =
      let (rest, n) = foreach_remove func xs in if func x then (rest, suc n) else (x ∷ rest, n)

  unfoldable pub set_foreach_remove : SwSet A → (A → Bool) → SwSet A × ℕ
  unfolding foreach_remove
  set_foreach_remove s func =
      let (rest, n) = foreach_remove func s.keys in (record s { keys = rest }, n)

module _ {ℓ} {A : Type ℓ} (eq : A → A → Bool) where
  -- `add` and `sw_set_add`
  unfoldable pub set_add : SwSet A → A → SwSet A
  unfolding replace
  set_add s x = record s { keys = replace eq s.keys x }

  unfoldable pub set_remove : SwSet A → A → SwSet A
  unfolding delete
  set_remove s x = record s { keys = delete eq s.keys x }

  unfoldable pub set_has : SwSet A → A → Bool
  unfolding contains
  set_has s x = contains eq s.keys x

  -- the walk of `g_hash_table_foreach (from, add_to_set, set)`
  unfoldable pub add_each : SwSet A → List A → SwSet A
  unfolding set_add
  add_each s [] = s
  add_each s (x ∷ xs) = add_each (set_add s x) xs

  -- the walk with `remove_from_set`
  unfoldable pub remove_each : SwSet A → List A → SwSet A
  unfolding set_remove
  remove_each s [] = s
  remove_each s (x ∷ xs) = remove_each (set_remove s x) xs

  unfoldable pub set_add_from : SwSet A → SwSet A → SwSet A
  unfolding add_each
  set_add_from s from = add_each s from.keys

  unfoldable pub set_remove_from : SwSet A → SwSet A → SwSet A
  unfolding remove_each
  set_remove_from s from = remove_each s from.keys

  unfoldable pub add_unless : (A → Bool) → SwSet A → List A → SwSet A
  unfolding set_add
  add_unless skip s [] = s
  add_unless skip s (x ∷ xs) = add_unless skip (if skip x then s else set_add s x) xs

  -- The result has the equality of the set that is filtered.
  unfoldable pub set_filter : SwSet A → (A → Bool) → SwSet A
  unfolding add_unless set_new
  set_filter s func = add_unless (λ x. not (func x)) set_new s.keys

-- The sets that `sw_set_new` makes compare their elements as pointers, whatever the sets compare that
-- they are made of; `same` is that equality.
module _ {ℓ} {A : Type ℓ} (same : A → A → Bool) where
  unfoldable pub set_from_list : List A → SwSet A
  unfolding add_each set_new
  set_from_list l = add_each same set_new l

  unfoldable pub set_union : SwSet A → SwSet A → SwSet A
  unfolding add_each set_new
  set_union a b = add_each same (add_each same set_new a.keys) b.keys

  -- Elements of `a` that `b`, whose table has the equality `eq_b`, does not have.
  unfoldable pub set_difference : (A → A → Bool) → SwSet A → SwSet A → SwSet A
  unfolding add_unless set_new contains
  set_difference eq_b a b = add_unless same (contains eq_b b.keys) set_new a.keys
