-- ===== src/Dict.antt =====
-- A GHashTable made with `g_str_hash` and `g_str_equal` (or over interned strings): an association
-- list with one entry for each key.
pub mod Agree
pub mod ButCached
use libsocialweb_flickr_oaut.Prelude.{
  ◌++◌, ℕ, suc, ◌+◌, String, ◌≡◌, refl, Option, none, some, Bool, false, List, [], ◌∷◌, map, arith,
  str_eq, eq_iff, if◌then◌else◌, length,
}

abbrev pub Dict {ℓ} : Type ℓ → Type ℓ
Dict V = List (String × V)

module _ {ℓ} {V : Type ℓ} where
  unfoldable pub lookup : String → Dict V → Option V
  lookup k [] = none
  lookup k ((j, v) ∷ d) = if str_eq j k then some v else lookup k d

  -- `g_hash_table_insert` and `g_hash_table_replace`, which differ only in the copy of the key that
  -- they keep
  unfoldable pub insert : String → V → Dict V → Dict V
  insert k v [] = (k, v) ∷ []
  insert k v ((j, w) ∷ d) = if str_eq j k then (k, v) ∷ d else (j, w) ∷ insert k v d

  unfoldable pub remove : String → Dict V → Dict V
  remove k [] = []
  remove k ((j, v) ∷ d) = let rest = remove k d in if str_eq j k then rest else (j, v) ∷ rest

  abbrev pub keys : Dict V → List String
  keys = map (λ e. e.0)

  -- Every table has this; the lists that stand for tables are those with it.
  abbrev pub IsTable : Dict V → Type ℓ
  IsTable [] = Unit
  IsTable ((k, v) ∷ d) = (lookup k d ≡ none) × IsTable d

  pub lookup-insert :
      (k j : String) (v : V) (d : Dict V)
      → lookup j (insert k v d) ≡ (if str_eq k j then some v else lookup j d)
  unfolding lookup insert
  lookup-insert k j v [] = refl
  lookup-insert k j v ((i, w) ∷ d) =
      ground (arith, eq_iff k j, eq_iff i k, eq_iff i j, lookup-insert k j v d)

  pub lookup-remove :
      (k j : String) (d : Dict V)
      → lookup j (remove k d) ≡ (if str_eq k j then none else lookup j d)
  unfolding lookup remove
  lookup-remove k j [] = ground arith
  lookup-remove k j ((i, w) ∷ d) =
      ground (arith, eq_iff k j, eq_iff i k, eq_iff i j, lookup-remove k j d)

  pub insert-IsTable : (k : String) (v : V) (d : Dict V) → IsTable d → IsTable (insert k v d)
  unfolding insert lookup
  insert-IsTable k v [] t = (refl, tt)
  insert-IsTable k v ((i, w) ∷ d) t =
      ground (arith, eq_iff i k, eq_iff k i, insert-IsTable k v d t.1, lookup-insert k i v d)

  pub remove-IsTable : (k : String) (d : Dict V) → IsTable d → IsTable (remove k d)
  unfolding remove
  remove-IsTable k [] t = tt
  remove-IsTable k ((i, w) ∷ d) t = ground (arith, remove-IsTable k d t.1, lookup-remove k i d)

  pub remove_absent : (k : String) (d : Dict V) → lookup k d ≡ none → remove k d ≡ d
  unfolding remove lookup
  remove_absent k [] h = refl
  remove_absent k ((i, w) ∷ d) h = ground (arith, remove_absent k d)

  pub insert_absent :
      (k : String) (v : V) (d : Dict V) → lookup k d ≡ none → insert k v d ≡ d ++ (k, v) ∷ []
  unfolding insert lookup
  insert_absent k v [] h = refl
  insert_absent k v ((i, w) ∷ d) h = ground (arith, insert_absent k v d)

  pub length-remove :
      (k : String) (d : Dict V) {v : V}
      → IsTable d
      → lookup k d ≡ some v
      → length (remove k d) + 1 ≡ length d
  unfolding remove lookup
  length-remove k [] t h = ground arith
  length-remove k ((i, w) ∷ d) {v} t h =
      ground (arith, eq_iff i k, length-remove k d {v = v} t.1, remove_absent k d)

pub ruleset dict_laws = (lookup-insert, lookup-remove)
