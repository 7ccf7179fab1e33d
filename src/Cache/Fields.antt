-- ===== src/Cache/Fields.antt =====
-- The fields of one item through the cache (libsocialweb/sw-cache.c).
use libsocialweb_flickr_oaut.Prelude.{String, ◌≡◌, refl, none, some, [], ◌∷◌, arith, eq_iff, Option}
use libsocialweb_flickr_oaut.Prelude.Int.{ℤ}
use libsocialweb_flickr_oaut.Dict.{Dict, IsTable, lookup, insert, lookup-insert, insert-IsTable}
use libsocialweb_flickr_oaut.Item.{Item, put, store}
use libsocialweb_flickr_oaut.Cache.{save_fields, load_fields, relative, absolute}

-- A table's entry, changed by `f`, and else the entry of another.
abbrev pub over : (String → String) → Option String → Option String → Option String
over f none other = other
over f (some v) other = some (f v)

pub lookup-save_fields :
    (basename : String → String) (hash group : Dict String) (j : String)
    → IsTable hash
    → lookup j (save_fields basename hash group)
      ≡ over (relative basename j) (lookup j hash) (lookup j group)
unfolding lookup save_fields
lookup-save_fields basename [] group j t = refl
lookup-save_fields basename ((k, v) ∷ hash) group j t = ground (
  arith,
  lookup-save_fields basename hash (insert k (relative basename k v) group) j t.1,
  lookup-insert k j (relative basename k v) group,
  eq_iff k j,
  t.0,
)

pub save_fields-IsTable :
    (basename : String → String) (hash group : Dict String)
    → IsTable group
    → IsTable (save_fields basename hash group)
unfolding save_fields
save_fields-IsTable basename [] group t = t
save_fields-IsTable basename ((k, v) ∷ hash) group t =
    save_fields-IsTable basename hash (insert k (relative basename k v) group)
      (insert-IsTable k (relative basename k v) group t)

pub lookup-load_fields :
    (thumbnail_path : String → String) (now : ℤ) (fields : Dict String) (i : Item) (j : String)
    → IsTable fields
    → lookup j (load_fields thumbnail_path now fields i).hash
      ≡ over (absolute thumbnail_path j) (lookup j fields) (lookup j i.hash)
unfolding lookup load_fields put store
lookup-load_fields thumbnail_path now [] i j t = refl
lookup-load_fields thumbnail_path now ((k, v) ∷ fields) i j t = ground (
  arith,
  lookup-load_fields thumbnail_path now fields (put now k (some (absolute thumbnail_path k v)) i).0
      j t.1,
  lookup-insert k j (absolute thumbnail_path k v) i.hash,
  eq_iff k j,
  t.0,
)

-- Nothing but the table and the time of the last change is loaded.
pub load_fields_rest :
    (thumbnail_path : String → String) (now : ℤ) (fields : Dict String) (i : Item)
    → ((load_fields thumbnail_path now fields i).service ≡ i.service)
      × ((load_fields thumbnail_path now fields i).remaining_fetches ≡ i.remaining_fetches)
unfolding load_fields put store
load_fields_rest thumbnail_path now [] i = (refl, refl)
load_fields_rest thumbnail_path now ((k, v) ∷ fields) i =
    load_fields_rest thumbnail_path now fields (put now k (some (absolute thumbnail_path k v)) i).0

pub load_fields-IsTable :
    (thumbnail_path : String → String) (now : ℤ) (fields : Dict String) (i : Item)
    → IsTable i.hash
    → IsTable (load_fields thumbnail_path now fields i).hash
unfolding load_fields put store
load_fields-IsTable thumbnail_path now [] i t = t
load_fields-IsTable thumbnail_path now ((k, v) ∷ fields) i t =
    load_fields-IsTable thumbnail_path now fields
      (put now k (some (absolute thumbnail_path k v)) i).0
      (insert-IsTable k (absolute thumbnail_path k v) i.hash t)
