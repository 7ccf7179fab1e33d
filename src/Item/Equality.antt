-- ===== src/Item/Equality.antt =====
-- `sw_item_equal` against a description of it that does not count.
use libsocialweb_flickr_oaut.Dict.ButCached.{
  length_of_Carries, Carries-AgreesButCached, length-AgreesButCached, AgreesButCached, Carries,
}
use libsocialweb_flickr_oaut.Prelude.{
  Option-cases, inr, Bool-cases, if◌then◌else◌, not, inl, ◌⊎◌, ◌+◌, Bool, ◌↔◌, ℕ, Option, ◌∙◌,
  String, ◌≡◌, refl, sym, true, false, none, some, [], ◌∷◌, arith, str_eq, eq_iff, eq_refl, length,
}
use libsocialweb_flickr_oaut.Dict.{Dict, IsTable, lookup, remove, length-remove, remove_absent}
use libsocialweb_flickr_oaut.Item.{same_pointer, Item, item_equal, same_value, each_in}

abbrev pub has_cached : Dict String → Bool
has_cached d = elim (lookup "cached" d) [ none ↦ false | some v ↦ true ]

-- The key "cached" adds one to the size.
length-has_cached :
    (d : Dict String)
    → IsTable d
    → length d ≡ length (remove "cached" d) + (if has_cached d then 1 else 0)
length-has_cached d t = elim (Option-cases (lookup "cached" d)) [
  | inl missing ↦ ground (arith, missing, remove_absent "cached" d missing)
  | inr (v, found) ↦ ground (arith, found, length-remove "cached" d {v = v} t found)
]

same_value-some : (v : String) (o : Option String) → same_value v o ≡ true → o ≡ some v
unfolding same_value
same_value-some v none h = cc
same_value-some v (some w) h = ground (arith, eq_iff v w)

same_value_refl : (v : String) (o : Option String) → o ≡ some v → same_value v o ≡ true
unfolding same_value
same_value_refl v none h = cc
same_value_refl v (some w) h = ground (arith, eq_iff v w)

each_in-carries :
    (a b : Dict String) (k v : String)
    → each_in a b ≡ true
    → lookup k a ≡ some v
    → str_eq "cached" k ≡ false
    → lookup k b ≡ some v
unfolding each_in lookup
each_in-carries [] b k v h e n = ground arith
each_in-carries ((i, w) ∷ a) b k v h e n = ground (
  arith,
  each_in-carries a b k v,
  eq_iff i k,
  eq_iff i "cached",
  eq_iff "cached" k,
  same_value-some w (lookup i b),
)

Carries-each_in : (a b : Dict String) → IsTable a → Carries a b → each_in a b ≡ true
unfolding each_in lookup
Carries-each_in [] b t c = refl
Carries-each_in ((i, w) ∷ a) b t c = ground (
  arith,
  Carries-each_in a b t.1 (λ k v e n. c k v (ground (arith, eq_iff i k, t.0)) n),
  c i w,
  eq_refl i,
  eq_iff i "cached",
  eq_iff "cached" i,
  same_value_refl w (lookup i b),
)

pub same_pointer_iff : (a b : Option ℕ) → (same_pointer a b ≡ true) ↔ (a ≡ b)
same_pointer_iff a b = ground arith

-- Two tables that pass: both have the key "cached" or neither does, and they agree at every other key;
-- or the first alone has it, and the second has one more key in its place.
abbrev pub IsEqualTable : Dict String → Dict String → Type 0
IsEqualTable a b =
    ((has_cached a ≡ has_cached b) × AgreesButCached a b)
    ⊎ ((has_cached a ≡ true) × (has_cached b ≡ false) × (length a ≡ length b) × Carries a b)

equal_sizes :
    (a b : Dict String)
    → IsTable a
    → IsTable b
    → length a ≡ length b
    → Carries a b
    → IsEqualTable a b
equal_sizes a b ta tb l c =
    let la = length-has_cached a ta in
    let lb = length-has_cached b tb in
    let fits = length_of_Carries a b ta tb c in
    elim (Bool-cases (has_cached a)) [
      | inl marked ↦ elim (Bool-cases (has_cached b)) [
        | inl both ↦ inl (
          marked ∙ sym both,
          Carries-AgreesButCached a b ta tb (ground (arith, la, lb, marked, both, l)) c,
        )
        | inr first ↦ inr (marked, first, l, c)
      ]
      | inr plain ↦ elim (Bool-cases (has_cached b)) [
        | inl second ↦ ground (arith, la, lb, fits, plain, second, l)
        | inr neither ↦ inl (
          plain ∙ sym neither,
          Carries-AgreesButCached a b ta tb (ground (arith, la, lb, plain, neither, l)) c,
        )
      ]
    ]

sizes_equal : (a b : Dict String) → IsTable a → IsTable b → IsEqualTable a b → length a ≡ length b
sizes_equal a b ta tb (inl (marks, g)) = ground (
  arith,
  marks,
  length-has_cached a ta,
  length-has_cached b tb,
  length-AgreesButCached a b ta tb g,
)
sizes_equal a b ta tb (inr (x, y, l, c)) = l

IsEqualTable-Carries : (a b : Dict String) → IsEqualTable a b → Carries a b
IsEqualTable-Carries a b (inl (marks, g)) = λ k v e n. sym (g k n) ∙ e
IsEqualTable-Carries a b (inr (x, y, l, c)) = c

-- For items whose tables hold each key once, `sw_item_equal` is true exactly when the services and the
-- numbers of outstanding fetches are the same, and either both tables have the key "cached" or neither
-- has it, and they agree at every other key; or the first alone has it, each of its other entries is one
-- of the second, and the second has one more key.
pub item_equal_iff :
    (a b : Item)
    → IsTable a.hash
    → IsTable b.hash
    → (item_equal a b ≡ true) ↔ (
        (a.service ≡ b.service)
        × (a.remaining_fetches ≡ b.remaining_fetches)
        × IsEqualTable a.hash b.hash)
unfolding item_equal
item_equal_iff a b ta tb = (
  λ h. (
    ground (arith, same_pointer_iff a.service b.service),
    ground arith,
    equal_sizes a.hash b.hash ta tb (ground arith)
        (λ k v. each_in-carries a.hash b.hash k v (ground arith)),
  ),
  λ (s, r, g). ground (
    arith,
    same_pointer_iff a.service b.service,
    sizes_equal a.hash b.hash ta tb g,
    Carries-each_in a.hash b.hash ta (IsEqualTable-Carries a.hash b.hash g),
  ),
)

-- The mark of the cache counts: where one of two tables has the key "cached" and the other has not, and
-- they agree at every other key, `sw_item_equal` is false.
pub cached_counts :
    (a b : Item)
    → IsTable a.hash
    → IsTable b.hash
    → (has_cached a.hash ≡ not (has_cached b.hash))
    → AgreesButCached a.hash b.hash
    → item_equal a b ≡ false
unfolding item_equal
cached_counts a b ta tb one g = ground (
  arith,
  one,
  length-has_cached a.hash ta,
  length-has_cached b.hash tb,
  length-AgreesButCached a.hash b.hash ta tb g,
)

pub equal_lengths : (a b : Item) → item_equal a b ≡ true → length a.hash ≡ length b.hash
unfolding item_equal
equal_lengths a b h = ground arith

pub item_equal-Carries : (a b : Item) → item_equal a b ≡ true → Carries a.hash b.hash
unfolding item_equal
item_equal-Carries a b h k v = each_in-carries a.hash b.hash k v (ground arith)
