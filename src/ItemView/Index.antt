-- ===== src/ItemView/Index.antt =====
-- The view's index by uid and its current set hold the same items (libsocialweb/sw-item-view.c).
use libsocialweb_flickr_oaut.Set.Find.{find-Respects, contains-find, find, or_else}
use libsocialweb_flickr_oaut.Dict.{lookup-remove, lookup-insert, Dict}
use libsocialweb_flickr_oaut.Set.{contains, SwSet}
use libsocialweb_flickr_oaut.Set.Laws.{IsDistinct, IsEquivalence}
use libsocialweb_flickr_oaut.ItemView.{
  unindex_item, index_item, uid, unindex_all, index_all, find_indexed, ref_equal,
}
use libsocialweb_flickr_oaut.Item.{get, Item}
use libsocialweb_flickr_oaut.Prelude.{
  refl, [], ◌∷◌, none, if◌then◌else◌, eq_iff, str_eq, some, arith, ◌≡◌, List, eq_refl, String, ℕ,
}

-- Every item has an id; the code relies on it wherever it hashes or compares items.
pub record HasIds (heap : ℕ → Item) : Type 0 where
  pub name : ℕ → String
  pub named : (r : ℕ) → uid heap r ≡ some (name r)

module _ {heap : ℕ → Item} (ids : HasIds heap) where
  pub ref_equal-uid : (a b : ℕ) → ref_equal heap a b ≡ str_eq (ids.name a) (ids.name b)
  unfolding ref_equal get
  ref_equal-uid a b = ground (arith, ids.named a, ids.named b)

  pub ref_equal-IsEquivalence : IsEquivalence (ref_equal heap)
  ref_equal-IsEquivalence = record {
    reflexive = λ a. rw (ref_equal-uid a a, eq_refl (ids.name a));
    symmetric = λ a b h. ground (
      arith,
      ref_equal-uid a b,
      ref_equal-uid b a,
      eq_iff (ids.name a) (ids.name b),
      eq_iff (ids.name b) (ids.name a),
    );
    transitive = λ a b c h k. ground (
      arith,
      ref_equal-uid a b,
      ref_equal-uid b c,
      ref_equal-uid a c,
      eq_iff (ids.name a) (ids.name b),
      eq_iff (ids.name b) (ids.name c),
      eq_iff (ids.name a) (ids.name c),
    );
  }

  pub find_indexed-index_item :
      (x z : ℕ) (d : Dict ℕ)
      → find_indexed (uid heap z) (index_item (uid heap x) x d)
        ≡ (if ref_equal heap x z then some x else find_indexed (uid heap z) d)
  unfolding find_indexed index_item
  find_indexed-index_item x z d =
      rw (ids.named x, ids.named z, ref_equal-uid x z) (lookup-insert (ids.name x) (ids.name z) x d)

  pub find_indexed-unindex_item :
      (x z : ℕ) (d : Dict ℕ)
      → find_indexed (uid heap z) (unindex_item (uid heap x) d)
        ≡ (if ref_equal heap x z then none else find_indexed (uid heap z) d)
  unfolding find_indexed unindex_item
  find_indexed-unindex_item x z d =
      rw (ids.named x, ids.named z, ref_equal-uid x z) (lookup-remove (ids.name x) (ids.name z) d)

  pub find_indexed-index_all :
      (rs : List ℕ) (z : ℕ) (d : Dict ℕ)
      → IsDistinct (ref_equal heap) rs
      → find_indexed (uid heap z) (index_all heap rs d)
        ≡ or_else (find (ref_equal heap) rs z) (find_indexed (uid heap z) d)
  unfolding index_all
  find_indexed-index_all [] z d u = refl
  find_indexed-index_all (x ∷ rs) z d u = ground (
    arith,
    find_indexed-index_all rs z (index_item (uid heap x) x d) u.1,
    find_indexed-index_item x z d,
    contains-find (ref_equal heap) rs x,
    find-Respects ref_equal-IsEquivalence rs x z,
  )

  pub find_indexed-unindex_all :
      (rs : List ℕ) (z : ℕ) (d : Dict ℕ)
      → find_indexed (uid heap z) (unindex_all heap rs d)
        ≡ (if contains (ref_equal heap) rs z then none else find_indexed (uid heap z) d)
  unfolding unindex_all contains
  find_indexed-unindex_all [] z d = refl
  find_indexed-unindex_all (x ∷ rs) z d = ground (
    arith,
    find_indexed-unindex_all rs z (unindex_item (uid heap x) d),
    find_indexed-unindex_item x z d,
  )

-- The set of a view and its index agree: the set has no two items with one id, and the item that
-- it holds for an id is the one that the index has there.
pub record Coherent (heap : ℕ → Item) (current : SwSet ℕ) (d : Dict ℕ) : Type 0 where
  pub distinct : IsDistinct (ref_equal heap) current.keys
  pub indexed : (r : ℕ) → find (ref_equal heap) current.keys r ≡ find_indexed (uid heap r) d
