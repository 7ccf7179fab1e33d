-- ===== src/ItemView/Content.antt =====
-- What a view holds after `sw_item_view_set_from_set` and its parts (libsocialweb/sw-item-view.c).
use libsocialweb_flickr_oaut.Set.Find.{
  find-Respects, contains-find, find-remove_each, find-add_each, find-delete, find-replace, find,
}
use libsocialweb_flickr_oaut.Dict.{Dict}
use libsocialweb_flickr_oaut.ItemView.{
  find_indexed, index_all, uid, unindex_all, unindex_item, index_item, is_stale, ref_equal,
  replace_stale,
}
use libsocialweb_flickr_oaut.Set.{add_each, remove_each, set_remove, set_add, SwSet}
use libsocialweb_flickr_oaut.Set.Laws.{
  add_each-IsDistinct, delete-IsDistinct, replace-IsDistinct, remove_each-IsDistinct, IsDistinct,
  IsEquivalence,
}
use libsocialweb_flickr_oaut.ItemView.Index.{
  find_indexed-unindex_all, find_indexed-index_all, find_indexed-unindex_item,
  find_indexed-index_item, Coherent, ref_equal-IsEquivalence, HasIds,
}
use libsocialweb_flickr_oaut.Item.{Item}
use libsocialweb_flickr_oaut.Prelude.{
  refl, [], inr, inl, arith, Bool-cases, ◌∷◌, ◌≡◌, none, if◌then◌else◌, List, some, Option, ℕ,
}

-- What is held for an item of the given set: the new version if the old one is not equal to it.
abbrev pub refreshed : (ℕ → Item) → Option ℕ → Option ℕ → Option ℕ
refreshed heap none old = old
refreshed heap (some new) old = if is_stale heap new old then some new else old

module _ {heap : ℕ → Item} (ids : HasIds heap) where
  abbrev same : IsEquivalence (ref_equal heap)
  same = ref_equal-IsEquivalence ids

  module _ {current : SwSet ℕ} {d : Dict ℕ} (c : Coherent heap current d) where
    pub Coherent-set_add :
        (x : ℕ) → Coherent heap (set_add (ref_equal heap) current x) (index_item (uid heap x) x d)
    unfolding set_add
    Coherent-set_add x = record {
      distinct = replace-IsDistinct same current.keys x c.distinct;
      indexed = λ r. ground (
        arith,
        find-replace same current.keys x r,
        find_indexed-index_item ids x r d,
        c.indexed r,
      );
    }

    pub Coherent-set_remove :
        (x : ℕ)
        → Coherent heap (set_remove (ref_equal heap) current x) (unindex_item (uid heap x) d)
    unfolding set_remove
    Coherent-set_remove x = record {
      distinct = delete-IsDistinct same current.keys x c.distinct;
      indexed = λ r. ground (
        arith,
        find-delete same current.keys x r c.distinct,
        find_indexed-unindex_item ids x r d,
        c.indexed r,
      );
    }

    pub Coherent-add_each :
        (xs : List ℕ)
        → IsDistinct (ref_equal heap) xs
        → Coherent heap (add_each (ref_equal heap) current xs) (index_all heap xs d)
    Coherent-add_each xs u = record {
      distinct = add_each-IsDistinct same current xs c.distinct;
      indexed = λ r. ground (
        arith,
        find-add_each same current xs r u,
        find_indexed-index_all ids xs r d u,
        c.indexed r,
      );
    }

    pub Coherent-remove_each :
        (xs : List ℕ)
        → Coherent heap (remove_each (ref_equal heap) current xs) (unindex_all heap xs d)
    Coherent-remove_each xs = record {
      distinct = remove_each-IsDistinct same current xs c.distinct;
      indexed = λ r. ground (
        arith,
        find-remove_each same current xs r c.distinct,
        find_indexed-unindex_all ids xs r d,
        c.indexed r,
      );
    }

  pub record Refreshes (xs : List ℕ) (before current : SwSet ℕ) (d : Dict ℕ) : Type 0 where
    pub coherent : Coherent heap current d
    pub held :
        (z : ℕ)
        → find (ref_equal heap) current.keys z
          ≡ refreshed heap (find (ref_equal heap) xs z) (find (ref_equal heap) before.keys z)

  pub replace_stale-Refreshes :
      (xs : List ℕ) (current : SwSet ℕ) (d : Dict ℕ)
      → Coherent heap current d
      → IsDistinct (ref_equal heap) xs
      → Refreshes xs current (replace_stale heap xs current d).0 (replace_stale heap xs current d).1
  unfolding replace_stale set_add
  replace_stale-Refreshes [] current d c u = record { coherent = c; held = λ z. refl }
  replace_stale-Refreshes (x ∷ xs) current d c u =
      elim (Bool-cases (is_stale heap x (find_indexed (uid heap x) d))) [
        | inl stale ↦
            let more =
              replace_stale-Refreshes xs (set_add (ref_equal heap) current x)
                (index_item (uid heap x) x d) (Coherent-set_add c x) u.1 in
            rw (stale, replace_stale)
              (record {
                coherent = more.coherent;
                held = λ z. ground (
                  arith,
                  more.held z,
                  find-replace same current.keys x z,
                  contains-find (ref_equal heap) xs x,
                  find-Respects same xs x z,
                  find-Respects same current.keys x z,
                  c.indexed x,
                );
              })
        | inr fresh ↦
            let more = replace_stale-Refreshes xs current d c u.1 in
            rw (fresh, replace_stale)
              (record {
                coherent = more.coherent;
                held = λ z. ground (
                  arith,
                  more.held z,
                  contains-find (ref_equal heap) xs x,
                  find-Respects same xs x z,
                  find-Respects same current.keys x z,
                  c.indexed x,
                );
              })
      ]
