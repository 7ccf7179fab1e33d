-- ===== src/ItemView/Difference.antt =====
-- The items of one set whose ids another does not have (libsocialweb/sw-item-view.c,
-- libsocialweb/sw-set.c).
use mathlib.Core.Path.{subst}
use libsocialweb_flickr_oaut.Set.Find.{
  IsDistinct-finer, keys-set_difference, find-keep, keep-IsDistinct, keep, find,
}
use libsocialweb_flickr_oaut.Set.{contains, set_difference, SwSet}
use libsocialweb_flickr_oaut.ItemView.{ref_equal, same_ref}
use libsocialweb_flickr_oaut.Set.Laws.{contains-Respects, IsDistinct, IsEquivalence}
use libsocialweb_flickr_oaut.ItemView.Index.{ref_equal-IsEquivalence, HasIds}
use libsocialweb_flickr_oaut.Item.{Item}
use libsocialweb_flickr_oaut.Prelude.{
  ◌==◌, refl, length, [], ◌∷◌, List, ==_iff, ◌∙◌, ap, not, none, true, ◌≡◌, arith, if◌then◌else◌, ℕ,
}

pub no_keys : (l : List ℕ) → (length l == 0) ≡ true → l ≡ []
no_keys [] h = refl
no_keys (x ∷ l) h = ground arith

module _ {heap : ℕ → Item} (ids : HasIds heap) where
  abbrev pub same : IsEquivalence (ref_equal heap)
  same = ref_equal-IsEquivalence ids

  same_ref-IsEquivalence : IsEquivalence same_ref
  unfolding same_ref
  same_ref-IsEquivalence = record {
    reflexive = λ a. ground arith;
    symmetric = λ a b h. ground arith;
    transitive = λ a b c h k. ground arith;
  }

  same_ref-finer : (a b : ℕ) → same_ref a b ≡ true → ref_equal heap a b ≡ true
  same_ref-finer a b h =
      subst (λ c. ref_equal heap a c ≡ true) ((==_iff a b).0 (unfold same_ref in h))
        (same.reflexive a)

  -- The keys of the difference of two sets of items.
  pub keys-difference :
      (a b : SwSet ℕ)
      → IsDistinct (ref_equal heap) a.keys
      → (set_difference same_ref (ref_equal heap) a b).keys
        ≡ keep (λ x. not (contains (ref_equal heap) b.keys x)) a.keys
  keys-difference a b d =
      keys-set_difference same_ref-IsEquivalence (ref_equal heap) a b
        (IsDistinct-finer same_ref-finer a.keys d)

  pub find-difference :
      (a b : SwSet ℕ) (z : ℕ)
      → IsDistinct (ref_equal heap) a.keys
      → find (ref_equal heap) (set_difference same_ref (ref_equal heap) a b).keys z
        ≡ (if contains (ref_equal heap) b.keys z then none else find (ref_equal heap) a.keys z)
  find-difference a b z d = rw (keys-difference a b d) (
      find-keep same (λ x. not (contains (ref_equal heap) b.keys x)) a.keys z
        (λ x y h. ap not (contains-Respects same b.keys x y h))
      ∙ ground arith)

  pub difference-IsDistinct :
      (a b : SwSet ℕ)
      → IsDistinct (ref_equal heap) a.keys
      → IsDistinct (ref_equal heap) (set_difference same_ref (ref_equal heap) a b).keys
  difference-IsDistinct a b d = rw (keys-difference a b d) (keep-IsDistinct same _ a.keys d)
