-- ===== src/Contact/Examples.antt =====
-- Contacts, as instances of the theorems on libsocialweb/sw-contact.c.
use libsocialweb_flickr_oaut.Dict.ButCached.{AgreesButCached}
use libsocialweb_flickr_oaut.Prelude.Int.{pos}
use libsocialweb_flickr_oaut.Contact.Equality.{contact_equal_iff, HasTexts}
use libsocialweb_flickr_oaut.Contact.Values.{put_all, Put}
use libsocialweb_flickr_oaut.Dict.{insert, IsTable, lookup}
use libsocialweb_flickr_oaut.Prelude.{◌↔◌, refl, true, arith, none, [], ◌≡◌, ◌∷◌, List, some}
use libsocialweb_flickr_oaut.Contact.{
  strv_length, same_texts, same_values, each_in, size_but_cached, contact_equal, get_all, put,
  Contact, get, first,
}

abbrev ann : Contact
ann = record {
  service = some 1;
  hash = ("id", "7@N01" ∷ []) ∷ ("name", "ann" ∷ "a. b." ∷ []) ∷ ("cached", "1" ∷ []) ∷ [];
  mtime = pos 0;
  remaining_fetches = 0;
}

-- The same without the mark of the cache, and in another order.
abbrev fresh_ann : Contact
fresh_ann = record {
  service = some 1;
  hash = ("name", "ann" ∷ "a. b." ∷ []) ∷ ("id", "7@N01" ∷ []) ∷ [];
  mtime = pos 9;
  remaining_fetches = 0;
}

abbrev puts : List Put
puts =
    (pos 1, "url", some "http://a")
    ∷ (pos 2, "icon", none)
    ∷ (pos 3, "url", none)
    ∷ (pos 4, "url", some "http://b")
    ∷ []

-- A failed download leaves the key with an array without texts, which reads as NULL.
icon_is_null :
    (get (put_all puts ann) "icon" ≡ none) × (get_all (put_all puts ann) "icon" ≡ some [])
unfolding get get_all first put put_all lookup insert
icon_is_null = (refl, refl)

ann-IsTable : IsTable ann.hash
unfolding lookup
ann-IsTable = (refl, (refl, (refl, tt)))

fresh_ann-IsTable : IsTable fresh_ann.hash
unfolding lookup
fresh_ann-IsTable = (refl, (refl, tt))

ann-HasTexts : HasTexts ann.hash
unfolding lookup
ann-HasTexts k e = ground (arith, e)

fresh_ann-HasTexts : HasTexts fresh_ann.hash
unfolding lookup
fresh_ann-HasTexts k e = ground (arith, e)

contact_equal_iff_example : (contact_equal ann fresh_ann ≡ true) ↔ (
    (ann.service ≡ fresh_ann.service)
    × (ann.remaining_fetches ≡ fresh_ann.remaining_fetches)
    × AgreesButCached ann.hash fresh_ann.hash)
contact_equal_iff_example =
    contact_equal_iff ann fresh_ann ann-IsTable fresh_ann-IsTable ann-HasTexts fresh_ann-HasTexts

ann_equal : contact_equal ann fresh_ann ≡ true
unfolding contact_equal size_but_cached each_in same_values same_texts strv_length get first lookup
ann_equal = refl
