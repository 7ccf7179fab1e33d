-- ===== src/Contact/Equality.antt =====
-- `sw_contact_equal` against a description of it that does not count, and where the two part.
use libsocialweb_flickr_oaut.Item.Equality.{same_pointer_iff}
use libsocialweb_flickr_oaut.Dict.ButCached.{
  length-AgreesButCached, Carries-AgreesButCached, AgreesButCached,
}
use libsocialweb_flickr_oaut.Prelude.{
  false, str_eq, ◌∙◌, eq_refl, inr, none, refl, eq_iff, sym, arith, ap, ◌∷◌, inl, ◌↔◌, Option-cases,
  [], true, some, ◌≡◌, ◌≢◌, Option, length, String, List,
}
use libsocialweb_flickr_oaut.Contact.{
  contact_equal, each_in, Contact, first, strv_length, get, same_values, same_texts,
  size_but_cached,
}
use libsocialweb_flickr_oaut.Dict.{length-remove, remove_absent, remove, IsTable, lookup, Dict}

-- No key has an array without texts.
abbrev pub HasTexts : Dict (List String) → Type 0
HasTexts hash = (k : String) → lookup k hash ≢ some []

size_but_cached-length :
    (c : Contact)
    → IsTable c.hash
    → HasTexts c.hash
    → size_but_cached c ≡ length (remove "cached" c.hash)
unfolding size_but_cached get first
size_but_cached-length c t h = elim (Option-cases (lookup "cached" c.hash)) [
  | inl missing ↦
      rw (missing, size_but_cached) (ap length (sym (remove_absent "cached" c.hash missing)))
  | inr ([], found) ↦ elim (h "cached" found) [ ]
  | inr (v ∷ vs, found) ↦ ground (arith, found, length-remove "cached" c.hash {v = v ∷ vs} t found)
]

same_texts_iff :
    (vs ws : List String) → length vs ≡ length ws → (same_texts vs ws ≡ true) ↔ (vs ≡ ws)
unfolding same_texts
same_texts_iff [] [] e = (λ h. refl, λ h. refl)
same_texts_iff [] (w ∷ ws) e = ground arith
same_texts_iff (v ∷ vs) [] e = ground arith
same_texts_iff (v ∷ vs) (w ∷ ws) e =
    ground (arith, eq_iff v w, same_texts_iff vs ws (omega (arith, e)))

same_values-some : (vs ws : List String) → (same_values vs (some ws) ≡ true) ↔ (vs ≡ ws)
unfolding same_values strv_length
same_values-some vs ws = (
  λ h. (same_texts_iff vs ws (ground arith)).0 (ground arith),
  λ e.
      let l : length vs ≡ length ws = ap length e in
      ground (arith, l, (same_texts_iff vs ws l).1 e),
)

-- A round of the loop on an array with texts
same_values_iff :
    (vs : List String) (o : Option (List String))
    → vs ≢ []
    → (same_values vs o ≡ true) ↔ (o ≡ some vs)
unfolding same_values strv_length
same_values_iff [] o n = elim (n refl) [ ]
same_values_iff (v ∷ vs) none n = ground arith
same_values_iff (v ∷ vs) (some ws) n = (
  λ h. ap some (sym ((same_values-some (v ∷ vs) ws).0 h)),
  λ e. (same_values-some (v ∷ vs) ws).1 (cc),
)

-- What the loop of `sw_contact_equal` asks of each entry of the first table.
abbrev pub Matches : Dict (List String) → Dict (List String) → Type 0
Matches a b =
    (k : String) (vs : List String)
    → lookup k a ≡ some vs
    → str_eq "cached" k ≡ false
    → same_values vs (lookup k b) ≡ true

pub each_in-Matches : (a b : Dict (List String)) → IsTable a → each_in a b ≡ true → Matches a b
unfolding each_in lookup
each_in-Matches [] b t h k v e n = ground arith
each_in-Matches ((i, w) ∷ a) b t h k v e n = ground (
  arith,
  each_in-Matches a b t.1 (ground arith) k v,
  eq_iff i k,
  eq_iff i "cached",
  eq_iff "cached" k,
)

pub Matches-each_in : (a b : Dict (List String)) → IsTable a → Matches a b → each_in a b ≡ true
unfolding each_in lookup
Matches-each_in [] b t c = refl
Matches-each_in ((i, w) ∷ a) b t c = ground (
  arith,
  Matches-each_in a b t.1 (λ k v e n. c k v (ground (arith, eq_iff i k, t.0)) n),
  c i w,
  eq_refl i,
  eq_iff i "cached",
  eq_iff "cached" i,
)

-- For contacts whose tables hold each key once, and under no key an array without texts,
-- `sw_contact_equal` is true exactly when the services and the numbers of outstanding fetches are the
-- same and the tables agree at every key but "cached", in each key's texts and their order.
pub contact_equal_iff :
    (a b : Contact)
    → IsTable a.hash
    → IsTable b.hash
    → HasTexts a.hash
    → HasTexts b.hash
    → (contact_equal a b ≡ true) ↔ (
        (a.service ≡ b.service)
        × (a.remaining_fetches ≡ b.remaining_fetches)
        × AgreesButCached a.hash b.hash)
unfolding contact_equal
contact_equal_iff a b ta tb xa xb = (
  λ h. (
    ground (arith, same_pointer_iff a.service b.service),
    ground arith,
    Carries-AgreesButCached a.hash b.hash ta tb
        (sym (size_but_cached-length a ta xa) ∙ ground arith ∙ size_but_cached-length b tb xb)
        (λ k vs e n.
          (same_values_iff vs (lookup k b.hash) (λ q. xa k (e ∙ ap some q))).0
            (each_in-Matches a.hash b.hash ta (ground arith) k vs e n)),
  ),
  λ (s, r, g). ground (
    arith,
    same_pointer_iff a.service b.service,
    size_but_cached-length a ta xa,
    size_but_cached-length b tb xb,
    length-AgreesButCached a.hash b.hash ta tb g,
    Matches-each_in a.hash b.hash ta (λ k vs e n.
        (same_values_iff vs (lookup k b.hash) (λ q. xa k (e ∙ ap some q))).1 (sym (g k n) ∙ e)),
  ),
)
