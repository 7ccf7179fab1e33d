-- ===== src/Contact/Asymmetry.antt =====
-- Two contacts that `sw_contact_equal` (libsocialweb/sw-contact.c) finds equal in one order only.
use libsocialweb_flickr_oaut.Contact.Equality.{each_in-Matches, Matches-each_in, Matches}
use libsocialweb_flickr_oaut.Item.Equality.{same_pointer_iff}
use libsocialweb_flickr_oaut.Contact.Values.{put-IsTable, get_all-put}
use libsocialweb_flickr_oaut.Prelude.Int.{ℤ}
use libsocialweb_flickr_oaut.Dict.{IsTable, insert_absent, insert, lookup, Dict}
use libsocialweb_flickr_oaut.Contact.{
  each_in, append_value, strv_length, contact_equal, same_values, same_texts, first, put, Contact,
  get_all, size_but_cached, get,
}
use libsocialweb_flickr_oaut.Prelude.{
  sym, inr, inl, eq_iff, Bool-cases, if◌then◌else◌, refl, eq_refl, true, ℕ, List, [], ◌∷◌, arith,
  length-append, ◌-◌, ◌∙◌, some, ap, ◌+◌, false, length, str_eq, none, ◌≡◌, Option, String,
}

length-insert {ℓ} :
    {V : Type ℓ} (k : String) (v : V) (d : Dict V)
    → lookup k d ≡ none
    → length (insert k v d) ≡ length d + 1
length-insert k v d h = ap length (insert_absent k v d h) ∙ length-append d ((k, v) ∷ [])

abbrev first_of : Option (List String) → Option String
first_of o = elim o [ none ↦ none | some values ↦ first values ]

length-put :
    (now : ℤ) (key : String) (value : Option String) (c : Contact)
    → lookup key c.hash ≡ none
    → length (put now key value c).0.hash ≡ length c.hash + 1
unfolding put
length-put now key value c h = length-insert key _ c.hash h

get-put_other :
    (now : ℤ) (key : String) (value : Option String) (c : Contact) (j : String)
    → str_eq key j ≡ false
    → get (put now key value c).0 j ≡ get c j
unfolding get get_all
get-put_other now key value c j n = ap first_of (ground (arith, get_all-put now key value c j, n))

-- The count that is left of a size, by the text of "cached".
abbrev less_cached : Option String → ℕ → ℕ
less_cached o n = elim o [ none ↦ n | some _ ↦ n - 1 ]

size_but_cached-put :
    (now : ℤ) (key : String) (value : Option String) (c : Contact)
    → str_eq key "cached" ≡ false
    → lookup key c.hash ≡ none
    → size_but_cached (put now key value c).0 ≡ less_cached (get c "cached") (length c.hash + 1)
unfolding size_but_cached
size_but_cached-put now key value c n h =
    ap (λ o. less_cached o (length (put now key value c).0.hash))
      (get-put_other now key value c "cached" n)
    ∙ ap (less_cached (get c "cached")) (length-put now key value c h)

same_texts_refl : (vs : List String) → same_texts vs vs ≡ true
unfolding same_texts
same_texts_refl [] = refl
same_texts_refl (v ∷ vs) = ground (arith, eq_refl v, same_texts_refl vs)

same_values_refl : (vs : List String) → same_values vs (some vs) ≡ true
unfolding same_values strv_length
same_values_refl vs = ground (arith, same_texts_refl vs)

lookup-put :
    (now : ℤ) (key : String) (value : Option String) (c : Contact) (j : String)
    → lookup j (put now key value c).0.hash
      ≡ (if str_eq key j then some (append_value (lookup j c.hash) value) else lookup j c.hash)
unfolding get_all
lookup-put = get_all-put

-- Where the other guards pass, the loop decides.
equal_by_loop :
    (a b : Contact)
    → a.service ≡ b.service
    → a.remaining_fetches ≡ b.remaining_fetches
    → size_but_cached a ≡ size_but_cached b
    → contact_equal a b ≡ each_in a.hash b.hash
unfolding contact_equal
equal_by_loop a b s r e = ground (arith, same_pointer_iff a.service b.service)

module _ (c : Contact) (now later : ℤ) (failed named text : String)
    (hf : lookup failed c.hash ≡ none) (hn : lookup named c.hash ≡ none)
    (n : str_eq failed named ≡ false) where
  abbrev a : Contact
  a = (put now failed none c).0

  abbrev b : Contact
  b = (put later named (some text) c).0

  copies-Matches : Matches a.hash b.hash
  unfolding same_values strv_length same_texts append_value
  copies-Matches k vs e nc = elim (Bool-cases (str_eq failed k)) [
    | inl here ↦ ground (
      arith,
      here,
      hf,
      lookup-put now failed none c k,
      lookup-put later named (some text) c k,
      eq_iff failed k,
      eq_iff named k,
      eq_iff failed named,
    )
    | inr other ↦ ground (
      arith,
      other,
      hn,
      lookup-put now failed none c k,
      lookup-put later named (some text) c k,
      eq_iff named k,
      same_values_refl vs,
    )
  ]

  copies_differ : Matches b.hash a.hash → str_eq named "cached" ≡ false → false ≡ true
  unfolding same_values strv_length same_texts append_value
  copies_differ m nc = ground (
    arith,
    m named (text ∷ []),
    hn,
    n,
    eq_refl named,
    eq_iff named "cached",
    eq_iff "cached" named,
    lookup-put now failed none c named,
    lookup-put later named (some text) c named,
  )

-- Let a contact's table hold each key once, and two keys other than "cached" not at all. Give one
-- copy of the contact NULL under the first key, as a download that fails does, and another copy a
-- text under the second. Then `sw_contact_equal` is true of the first copy and the second, and false
-- of the second and the first.
pub contact_equal_asymmetric :
    (c : Contact) (now later : ℤ) (failed named text : String)
    → IsTable c.hash
    → lookup failed c.hash ≡ none
    → lookup named c.hash ≡ none
    → str_eq failed named ≡ false
    → str_eq failed "cached" ≡ false
    → str_eq named "cached" ≡ false
    → (contact_equal (put now failed none c).0 (put later named (some text) c).0 ≡ true)
      × (contact_equal (put later named (some text) c).0 (put now failed none c).0 ≡ false)
unfolding put
contact_equal_asymmetric c now later failed named text t hf hn n fc nc =
    let ta = put-IsTable now failed none c t in
    let tb = put-IsTable later named (some text) c t in
    let sizes : size_but_cached (put now failed none c).0
        ≡ size_but_cached (put later named (some text) c).0 =
      size_but_cached-put now failed none c fc hf
      ∙ sym (size_but_cached-put later named (some text) c nc hn) in
    (
      equal_by_loop _ _ refl refl sizes
          ∙ Matches-each_in _ _ ta (copies-Matches c now later failed named text hf hn n),
      equal_by_loop _ _ refl refl (sym sizes)
          ∙ elim (Bool-cases
              (each_in (put later named (some text) c).0.hash (put now failed none c).0.hash)) [
                | inl loop ↦
                    loop
                    ∙ sym (
                        copies_differ c now later failed named text hf hn n
                          (each_in-Matches _ _ tb loop) nc)
                | inr stops ↦ stops
              ],
    )
