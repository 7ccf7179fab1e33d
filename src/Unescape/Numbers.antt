-- ===== src/Unescape/Numbers.antt =====
-- References to numbers: with no sign in the text, every replacement is shorter than its entity; with
-- a sign it need not be (libsocialweb/sw-utils.c).
use mathlib.Core.List.{append_assoc}
use libsocialweb_flickr_oaut.Unescape.Safety.{All-append, unescape_entities-safe, Shrinks}
use libsocialweb_flickr_oaut.Prelude.{
  length-append, ◌⊎◌, length, ◌||◌, All, ◌==◌, ℕ, zero, suc, ◌+◌, ◌-◌, ◌^◌, ◌≤◌, ◌<◌, [], ◌∷◌, ◌++◌,
  none, some, ◌≡◌, refl, ap, ◌∙◌, arith, false, inl, inr,
}
use libsocialweb_flickr_oaut.Unescape.{
  replace_entity, same_bytes, fill, unescape_entities, unescape_from, replacement, number, Bytes,
  finished, fault, after,
}

-- '+' is 43 and '-' is 45.
abbrev pub IsUnsigned : ℕ → Type 0
IsUnsigned b = (b == 43 || b == 45) ≡ false

-- What the documentation says of sscanf and of g_unichar_to_utf8.
pub record IsDocumented (scan_hex scan_decimal : Bytes → ℕ) (utf8 : ℕ → Bytes) : Type 0 where
  -- Characters with no sign are digits, or end the number.
  pub hex_bound : (ds : Bytes) → All IsUnsigned ds → scan_hex ds < 16 ^ length ds
  pub decimal_bound : (ds : Bytes) → All IsUnsigned ds → scan_decimal ds < 10 ^ length ds
  pub some_byte : (c : ℕ) → 0 < length (utf8 c)
  pub one_byte : (c : ℕ) → c < 128 → length (utf8 c) ≡ 1
  pub two_bytes : (c : ℕ) → c < 2048 → length (utf8 c) ≤ 2
  pub three_bytes : (c : ℕ) → c < 65536 → length (utf8 c) ≤ 3
  pub six_bytes : (c : ℕ) → length (utf8 c) ≤ 6

module _ {scan_hex scan_decimal : Bytes → ℕ} {utf8 : ℕ → Bytes}
    (d : IsDocumented scan_hex scan_decimal utf8) where
  hex_short : (ds : Bytes) → All IsUnsigned ds → length (utf8 (scan_hex ds)) ≤ length ds + 3
  hex_short [] a = omega (arith, d.hex_bound [] a, d.two_bytes (scan_hex []))
  hex_short (x ∷ []) a = omega (arith, d.hex_bound (x ∷ []) a, d.two_bytes (scan_hex (x ∷ [])))
  hex_short (x ∷ y ∷ []) a =
      omega (arith, d.hex_bound (x ∷ y ∷ []) a, d.two_bytes (scan_hex (x ∷ y ∷ [])))
  hex_short (x ∷ y ∷ z ∷ ds) a = omega (arith, d.six_bytes (scan_hex (x ∷ y ∷ z ∷ ds)))

  decimal_short : (ds : Bytes) → All IsUnsigned ds → length (utf8 (scan_decimal ds)) ≤ length ds + 2
  decimal_short [] a = omega (arith, d.decimal_bound [] a, d.two_bytes (scan_decimal []))
  decimal_short (x ∷ []) a =
      omega (arith, d.decimal_bound (x ∷ []) a, d.two_bytes (scan_decimal (x ∷ [])))
  decimal_short (x ∷ y ∷ []) a =
      omega (arith, d.decimal_bound (x ∷ y ∷ []) a, d.two_bytes (scan_decimal (x ∷ y ∷ [])))
  decimal_short (x ∷ y ∷ z ∷ []) a =
      omega (arith, d.decimal_bound (x ∷ y ∷ z ∷ []) a, d.two_bytes (scan_decimal (x ∷ y ∷ z ∷ [])))
  decimal_short (x ∷ y ∷ z ∷ w ∷ ds) a =
      omega (arith, d.six_bytes (scan_decimal (x ∷ y ∷ z ∷ w ∷ ds)))

  number_short :
      (k : Bytes) (c : ℕ)
      → All IsUnsigned k
      → number scan_hex scan_decimal utf8 k ≡ some c
      → length (utf8 c) ≤ length k + 1
  unfolding number
  number_short [] c a e = ground arith
  number_short (b ∷ []) c a e =
      ground (arith, decimal_short [] tt, ap (λ n. length (utf8 n)) {x = c} {y = scan_decimal []})
  number_short (b ∷ x ∷ ds) c a e = ground (
    arith,
    hex_short ds a.1.1,
    decimal_short (x ∷ ds) a.1,
    ap (λ n. length (utf8 n)) {x = c} {y = scan_hex ds},
    ap (λ n. length (utf8 n)) {x = c} {y = scan_decimal (x ∷ ds)},
  )

  replacement_cases :
      (k : Bytes) (c : ℕ)
      → replacement scan_hex scan_decimal utf8 k ≡ some c
      → (c < 128) ⊎ (number scan_hex scan_decimal utf8 k ≡ some c)
  unfolding replacement
  replacement_cases k c e = ground arith

  pub IsUnsigned-Shrinks : Shrinks scan_hex scan_decimal utf8 IsUnsigned
  IsUnsigned-Shrinks k c a e = elim (replacement_cases k c e) [
    | inl small ↦ (d.some_byte c, omega (arith, d.one_byte c small))
    | inr known ↦ (d.some_byte c, number_short k c a known)
  ]

  -- On any text of fewer than 2^63 bytes with no '+' and no '-', the loop ends without a fault, in a
  -- block of the same size.
  pub unsigned_safe :
      (text : Bytes)
      → All IsUnsigned text
      → length text < 2 ^ 63
      → (block : Bytes) × (unescape_entities scan_hex scan_decimal utf8 text ≡ finished block)
        × (length block ≡ length text + 1)
  unsigned_safe text a l =
      unescape_entities-safe scan_hex scan_decimal utf8 IsUnsigned IsUnsigned-Shrinks text
        (All-append IsUnsigned text (0 ∷ []) a (refl, tt)) l

module _ (scan_hex scan_decimal : Bytes → ℕ) (utf8 : ℕ → Bytes) where
  -- The bucket of "&#-1".
  abbrev minus_one : Bytes
  minus_one = 35 ∷ 45 ∷ 49 ∷ []

  minus_one_found : fill 9 (35 ∷ 45 ∷ 49 ∷ 0 ∷ []) ≡ some minus_one
  unfolding fill
  minus_one_found = refl

  minus_one_known :
      scan_decimal (45 ∷ 49 ∷ []) ≡ 2 ^ 32 - 1
      → replacement scan_hex scan_decimal utf8 minus_one ≡ some (2 ^ 32 - 1)
  unfolding replacement same_bytes number
  minus_one_known e = ap some e

  minus_one_over :
      (length_0 pos : ℕ)
      → length (utf8 (2 ^ 32 - 1)) ≡ 6
      → replace_entity length_0 pos 3 (utf8 (2 ^ 32 - 1)) (38 ∷ 35 ∷ 45 ∷ 49 ∷ 0 ∷ []) ≡ none
  unfolding replace_entity
  minus_one_over length_0 pos s = rw s refl

  faults_after :
      (before : Bytes) (fuel length_0 pos : ℕ)
      → All (λ b. ((b == 0) ≡ false) × ((b == 38) ≡ false)) before
      → scan_decimal (45 ∷ 49 ∷ []) ≡ 2 ^ 32 - 1
      → length (utf8 (2 ^ 32 - 1)) ≡ 6
      → length before < fuel
      → unescape_from scan_hex scan_decimal utf8 fuel length_0 pos
          (before ++ 38 ∷ 35 ∷ 45 ∷ 49 ∷ 0 ∷ [])
        ≡ fault
  unfolding unescape_from
  faults_after before zero length_0 pos a e s f = absurd (omega arith)
  faults_after [] (suc fuel) length_0 pos a e s f =
      rw (minus_one_found, minus_one_known e, minus_one_over length_0 pos s) refl
  faults_after (b ∷ before) (suc fuel) length_0 pos a e s f =
      rw (a.0.0, a.0.1)
        (ap (after (b ∷ [])) (faults_after before fuel length_0 (pos + 1) a.1 e s (omega arith)))

  -- A text that ends in "&#-1", after bytes that are not '&', is written beyond its block, if sscanf
  -- reads the sign and wraps, and a character from 2^31 on has six bytes.
  pub signed_reference_faults :
      (before : Bytes)
      → All (λ b. ((b == 0) ≡ false) × ((b == 38) ≡ false)) before
      → scan_decimal (45 ∷ 49 ∷ []) ≡ 2 ^ 32 - 1
      → length (utf8 (2 ^ 32 - 1)) ≡ 6
      → unescape_entities scan_hex scan_decimal utf8 (before ++ 38 ∷ 35 ∷ 45 ∷ 49 ∷ []) ≡ fault
  unfolding unescape_entities
  signed_reference_faults before a e s =
      let text : Bytes = before ++ 38 ∷ 35 ∷ 45 ∷ 49 ∷ [] in
      ap (unescape_from scan_hex scan_decimal utf8 (length text + 1) (length text) 0)
        (append_assoc before (38 ∷ 35 ∷ 45 ∷ 49 ∷ []) (0 ∷ []))
      ∙ faults_after before (length text + 1) (length text) 0 a e s
          (omega (arith, length-append before (38 ∷ 35 ∷ 45 ∷ 49 ∷ [])))
