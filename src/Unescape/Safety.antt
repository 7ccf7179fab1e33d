-- ===== src/Unescape/Safety.antt =====
-- Whether the replacement of entities stays in the block of the text (libsocialweb/sw-utils.c).
use libsocialweb_flickr_oaut.Unescape.Chunks.{replace_entity-drop}
use libsocialweb_flickr_oaut.Prelude.{
  drop-append, take-append, length-drop, false, length-append, Option-cases, inr, inl, ◌||◌,
  Bool-cases, length, true, All, drop, ◌==◌, ℕ, zero, suc, ◌+◌, ◌-◌, ◌^◌, ◌≤◌, ◌<◌, [], ◌∷◌, ◌++◌,
  some, ◌≡◌, refl, ap, arith,
}
use libsocialweb_flickr_oaut.Unescape.{
  replace_entity, replacement, fill, Bytes, finished, after, unescape_from, unescape_entities,
}

-- The last byte of the block is a terminator.
abbrev pub EndsNul : Bytes → Type 0
EndsNul [] = ⊥
EndsNul (b ∷ []) = (b == 0) ≡ true
EndsNul (b ∷ c ∷ m) = EndsNul (c ∷ m)

EndsNul-append : (l m : Bytes) → EndsNul m → EndsNul (l ++ m)
EndsNul-append [] m h = h
EndsNul-append (b ∷ []) (c ∷ m) h = h
EndsNul-append (b ∷ []) [] h = absurd h
EndsNul-append (b ∷ c ∷ l) m h = EndsNul-append (c ∷ l) m h

EndsNul-drop : (n : ℕ) (m : Bytes) → n < length m → EndsNul m → EndsNul (drop n m)
unfolding drop
EndsNul-drop zero m l h = h
EndsNul-drop (suc n) [] l h = absurd h
EndsNul-drop (suc n) (b ∷ []) l h = absurd (omega arith)
EndsNul-drop (suc n) (b ∷ c ∷ m) l h = EndsNul-drop n (c ∷ m) (omega arith) h

module _ {ℓ} (P : ℕ → Type ℓ) where
  All-drop : (n : ℕ) (m : Bytes) → All P m → All P (drop n m)
  unfolding drop
  All-drop zero m a = a
  All-drop (suc n) [] a = a
  All-drop (suc n) (b ∷ m) a = All-drop n m a.1

  pub All-append : (l m : Bytes) → All P l → All P m → All P (l ++ m)
  All-append [] m a b = b
  All-append (x ∷ l) m a b = (a.0, All-append l m a.1 b)

  -- The bucket is found in a block that ends with a terminator, and has fewer bytes than the block.
  fill_found :
      (n : ℕ) (m : Bytes)
      → EndsNul m
      → All P m
      → (bucket : Bytes) × (fill n m ≡ some bucket) × (length bucket < length m) × All P bucket
  unfolding fill
  fill_found n [] h a = absurd h
  fill_found zero (b ∷ m) h a = ([], refl, omega arith, tt)
  fill_found (suc n) (b ∷ []) h a = ([], ground arith, omega arith, tt)
  fill_found (suc n) (b ∷ c ∷ m) h a = elim (Bool-cases (b == 59 || b == 0)) [
    | inl stops ↦ ([], rw stops refl, omega arith, tt)
    | inr goes ↦
        let more = fill_found n (c ∷ m) h a.1 in
        (b ∷ more.0, rw (goes, more.1) refl, omega (arith, more.2), (a.0, more.3))
  ]

-- The block from the end of a replacement on.
abbrev left_over : ℕ → Bytes → Bytes → Bytes
left_over bucket_i u m = drop (bucket_i + 2) m ++ drop (length u + (length m - (bucket_i + 2))) m

module _ (bucket_i : ℕ) (u m : Bytes) (s : length u ≤ bucket_i + 1)
    (f : bucket_i + 2 ≤ length m) where
  length-left_over : length (left_over bucket_i u m) ≡ length m - length u
  length-left_over =
      let kept = length u + (length m - (bucket_i + 2)) in
      omega (
        arith,
        length-append (drop (bucket_i + 2) m) (drop kept m),
        length-drop (bucket_i + 2) m,
        length-drop kept m,
      )

  left_over-EndsNul : EndsNul m → EndsNul (left_over bucket_i u m)
  left_over-EndsNul h =
      EndsNul-append (drop (bucket_i + 2) m) _
        (EndsNul-drop (length u + (length m - (bucket_i + 2))) m (omega arith) h)

module _ (scan_hex scan_decimal : Bytes → ℕ) (utf8 : ℕ → Bytes) where
  -- A bucket of such bytes, if it is recognised, has a replacement of a byte or more that is shorter
  -- than the entity.
  abbrev pub Shrinks {ℓ} : (ℕ → Type ℓ) → Type ℓ
  Shrinks P =
      (k : Bytes) (c : ℕ)
      → All P k
      → replacement scan_hex scan_decimal utf8 k ≡ some c
      → (0 < length (utf8 c)) × (length (utf8 c) ≤ length k + 1)

  round_at_entity :
      (fuel length_0 pos b : ℕ) (m bucket left block : Bytes) (c : ℕ)
      → (b == 0) ≡ false
      → (b == 38) ≡ true
      → fill 9 m ≡ some bucket
      → replacement scan_hex scan_decimal utf8 bucket ≡ some c
      → replace_entity length_0 pos (length bucket) (utf8 c) (b ∷ m) ≡ some (utf8 c ++ left)
      → unescape_from scan_hex scan_decimal utf8 fuel length_0 (pos + length (utf8 c)) left
        ≡ finished block
      → unescape_from scan_hex scan_decimal utf8 (suc fuel) length_0 pos (b ∷ m)
        ≡ finished (utf8 c ++ block)
  unfolding unescape_from
  round_at_entity fuel length_0 pos b m bucket left block c goes starts found known made more =
      rw
        (
          goes,
          starts,
          found,
          known,
          made,
          take-append (utf8 c) left,
          drop-append (utf8 c) left,
          more,
        )
        refl

  module _ {ℓ} (P : ℕ → Type ℓ) (shrinks : Shrinks P) where
    Finishes : ℕ → ℕ → ℕ → Bytes → Type 0
    Finishes fuel length_0 pos m =
        (block : Bytes) × (unescape_from scan_hex scan_decimal utf8 fuel length_0 pos m
          ≡ finished block)
        × (length block ≡ length m)

    unescape_from-safe :
        (fuel length_0 pos : ℕ) (m : Bytes)
        → EndsNul m
        → All P m
        → length m ≤ fuel
        → length_0 + 1 ≡ pos + length m
        → length_0 < 2 ^ 63
        → Finishes fuel length_0 pos m
    unfolding unescape_from Finishes
    unescape_from-safe fuel length_0 pos [] h a f e l = absurd h
    unescape_from-safe zero length_0 pos (b ∷ m) h a f e l = absurd (omega arith)
    unescape_from-safe (suc fuel) length_0 pos (b ∷ []) h a f e l = (b ∷ [], rw h refl, refl)
    unescape_from-safe (suc fuel) length_0 pos (b ∷ x ∷ rest) h a f e l =
        let m : Bytes = x ∷ rest in
        let next =
          unescape_from-safe fuel length_0 (pos + 1) m h a.1 (omega arith) (omega arith) l in
        let found = fill_found P 9 m h a.1 in
        elim (Bool-cases (b == 0)) [
          | inl stops ↦ (b ∷ m, rw stops refl, refl)
          | inr goes ↦ elim (Bool-cases (b == 38)) [
            | inr plain ↦ (b ∷ next.0, rw (goes, plain) (ap (after (b ∷ [])) next.1), ap suc next.2)
            | inl starts ↦ elim (Option-cases (replacement scan_hex scan_decimal utf8 found.0)) [
              | inl unknown ↦ (
                b ∷ next.0,
                rw (goes, starts, found.1, unknown) (ap (after (b ∷ [])) next.1),
                ap suc next.2,
              )
              | inr (c, known) ↦
                  let short = shrinks found.0 c found.3 known in
                  let left = left_over (length found.0) (utf8 c) (b ∷ m) in
                  let size =
                    length-left_over (length found.0) (utf8 c) (b ∷ m) short.1
                      (omega (arith, found.2)) in
                  let more =
                    unescape_from-safe fuel length_0 (pos + length (utf8 c)) left
                      (left_over-EndsNul (length found.0) (utf8 c) (b ∷ m) short.1
                        (omega (arith, found.2)) h)
                      (All-append P _ _ (All-drop P _ (b ∷ m) a) (All-drop P _ (b ∷ m) a))
                      (omega (arith, size, short.0)) (omega (arith, size, short)) l in
                  (
                    utf8 c ++ more.0,
                    round_at_entity fuel length_0 pos b m found.0 left more.0 c goes starts found.1
                        known
                        (replace_entity-drop (length found.0) length_0 pos (utf8 c) (b ∷ m) short.1
                          (omega (arith, found.2)) e l)
                        more.1,
                    omega (arith, length-append (utf8 c) more.0, more.2, size, short),
                  )
            ]
          ]
        ]

    -- On any text of fewer than 2^63 bytes whose recognised entities have shorter replacements, the
    -- loop ends without a fault, in a block of the same size; nothing beyond it is read or written.
    pub unescape_entities-safe :
        (text : Bytes)
        → All P (text ++ 0 ∷ [])
        → length text < 2 ^ 63
        → (block : Bytes) × (unescape_entities scan_hex scan_decimal utf8 text ≡ finished block)
          × (length block ≡ length text + 1)
    unfolding unescape_entities Finishes
    unescape_entities-safe text a l =
        let size = length-append text (0 ∷ []) in
        let made =
          unescape_from-safe (length text + 1) (length text) 0 (text ++ 0 ∷ [])
            (EndsNul-append text (0 ∷ []) refl) a (omega (arith, size)) (omega (arith, size)) l in
        (made.0, made.1, omega (arith, made.2, size))
