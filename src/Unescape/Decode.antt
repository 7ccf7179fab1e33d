-- ===== src/Unescape/Decode.antt =====
-- A text of plain bytes and whole entities is replaced by what its entities stand for
-- (libsocialweb/sw-utils.c).
use mathlib.Core.Path.{ap₂}
use mathlib.Core.List.{append_assoc}
use libsocialweb_flickr_oaut.Prelude.{
  Option, drop-append, take-append, length-append, length, false, All, ◌==◌, ℕ, zero, suc, ◌+◌, ◌^◌,
  ◌≤◌, ◌<◌, List, [], ◌∷◌, ◌++◌, none, some, ◌≡◌, refl, sym, ap, ◌∙◌, arith,
}
use libsocialweb_flickr_oaut.Unescape.{
  replace_entity, replacement, Bytes, finished, after, unescape_from, unescape_entities,
}
use libsocialweb_flickr_oaut.Unescape.Chunks.{
  replace_entity_lem, length-entity, fill_bucket, GoesOn, Chunk, byte, entity, render,
}

module _ (scan_hex scan_decimal : Bytes → ℕ) (utf8 : ℕ → Bytes) where
  abbrev pub written : Option ℕ → Bytes
  written none = []
  written (some c) = utf8 c

  -- What a chunk stands for.
  abbrev pub meaning_one : Chunk → Bytes
  meaning_one (byte b) = b ∷ []
  meaning_one (entity k) = written (replacement scan_hex scan_decimal utf8 k)

  abbrev pub meaning : List Chunk → Bytes
  meaning [] = []
  meaning (c ∷ cs) = meaning_one c ++ meaning cs

  -- A byte is not '&' or the terminator; an entity is recognised, fits the bucket, and is replaced by
  -- one byte or more, and fewer than it has.
  abbrev pub IsWhole : Chunk → Type 0
  IsWhole (byte b) = ((b == 0) ≡ false) × ((b == 38) ≡ false)
  IsWhole (entity k) =
      (c : ℕ) × (replacement scan_hex scan_decimal utf8 k ≡ some c)
      × All GoesOn k
      × (length k ≤ 9)
      × (0 < length (utf8 c))
      × (length (utf8 c) ≤ length k + 1)

  meaning-entity :
      (k : Bytes) (cs : List Chunk) (c : ℕ) (rest : Bytes)
      → replacement scan_hex scan_decimal utf8 k ≡ some c
      → meaning (entity k ∷ cs) ++ 0 ∷ rest ≡ utf8 c ++ (meaning cs ++ 0 ∷ rest)
  meaning-entity k cs c rest r =
      ap (λ o. (written o ++ meaning cs) ++ 0 ∷ rest) r
      ∙ append_assoc (utf8 c) (meaning cs) (0 ∷ rest)

  grouped :
      (k : Bytes) (cs : List Chunk) (junk : Bytes)
      → render (entity k ∷ cs) ++ 0 ∷ junk ≡ 38 ∷ k ++ 59 ∷ (render cs ++ 0 ∷ junk)
  grouped k cs junk = ap (◌∷◌ 38) (
      append_assoc (k ++ 59 ∷ []) (render cs) (0 ∷ junk)
      ∙ append_assoc k (59 ∷ []) (render cs ++ 0 ∷ junk))

  -- One round at an entity.
  entity_round :
      (fuel length_0 pos : ℕ) (k tail left : Bytes) (c : ℕ)
      → replacement scan_hex scan_decimal utf8 k ≡ some c
      → All GoesOn k
      → length k ≤ 9
      → replace_entity length_0 pos (length k) (utf8 c) (38 ∷ k ++ 59 ∷ tail)
        ≡ some (utf8 c ++ (tail ++ left))
      → unescape_from scan_hex scan_decimal utf8 (suc fuel) length_0 pos (38 ∷ k ++ 59 ∷ tail)
        ≡ after (utf8 c) (
            unescape_from scan_hex scan_decimal utf8 fuel length_0
              (pos + length (utf8 c))
              (tail ++ left))
  unfolding unescape_from
  entity_round fuel length_0 pos k tail left c r g h made =
      rw (fill_bucket k tail 9 g h, r, made)
        (ap₂
          (λ done m.
            after done
              (unescape_from scan_hex scan_decimal utf8 fuel length_0 (pos + length (utf8 c)) m))
          (take-append (utf8 c) (tail ++ left)) (drop-append (utf8 c) (tail ++ left)))

  entity_rounds :
      (fuel length_0 pos : ℕ) (k : Bytes) (cs : List Chunk) (junk left rest : Bytes) (c : ℕ)
      → replacement scan_hex scan_decimal utf8 k ≡ some c
      → All GoesOn k
      → length k ≤ 9
      → replace_entity length_0 pos (length k) (utf8 c) (38 ∷ k ++ 59 ∷ (render cs ++ 0 ∷ junk))
        ≡ some (utf8 c ++ ((render cs ++ 0 ∷ junk) ++ left))
      → unescape_from scan_hex scan_decimal utf8 fuel length_0
          (pos + length (utf8 c))
          (render cs ++ 0 ∷ (junk ++ left))
        ≡ finished (meaning cs ++ 0 ∷ rest)
      → unescape_from scan_hex scan_decimal utf8
          (suc fuel)
          length_0
          pos
          (render (entity k ∷ cs) ++ 0 ∷ junk)
        ≡ finished (meaning (entity k ∷ cs) ++ 0 ∷ rest)
  entity_rounds fuel length_0 pos k cs junk left rest c r g h made more =
      ap (unescape_from scan_hex scan_decimal utf8 (suc fuel) length_0 pos) (grouped k cs junk)
      ∙ entity_round fuel length_0 pos k (render cs ++ 0 ∷ junk) left c r g h made
      ∙ ap (after (utf8 c)) (
          ap (unescape_from scan_hex scan_decimal utf8 fuel length_0 (pos + length (utf8 c)))
            (append_assoc (render cs) (0 ∷ junk) left)
          ∙ more)
      ∙ ap finished (sym (meaning-entity k cs c rest r))

  unescape_from-render :
      (cs : List Chunk) (junk : Bytes) (fuel length_0 pos : ℕ)
      → All IsWhole cs
      → length (render cs ++ 0 ∷ junk) ≤ fuel
      → length_0 + 1 ≡ pos + length (render cs ++ 0 ∷ junk)
      → length_0 < 2 ^ 63
      → (rest : Bytes) × (unescape_from scan_hex scan_decimal utf8 fuel length_0 pos
            (render cs ++ 0 ∷ junk)
          ≡ finished (meaning cs ++ 0 ∷ rest))
        × (length (meaning cs ++ 0 ∷ rest) ≡ length (render cs ++ 0 ∷ junk))
  unfolding unescape_from
  unescape_from-render cs junk zero length_0 pos a f e b =
      absurd (omega (arith, f, length-append (render cs) (0 ∷ junk)))
  unescape_from-render [] junk (suc fuel) length_0 pos a f e b = (junk, refl, refl)
  unescape_from-render (byte x ∷ cs) junk (suc fuel) length_0 pos a f e b =
      let more =
        unescape_from-render cs junk fuel length_0 (pos + 1) a.1 (omega arith) (omega arith) b in
      (more.0, rw (a.0.0, a.0.1) (ap (after (x ∷ [])) more.1), ap suc more.2)
  unescape_from-render (entity k ∷ cs) junk (suc fuel) length_0 pos a f e b =
      let c = a.0.0 in
      let tail : Bytes = render cs ++ 0 ∷ junk in
      let size = ap length (grouped k cs junk) ∙ length-entity k tail in
      let made =
        replace_entity_lem k (utf8 c) tail length_0 pos a.0.5
          (e ∙ ap (λ l. pos + length l) (grouped k cs junk)) b in
      let size_left = ap length (append_assoc (render cs) (0 ∷ junk) made.0) in
      let more =
        unescape_from-render cs (junk ++ made.0) fuel length_0 (pos + length (utf8 c)) a.1
          (omega (arith, size, length-append tail made.0, size_left, made.2, a.0.4))
          (omega (arith, size, length-append tail made.0, size_left, made.2)) b in
      (
        more.0,
        entity_rounds fuel length_0 pos k cs junk made.0 more.0 c a.0.1 a.0.2 a.0.3 made.1 more.1,
        ap length (meaning-entity k cs c more.0 a.0.1)
            ∙ omega (
              arith,
              length-append (utf8 c) (meaning cs ++ 0 ∷ more.0),
              more.2,
              size,
              size_left,
              length-append tail made.0,
              made.2,
            ),
      )

  -- A text of fewer than 2^63 bytes that is made of plain bytes and of entities that are recognised,
  -- end with ';' within the bucket, and have a replacement that is shorter: the loop ends without a
  -- fault, in a block of the same size that begins with what the text stands for and its terminator.
  pub unescape_entities-render :
      (cs : List Chunk)
      → All IsWhole cs
      → length (render cs) < 2 ^ 63
      → (rest : Bytes) × (unescape_entities scan_hex scan_decimal utf8 (render cs)
          ≡ finished (meaning cs ++ 0 ∷ rest))
        × (length (meaning cs ++ 0 ∷ rest) ≡ length (render cs) + 1)
  unfolding unescape_entities
  unescape_entities-render cs a b =
      let size = length-append (render cs) (0 ∷ []) in
      let made =
        unescape_from-render cs [] (length (render cs) + 1) (length (render cs)) 0 a
          (omega (arith, size)) (omega (arith, size)) b in
      (made.0, made.1, omega (arith, made.2, size))
