-- ===== src/Unescape/Chunks.antt =====
-- What the replacement of entities gives for a text of plain bytes and whole entities
-- (libsocialweb/sw-utils.c).
use mathlib.Core.Path.{ap₂}
use libsocialweb_flickr_oaut.Prelude.{
  ℕ, zero, suc, ◌+◌, ◌-◌, ◌^◌, ◌≤◌, ◌<◌, List, [], ◌∷◌, ◌++◌, some, true, false, ◌||◌, ltb, ◌==◌,
  length, length-append, drop, length-drop, drop-drop, drop-append, take-append, take_all, All, ◌≡◌,
  refl, sym, ap, ◌∙◌, arith,
}
use libsocialweb_flickr_oaut.Unescape.{Bytes, fill, memmove, replace_entity, bytes_after}

pub data Chunk : Type 0 where
  byte : ℕ → Chunk
  entity : Bytes → Chunk

-- '&' is 38 and ';' is 59.
abbrev pub render_one : Chunk → Bytes
render_one (byte b) = b ∷ []
render_one (entity k) = 38 ∷ k ++ 59 ∷ []

abbrev pub render : List Chunk → Bytes
render [] = []
render (c ∷ cs) = render_one c ++ render cs

-- A bucket stops at ';' and at the end of the text.
abbrev pub GoesOn : ℕ → Type 0
GoesOn b = (b == 59 || b == 0) ≡ false

pub fill_bucket :
    (k tail : Bytes) (n : ℕ) → All GoesOn k → length k ≤ n → fill n (k ++ 59 ∷ tail) ≡ some k
unfolding fill
fill_bucket [] tail zero a h = refl
fill_bucket [] tail (suc n) a h = refl
fill_bucket (b ∷ k) tail zero a h = ground arith
fill_bucket (b ∷ k) tail (suc n) a h = ground (arith, fill_bucket k tail n a.1)

drop_bucket : (k tail : Bytes) → drop (suc (length k)) (k ++ 59 ∷ tail) ≡ tail
unfolding drop
drop_bucket [] tail = refl
drop_bucket (b ∷ k) tail = drop_bucket k tail

pub length-entity : (k tail : Bytes) → length (38 ∷ k ++ 59 ∷ tail) ≡ length k + 2 + length tail
length-entity k tail = omega (arith, length-append k (59 ∷ tail))

drop_entity : (k tail : Bytes) → drop (length k + 2) (38 ∷ k ++ 59 ∷ tail) ≡ tail
drop_entity k tail =
    let e : length k + 2 ≡ suc (suc (length k)) = omega arith in
    rw e (unfold drop in drop_bucket k tail)

drop_past_append : (n : ℕ) (u m : Bytes) → length u ≤ n → drop n (u ++ drop (length u) m) ≡ drop n m
drop_past_append n u m h =
    let e : n ≡ length u + (n - length u) = omega arith in
    rw e (
      sym (drop-drop (n - length u) (length u) (u ++ drop (length u) m))
      ∙ ap (drop (n - length u)) (drop-append u (drop (length u) m))
      ∙ drop-drop (n - length u) (length u) m)

-- The replacement is written, the rest of the block follows it, and what the rest has not covered
-- stays: the last bytes of the block are there twice.
pub replace_entity-drop :
    (bucket_i length_0 pos : ℕ) (u m : Bytes)
    → length u ≤ bucket_i + 1
    → bucket_i + 2 ≤ length m
    → length_0 + 1 ≡ pos + length m
    → length_0 < 2 ^ 63
    → replace_entity length_0 pos bucket_i u m
      ≡ some (u ++ (drop (bucket_i + 2) m ++ drop (length u + (length m - (bucket_i + 2))) m))
unfolding replace_entity memmove
replace_entity-drop bucket_i length_0 pos u m s h e b =
    let n = length m - (bucket_i + 2) in
    let written : Bytes = u ++ drop (length u) m in
    let same_size : length written ≡ length m =
      omega (arith, length-append u (drop (length u) m), length-drop (length u) m) in
    let moved = drop_past_append (bucket_i + 2) u m (omega arith) in
    let left = drop_past_append (length u + n) u m (omega arith) in
    let size : bytes_after length_0 pos bucket_i ≡ n = omega arith in
    let here : ltb (length m) (length u) ≡ false = ground arith in
    let there : ltb (length u) (bucket_i + 2) ≡ true = ground arith in
    let inside : ltb (length written) (bucket_i + 2 + n) ≡ false = ground (arith, same_size) in
    rw (here, there, size, inside, moved, left, replace_entity, memmove)
      (ap some (
        ap₂ ◌++◌ (take-append u (drop (length u) m)) (
          ap (λ t. t ++ drop (length u + n) m)
            (take_all n (drop (bucket_i + 2) m) (length-drop (bucket_i + 2) m)))))

-- The entity gives way to its replacement, and the rest follows; as many bytes as the text has
-- become shorter are left over at the end of the block.
pub replace_entity_lem :
    (k u tail : Bytes) (length_0 pos : ℕ)
    → length u ≤ length k + 1
    → length_0 + 1 ≡ pos + length (38 ∷ k ++ 59 ∷ tail)
    → length_0 < 2 ^ 63
    → (junk : Bytes) × (replace_entity length_0 pos (length k) u (38 ∷ k ++ 59 ∷ tail)
        ≡ some (u ++ (tail ++ junk)))
      × (length u + length junk ≡ length k + 2)
replace_entity_lem k u tail length_0 pos s e b =
    let m : Bytes = 38 ∷ k ++ 59 ∷ tail in
    let size = length-entity k tail in
    let left = length u + (length m - (length k + 2)) in
    (
      drop left m,
      replace_entity-drop (length k) length_0 pos u m s (omega (arith, size)) e b
          ∙ ap (λ t. some (u ++ (t ++ drop left m))) (drop_entity k tail),
      omega (arith, length-drop left m, size),
    )
