-- ===== src/Unescape/Examples.antt =====
-- Short texts, as instances of the theorems on libsocialweb/sw-utils.c.
use native.Mathlib.Nat.{one-le-pow}
use libsocialweb_flickr_oaut.Unescape.Numbers.{unsigned_safe, IsDocumented, signed_reference_faults}
use libsocialweb_flickr_oaut.Unescape.Decode.{unescape_entities-render, meaning, IsWhole}
use libsocialweb_flickr_oaut.Unescape.Chunks.{entity, render, byte, Chunk}
use libsocialweb_flickr_oaut.Unescape.{
  finished, number, fault, same_bytes, unescape_entities, replacement, Bytes,
}
use libsocialweb_flickr_oaut.Prelude.{
  suc, ◌<◌, ◌+◌, length, ◌-◌, ◌*◌, ◌^◌, ◌&&◌, some, ltb, ◌==◌, leb, if◌then◌else◌, All, ℕ, List, [],
  ◌∷◌, ◌++◌, ◌≡◌, refl, arith,
}

-- A reading of digits from the left, and -1 as sscanf has it.
abbrev digits : ℕ → ℕ → Bytes → ℕ
digits base n [] = n
digits base n (b ∷ bs) = if leb 48 b && ltb b 58 then digits base (base * n + (b - 48)) bs else n

abbrev scan : ℕ → Bytes → ℕ
scan base [] = 0
scan base (b ∷ bs) = if b == 45 then 2 ^ 32 - 1 else digits base 0 (b ∷ bs)

-- The sizes of UTF-8, with bytes that stand for any character.
abbrev encode : ℕ → Bytes
encode c =
    if ltb c 128
    then c ∷ []
    else (if ltb c 2048
        then 194 ∷ 128 ∷ []
        else (if ltb c 65536 then 226 ∷ 128 ∷ 128 ∷ [] else 252 ∷ 128 ∷ 128 ∷ 128 ∷ 128 ∷ 128 ∷ []))

-- a&lt;b&#233;
abbrev chunks : List Chunk
chunks = byte 97 ∷ entity (108 ∷ 116 ∷ []) ∷ byte 98 ∷ entity (35 ∷ 50 ∷ 51 ∷ 51 ∷ []) ∷ []

known_lt : replacement (scan 16) (scan 10) encode (108 ∷ 116 ∷ []) ≡ some 60
unfolding replacement same_bytes
known_lt = refl

known_233 : replacement (scan 16) (scan 10) encode (35 ∷ 50 ∷ 51 ∷ 51 ∷ []) ≡ some 233
unfolding replacement same_bytes number
known_233 = refl

chunks-IsWhole : All (IsWhole (scan 16) (scan 10) encode) chunks
chunks-IsWhole = (
  (refl, refl),
  (
    (60, known_lt, (refl, (refl, tt)), omega arith, omega arith, omega arith),
    (
      (refl, refl),
      (
        (233, known_233, (refl, (refl, (refl, (refl, tt)))), omega arith, omega arith, omega arith),
        tt,
      ),
    ),
  ),
)

unescape_entities-render_example :
    (rest : Bytes) × (unescape_entities (scan 16) (scan 10) encode (render chunks)
      ≡ finished (meaning (scan 16) (scan 10) encode chunks ++ 0 ∷ rest))
    × (length (meaning (scan 16) (scan 10) encode chunks ++ 0 ∷ rest) ≡ length (render chunks) + 1)
unescape_entities-render_example =
    unescape_entities-render (scan 16) (scan 10) encode chunks chunks-IsWhole (omega arith)

signed_reference_faults_example :
    unescape_entities (scan 16) (scan 10) encode (120 ∷ 38 ∷ 35 ∷ 45 ∷ 49 ∷ []) ≡ fault
signed_reference_faults_example =
    signed_reference_faults (scan 16) (scan 10) encode (120 ∷ []) ((refl, refl), tt) refl refl

-- A reading of one digit, and of nothing longer.
abbrev scan_one : Bytes → ℕ
scan_one [] = 0
scan_one (b ∷ []) = if leb 48 b && ltb b 58 then b - 48 else 0
scan_one (b ∷ c ∷ bs) = 0

scan_one_hex : (ds : Bytes) → scan_one ds < 16 ^ length ds
scan_one_hex [] = omega arith
scan_one_hex (b ∷ []) = ground arith
scan_one_hex (b ∷ c ∷ bs) = one-le-pow (suc (suc (length bs))) 16 (omega arith)

scan_one_decimal : (ds : Bytes) → scan_one ds < 10 ^ length ds
scan_one_decimal [] = omega arith
scan_one_decimal (b ∷ []) = ground arith
scan_one_decimal (b ∷ c ∷ bs) = one-le-pow (suc (suc (length bs))) 10 (omega arith)

scan_one-IsDocumented : IsDocumented scan_one scan_one encode
scan_one-IsDocumented = record {
  hex_bound = λ ds a. scan_one_hex ds;
  decimal_bound = λ ds a. scan_one_decimal ds;
  some_byte = λ c. ground arith;
  one_byte = λ c h. ground arith;
  two_bytes = λ c h. ground arith;
  three_bytes = λ c h. ground arith;
  six_bytes = λ c. ground arith;
}

-- &#9;&amp&
unsigned_safe_example :
    (block : Bytes) × (unescape_entities scan_one scan_one encode
        (38 ∷ 35 ∷ 57 ∷ 59 ∷ 38 ∷ 97 ∷ 109 ∷ 112 ∷ 38 ∷ [])
      ≡ finished block)
    × (length block ≡ 10)
unsigned_safe_example =
    unsigned_safe scan_one-IsDocumented (38 ∷ 35 ∷ 57 ∷ 59 ∷ 38 ∷ 97 ∷ 109 ∷ 112 ∷ 38 ∷ [])
      (refl, (refl, (refl, (refl, (refl, (refl, (refl, (refl, (refl, tt))))))))) (omega arith)
