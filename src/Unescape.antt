-- ===== src/Unescape.antt =====
-- libsocialweb/sw-utils.c, sw_unescape_entities: the entities of a text are replaced in its own
-- memory. A block of memory is the list of its bytes, and what is read or written beyond its end is a
-- fault. sscanf with "%x" and with "%u" (0 where nothing is read), and g_unichar_to_utf8, are
-- arguments; the last check of the text only writes to the log.
pub mod Chunks
pub mod Decode
pub mod Safety
pub mod Numbers
mod Examples
use libsocialweb_flickr_oaut.Prelude.{
  ℕ, zero, suc, ◌+◌, ◌-◌, ◌^◌, ◌%◌, List, [], ◌∷◌, ◌++◌, Option, none, some, Bool, true, false,
  ◌&&◌, ◌||◌, not, ltb, ◌==◌, if◌then◌else◌, length, take, drop,
}

abbrev pub Bytes : Type 0
Bytes = List ℕ

pub data Outcome : Type 0 where
  -- the block afterwards
  finished : Bytes → Outcome
  fault : Outcome
  out_of_fuel : Outcome

-- What the loop has left behind it stays.
abbrev pub after : Bytes → Outcome → Outcome
after l (finished m) = finished (l ++ m)
after l fault = fault
after l out_of_fuel = out_of_fuel

-- The loop that fills the bucket, with room for `n` more; `none` is a read beyond the block.
unfoldable pub fill : ℕ → Bytes → Option Bytes
fill n [] = none
fill zero (b ∷ rest) = some []
fill (suc n) (b ∷ rest) =
    if b == 59 || b == 0
    then some []
    else (elim (fill n rest) [ none ↦ none | some bucket ↦ some (b ∷ bucket) ])

-- `g_str_equal`
unfoldable pub same_bytes : Bytes → Bytes → Bool
same_bytes [] [] = true
same_bytes [] (c ∷ cs) = false
same_bytes (b ∷ bs) [] = false
same_bytes (b ∷ bs) (c ∷ cs) = b == c && same_bytes bs cs

-- `g_memmove (p + d, p + s, n)` on the block from `p` on, for d not above s.
unfoldable pub memmove : ℕ → ℕ → ℕ → Bytes → Option Bytes
memmove d s n m =
    if ltb (length m) (s + n)
    then none
    else some (take d m ++ (take n (drop s m) ++ drop (d + n) m))

-- The number of bytes after the entity, with the terminator, on a 64-bit `size_t`.
abbrev pub bytes_after : ℕ → ℕ → ℕ → ℕ
bytes_after length_0 pos bucket_i =
    ((length_0 + 2 ^ 64 - (pos + bucket_i + 2)) % 2 ^ 64 + 1) % 2 ^ 64

-- The block from `p` on, when the replacement `u` is written and the rest has followed.
unfoldable pub replace_entity : ℕ → ℕ → ℕ → Bytes → Bytes → Option Bytes
replace_entity length_0 pos bucket_i u m =
    let written = u ++ drop (length u) m in
    if ltb (length m) (length u)
    then none
    else (if ltb (length u) (bucket_i + 2)
        then memmove (length u) (bucket_i + 2) (bytes_after length_0 pos bucket_i) written
        else some written)

module _ (scan_hex scan_decimal : Bytes → ℕ) (utf8 : ℕ → Bytes) where
  -- A reference to a number: '#' is 35, 'x' is 120.
  unfoldable pub number : Bytes → Option ℕ
  number [] = none
  number (b ∷ []) = if b == 35 then some (scan_decimal []) else none
  number (b ∷ c ∷ digits) =
      if not (b == 35)
      then none
      else (if c == 120 then some (scan_hex digits) else some (scan_decimal (c ∷ digits)))

  -- The replacement for a bucket: "quot", "amp", "apos", "lt", "gt", or a number.
  unfoldable pub replacement : Bytes → Option ℕ
  replacement bucket =
      if same_bytes bucket (113 ∷ 117 ∷ 111 ∷ 116 ∷ [])
      then some 34
      else (if same_bytes bucket (97 ∷ 109 ∷ 112 ∷ [])
          then some 38
          else (if same_bytes bucket (97 ∷ 112 ∷ 111 ∷ 115 ∷ [])
              then some 39
              else (if same_bytes bucket (108 ∷ 116 ∷ [])
                  then some 60
                  else (if same_bytes bucket (103 ∷ 116 ∷ []) then some 62 else number bucket))))

  -- The loop of `sw_unescape_entities`, from the byte at `pos` on; `length_0` is the length that the
  -- text had at first. The fuel is the size of the block: each round leaves a byte behind.
  unfoldable pub unescape_from : ℕ → ℕ → ℕ → Bytes → Outcome
  unescape_from zero length_0 pos m = out_of_fuel
  unescape_from (suc fuel) length_0 pos [] = fault
  unescape_from (suc fuel) length_0 pos (b ∷ rest) =
      let next = after (b ∷ []) (unescape_from fuel length_0 (pos + 1) rest) in
      if b == 0
      then finished (b ∷ rest)
      else (if not (b == 38) then next else (elim (fill 9 rest) [
        | none ↦ fault
        | some bucket ↦ elim (replacement bucket) [
          | none ↦ next
          | some c ↦ elim (replace_entity length_0 pos (length bucket) (utf8 c) (b ∷ rest)) [
            | none ↦ fault
            | some m ↦
                after (take (length (utf8 c)) m)
                  (unescape_from fuel length_0 (pos + length (utf8 c)) (drop (length (utf8 c)) m))
          ]
        ]
      ]))

  -- `sw_unescape_entities` on a block of exactly the text and its terminator.
  unfoldable pub unescape_entities : Bytes → Outcome
  unescape_entities text = unescape_from (length text + 1) (length text) 0 (text ++ 0 ∷ [])
