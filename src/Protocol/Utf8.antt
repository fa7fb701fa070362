-- ===== src/Protocol/Utf8.antt =====
-- isValidUtf8 of uWebSockets/src/WebSocketProtocol.h: the range [s, e) is a list of bytes.
pub mod Scalars
pub mod Sequences
pub mod Correct
use eiows.Common.{
  ℕ, zero, suc, ◌+◌, ◌*◌, ◌^◌, bit_and, Bool, true, false, not, ◌&&◌, ◌||◌, Option, none, some,
  List, [], ◌∷◌, leb, ltb, ◌==◌, if◌then◌else◌, Bytes, length, drop,
}
use eiows.Protocol.Ascii.{Simd, scalar, avx2, neon, skip_ascii, skip_ascii_avx2, skip_ascii_neon}

-- memcpy of four bytes into a uint32_t, on a little-endian machine.
abbrev pub ascii_word : ℕ → ℕ → ℕ → ℕ → ℕ
ascii_word b0 b1 b2 b3 = 2 ^ 24 * b3 + (2 ^ 16 * b2 + (2 ^ 8 * b1 + b0))

-- s + 4 <= e && (asciiWord & 0x80808080) == 0
pub is_ascii_word : Bytes → Bool
is_ascii_word (b0 ∷ b1 ∷ b2 ∷ b3 ∷ _) = bit_and (ascii_word b0 b1 b2 b3) 0x80808080 == 0
is_ascii_word _ = false

-- The step over an ASCII word; the flag is useAvx2Ascii, useNeonAscii.
pub skip_word : Simd → Bool → Bytes → Bytes
skip_word avx2 true s = skip_ascii_avx2 (length s) s
skip_word neon true s = skip_ascii_neon (length s) s
skip_word _ _ s = drop 4 s

-- (s[i] & 0xc0) != 0x80
abbrev pub not_trail : ℕ → Bool
not_trail b = not (bit_and b 0xc0 == 0x80)

-- The sequence of two bytes that `s0` begins: what follows it, or `return false`.
pub two_bytes : ℕ → Bytes → Option Bytes
two_bytes s0 (s1 ∷ s) = if not_trail s1 || bit_and s0 0xfe == 0xc0 then none else some s
two_bytes s0 _ = none

pub three_bytes : ℕ → Bytes → Option Bytes
three_bytes s0 (s1 ∷ s2 ∷ s) =
    if not_trail s1
      || not_trail s2
      || (s0 == 0xe0 && bit_and s1 0xe0 == 0x80)
      || (s0 == 0xed && bit_and s1 0xe0 == 0xa0)
    then none
    else some s
three_bytes s0 _ = none

pub four_bytes : ℕ → Bytes → Option Bytes
four_bytes s0 (s1 ∷ s2 ∷ s3 ∷ s) =
    if not_trail s1
      || not_trail s2
      || not_trail s3
      || (s0 == 0xf0 && bit_and s1 0xf0 == 0x80)
      || (s0 == 0xf4 && ltb 0x8f s1)
      || ltb 0xf4 s0
    then none
    else some s
four_bytes s0 _ = none

pub multibyte : ℕ → Bytes → Option Bytes
multibyte s0 s =
    if bit_and s0 0x60 == 0x40
    then two_bytes s0 s
    else if bit_and s0 0xf0 == 0xe0
    then three_bytes s0 s
    else if bit_and s0 0xf8 == 0xf0
    then four_bytes s0 s
    else none

-- The branch behind the inner `while` over ASCII bytes; an empty rest is its `return true`.
pub after_ascii : Bytes → Option Bytes
after_ascii [] = some []
after_ascii (s0 ∷ s) = multibyte s0 s

-- One round of the loop: what is left of the text, or `return false`.
pub utf8_round : Simd → Bool → Bytes → Option Bytes
utf8_round simd wide s =
    if is_ascii_word s then some (skip_word simd wide s) else after_ascii (skip_ascii s)

pub utf8_loop : ℕ → Simd → Bool → Bytes → Bool
utf8_loop fuel simd wide [] = true
utf8_loop zero simd wide (b ∷ s) = false
utf8_loop (suc fuel) simd wide (b ∷ s) = elim (utf8_round simd wide (b ∷ s)) [
  | none ↦ false
  | some rest ↦ utf8_loop fuel simd wide rest
]

-- Each round takes a byte at least, so `length s` rounds are enough.
unfoldable pub is_valid_utf8 : Simd → Bytes → Bool
unfolding utf8_loop utf8_round is_ascii_word skip_word after_ascii multibyte two_bytes three_bytes
    four_bytes
is_valid_utf8 simd s = utf8_loop (length s) simd (leb 64 (length s)) s
