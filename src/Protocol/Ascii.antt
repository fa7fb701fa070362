-- ===== src/Protocol/Ascii.antt =====
-- skipAsciiAvx2 and skipAsciiNeon of uWebSockets/src/WebSocketProtocol.h, with the vector
-- instructions that they use written as functions on lists of lanes, first lane first.
pub mod Lanes
pub mod Scan
pub mod Skip
use eiows.Common.{
  ℕ, zero, suc, ◌+◌, ◌*◌, ◌/◌, ◌%◌, bit_and, bit_or, Bool, true, false, not, List, [], ◌∷◌, leb,
  ltb, ◌==◌, if◌then◌else◌, Bytes, length, take, drop,
}
use Prim.Native.Nat.{max}

-- Which vector code the build has and the processor runs: `scalar` is also an AVX2 build on a
-- processor for which hasAvx2() is false.
pub data Simd : Type 0 where
  scalar avx2 neon : Simd

-- `*s & 0x80`
abbrev pub high_bit : ℕ → Bool
high_bit b = not (bit_and b 0x80 == 0)

-- while (s != e && !(*s & 0x80)) s++;
pub skip_ascii : Bytes → Bytes
skip_ascii [] = []
skip_ascii (b ∷ s) = if high_bit b then b ∷ s else skip_ascii s

-- _mm256_movemask_epi8: bit i is the top bit of lane i.
pub movemask : Bytes → ℕ
movemask [] = 0
movemask (b ∷ bs) = b / 128 + 2 * movemask bs

-- __builtin_ctz, over at most so many bits.
pub trailing_zeros : ℕ → ℕ → ℕ
trailing_zeros zero n = 0
trailing_zeros (suc width) n =
    let more = trailing_zeros width (n / 2) in if n % 2 == 1 then 0 else suc more

pub skip_ascii_avx2 : ℕ → Bytes → Bytes
skip_ascii_avx2 zero s = skip_ascii s
skip_ascii_avx2 (suc fuel) s =
    let high_bits = movemask (take 32 s) in
    let rest = skip_ascii_avx2 fuel (drop 32 s) in
    if leb 32 (length s)
    then if not (high_bits == 0) then drop (trailing_zeros 32 high_bits) s else rest
    else skip_ascii s

-- vorrq_u8
pub lanes_or : Bytes → Bytes → Bytes
lanes_or (a ∷ as') (b ∷ bs) = bit_or a b ∷ lanes_or as' bs
lanes_or _ _ = []

-- vmaxvq_u8
pub lanes_max : Bytes → ℕ
lanes_max [] = 0
lanes_max (b ∷ bs) = max b (lanes_max bs)

-- The loop in steps of 16 bytes.
pub skip_ascii_neon16 : ℕ → Bytes → Bytes
skip_ascii_neon16 zero s = skip_ascii s
skip_ascii_neon16 (suc fuel) s =
    let rest = skip_ascii_neon16 fuel (drop 16 s) in
    if leb 16 (length s)
    then if high_bit (lanes_max (take 16 s)) then skip_ascii s else rest
    else skip_ascii s

-- vorrq_u8 of four vectors at s, s + 16, s + 32 and s + 48.
pub combined64 : Bytes → Bytes
combined64 s =
    lanes_or (lanes_or (take 16 s) (take 16 (drop 16 s)))
      (lanes_or (take 16 (drop 32 s)) (take 16 (drop 48 s)))

-- The loop in steps of 64 bytes, and the two that follow it.
pub skip_ascii_neon : ℕ → Bytes → Bytes
skip_ascii_neon zero s = skip_ascii_neon16 (length s) s
skip_ascii_neon (suc fuel) s =
    let rest = skip_ascii_neon fuel (drop 64 s) in
    if leb 64 (length s)
    then if high_bit (lanes_max (combined64 s)) then skip_ascii_neon16 (length s) s else rest
    else skip_ascii_neon16 (length s) s
