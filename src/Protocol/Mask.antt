-- ===== src/Protocol/Mask.antt =====
-- The masking functions of uWebSockets/src/WebSocketProtocol.h: unmaskAvx2, unmaskNeon,
-- unmaskImprecise, unmaskImpreciseCopyMask, unmaskInplace and rotateMask.
-- Each takes the bytes that it reads and returns those that it writes. The source writes over its
-- input, or four bytes in front of it; a byte is read before anything is written at its place.
pub mod Masked
pub mod Rotate
use eiows.Common.{
  ℕ, zero, suc, ◌+◌, ◌*◌, ◌/◌, bit_and, bit_xor, List, [], ◌∷◌, ◌++◌, leb, ◌==◌, if◌then◌else◌,
  Bytes, length, take, drop,
}
use eiows.Protocol.Ascii.{Simd, scalar, avx2, neon}

-- char mask[4]
pub record Mask : Type 0 where
  pub m0 : ℕ
  pub m1 : ℕ
  pub m2 : ℕ
  pub m3 : ℕ

-- mask[i], for i below 4
abbrev pub mask_at : Mask → ℕ → ℕ
mask_at mask i =
    if i == 0 then mask.m0 else if i == 1 then mask.m1 else if i == 2 then mask.m2 else mask.m3

-- mask[i] = v, for i below 4
abbrev pub set_mask : Mask → ℕ → ℕ → Mask
set_mask mask i v =
    if i == 0
    then record mask { m0 = v }
    else if i == 1
    then record mask { m1 = v }
    else if i == 2
    then record mask { m2 = v }
    else record mask { m3 = v }

-- for (index = i; ...; index++) ... ^ mask[index & 3]
pub unmask_bytes : Mask → ℕ → Bytes → Bytes
unmask_bytes mask i [] = []
unmask_bytes mask i (b ∷ s) = bit_xor b (mask_at mask (bit_and i 3)) ∷ unmask_bytes mask (i + 1) s

-- for (index = i; ...; index++) ... ^ mask[index], over less than four bytes
pub unmask_rest : Mask → ℕ → Bytes → Bytes
unmask_rest mask i [] = []
unmask_rest mask i (b ∷ s) = bit_xor b (mask_at mask i) ∷ unmask_rest mask (i + 1) s

-- while (length >= 4) ..., and the loop behind it
pub unmask_words : Mask → Bytes → Bytes
unmask_words mask (a ∷ b ∷ c ∷ d ∷ s) =
    bit_xor a mask.m0
    ∷ bit_xor b mask.m1
    ∷ bit_xor c mask.m2
    ∷ bit_xor d mask.m3
    ∷ unmask_words mask s
unmask_words mask s = unmask_rest mask 0 s

-- _mm256_set1_epi32 of the mask's four bytes, and the 16 bytes of unmaskNeon's maskBytes.
pub repeat_mask : ℕ → Mask → Bytes
repeat_mask zero mask = []
repeat_mask (suc n) mask = mask.m0 ∷ mask.m1 ∷ mask.m2 ∷ mask.m3 ∷ repeat_mask n mask

-- _mm256_xor_si256, veorq_u8
pub lanes_xor : Bytes → Bytes → Bytes
lanes_xor (a ∷ xs) (b ∷ ys) = bit_xor a b ∷ lanes_xor xs ys
lanes_xor _ _ = []

-- for (; i + 4 * words <= length; i += 4 * words), and the loop behind it
pub unmask_vectors : ℕ → ℕ → Mask → ℕ → Bytes → Bytes
unmask_vectors zero words mask i s = unmask_bytes mask i s
unmask_vectors (suc fuel) words mask i s =
    let block = lanes_xor (take (4 * words) s) (repeat_mask words mask) in
    let rest = unmask_vectors fuel words mask (i + 4 * words) (drop (4 * words) s) in
    if leb (4 * words) (length s) then block ++ rest else unmask_bytes mask i s

pub unmask_avx2 : Mask → Bytes → Bytes
unmask_avx2 mask s = unmask_vectors (length s) 8 mask 0 s

pub unmask_neon : Mask → Bytes → Bytes
unmask_neon mask s = unmask_vectors (length s) 4 mask 0 s

-- unmaskImprecise, and unmaskInplace, which has the same code with one pointer.
pub unmask : Simd → Mask → Bytes → Bytes
unmask avx2 mask s = if leb 64 (length s) then unmask_avx2 mask s else unmask_words mask s
unmask neon mask s = if leb 64 (length s) then unmask_neon mask s else unmask_words mask s
unmask scalar mask s = unmask_words mask s

pub rotate_mask : ℕ → Mask → Mask
rotate_mask offset mask =
    set_mask
      (set_mask
        (set_mask (set_mask mask (bit_and (0 + offset) 3) mask.m0) (bit_and (1 + offset) 3) mask.m1)
        (bit_and (2 + offset) 3) mask.m2)
      (bit_and (3 + offset) 3) mask.m3

-- The whole rest of a payload, as consumeContinuation unmasks it: n = remainingBytes >> 2 words,
-- then src[n * 4 + i] ^= mask[i].
pub unmask_remaining : Simd → Mask → Bytes → Bytes
unmask_remaining simd mask s =
    let n = length s / 4 in unmask simd mask (take (n * 4) s) ++ unmask_rest mask 0 (drop (n * 4) s)
