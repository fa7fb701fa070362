-- ===== src/Protocol/Mask/Rotate.antt =====
-- rotateMask: the mask for what follows the part of a payload that has been received.
use eiows.Common.{
  ℕ, zero, suc, ◌+◌, ◌-◌, ◌%◌, ◌<◌, bit_and, bit_xor, ◌≡◌, refl, ap, ap₂, ◌∙◌, [], ◌∷◌, ◌++◌, arith,
  Bytes, length,
}
use eiows.Protocol.Ascii.{Simd}
use eiows.Protocol.Mask.{Mask, mask_at, rotate_mask, unmask}
use eiows.Protocol.Mask.Masked.{
  masked, masked-mod, masked-append, bit_and-three, unmask-masked, IsMask,
}

-- The mask from its byte `r` on, for r below 4.
abbrev turn : ℕ → Mask → Mask
turn zero mask = mask
turn (suc zero) mask = record { m0 = mask.m1; m1 = mask.m2; m2 = mask.m3; m3 = mask.m0 }
turn (suc (suc zero)) mask = record { m0 = mask.m2; m1 = mask.m3; m2 = mask.m0; m3 = mask.m1 }
turn _ mask = record { m0 = mask.m3; m1 = mask.m0; m2 = mask.m1; m3 = mask.m2 }

rotate_mask-turn : (r : ℕ) (mask : Mask) → r < 4 → rotate_mask (4 - r) mask ≡ turn r mask
unfolding rotate_mask
rotate_mask-turn zero mask h = refl
rotate_mask-turn (suc zero) mask h = refl
rotate_mask-turn (suc (suc zero)) mask h = refl
rotate_mask-turn (suc (suc (suc zero))) mask h = refl
rotate_mask-turn (suc (suc (suc (suc r)))) mask h = absurd (omega arith)

mask_at-turn :
    (r i : ℕ) (mask : Mask) → r < 4 → mask_at (turn r mask) (i % 4) ≡ mask_at mask ((i + r) % 4)
mask_at-turn zero i mask h = ground arith
mask_at-turn (suc zero) i mask h = ground arith
mask_at-turn (suc (suc zero)) i mask h = ground arith
mask_at-turn (suc (suc (suc zero))) i mask h = ground arith
mask_at-turn (suc (suc (suc (suc r)))) i mask h = absurd (omega arith)

masked-turn :
    (r i : ℕ) (mask : Mask) (s : Bytes) → r < 4 → masked (turn r mask) i s ≡ masked mask (i + r) s
unfolding masked
masked-turn r i mask [] h = refl
masked-turn r i mask (b ∷ s) h =
    ap₂ ◌∷◌ (ap (bit_xor b) (mask_at-turn r i mask h))
      (masked-turn r (i + 1) mask s h ∙ masked-mod mask (i + 1 + r) (i + r + 1) s (omega arith))

-- The rotation by 4 - (n & 3), as the parser makes it after n bytes.
pub rotate_mask-masked :
    (n : ℕ) (mask : Mask) (s : Bytes)
    → masked (rotate_mask (4 - bit_and n 3) mask) 0 s ≡ masked mask n s
rotate_mask-masked n mask s =
    rw (bit_and-three n, rotate_mask-turn (n % 4) mask (omega arith))
      (masked-turn (n % 4) 0 mask s (omega arith) ∙ masked-mod mask (0 + n % 4) n s (omega arith))

-- A payload may be unmasked in two parts, wherever it is cut, if the mask is rotated in between.
pub unmask-append :
    (simd : Simd) (mask : Mask) (xs ys : Bytes)
    → unmask simd mask (xs ++ ys)
      ≡ unmask simd mask xs ++ unmask simd (rotate_mask (4 - bit_and (length xs) 3) mask) ys
unmask-append simd mask xs ys =
    rw
      (
        unmask-masked simd mask (xs ++ ys),
        unmask-masked simd mask xs,
        unmask-masked simd (rotate_mask (4 - bit_and (length xs) 3) mask) ys,
        rotate_mask-masked (length xs) mask ys,
      )
      (masked-append mask 0 xs ys
        ∙ ap (λ t. masked mask 0 xs ++ t)
            (masked-mod mask (0 + length xs) (length xs) ys (omega arith)))

pub rotate_mask-IsMask :
    (n : ℕ) (mask : Mask) → IsMask mask → IsMask (rotate_mask (4 - bit_and n 3) mask)
rotate_mask-IsMask n mask h =
    rw (bit_and-three n, rotate_mask-turn (n % 4) mask (omega arith)) (turn-IsMask (n % 4) mask h)
  where
    turn-IsMask : (r : ℕ) (mask : Mask) → IsMask mask → IsMask (turn r mask)
    turn-IsMask zero mask h = h
    turn-IsMask (suc zero) mask h = omega arith
    turn-IsMask (suc (suc zero)) mask h = omega arith
    turn-IsMask _ mask h = omega arith
