-- ===== src/Protocol/Ascii/Skip.antt =====
-- The vector scans find the same place as the byte loop.
use eiows.Common.{
  ℕ, zero, suc, ◌≤◌, ◌<◌, ◌≡◌, refl, sym, ap, ◌∙◌, false, arith, Bool-cases, Bytes, IsByte, All,
  length, take, drop, take-append-drop, length-take, length-drop, All-take, All-drop, drop-drop,
  inl, inr,
}
use eiows.Protocol.Ascii.{
  high_bit, skip_ascii, movemask, trailing_zeros, skip_ascii_avx2, lanes_or, lanes_max,
  skip_ascii_neon16, combined64, skip_ascii_neon,
}
use eiows.Protocol.Ascii.Lanes.{
  IsAscii, movemask-zero, skip_ascii-append, drop-trailing_zeros, lanes_or-IsByte, length-lanes_or,
  lanes_or-IsAscii, lanes_max-IsAscii,
}

-- A block of ASCII bytes may be dropped.
skip_ascii-drop :
    (n : ℕ) (s : Bytes) → All IsAscii (take n s) → skip_ascii (drop n s) ≡ skip_ascii s
skip_ascii-drop n s h =
    sym (skip_ascii-append (take n s) (drop n s) h) ∙ ap skip_ascii (take-append-drop n s)

-- The scan stops at the first byte that is not ASCII, which the mask's lowest bit names.
drop-lowest :
    (s : Bytes)
    → All IsByte s
    → 32 ≤ length s
    → 0 < movemask (take 32 s)
    → drop (trailing_zeros 32 (movemask (take 32 s))) s ≡ skip_ascii s
drop-lowest s h l p =
    ap (drop (trailing_zeros 32 (movemask (take 32 s)))) (sym (take-append-drop 32 s))
    ∙ drop-trailing_zeros 32 (take 32 s) (drop 32 s) (omega (arith, length-take 32 s))
        (All-take IsByte 32 s h) p
    ∙ ap skip_ascii (take-append-drop 32 s)

-- skipAsciiAvx2 stops where the byte loop does.
pub skip_ascii_avx2_lem :
    (fuel : ℕ) (s : Bytes) → All IsByte s → skip_ascii_avx2 fuel s ≡ skip_ascii s
unfolding skip_ascii_avx2
skip_ascii_avx2_lem zero s h = refl
skip_ascii_avx2_lem (suc fuel) s h = ground (
  arith,
  drop-lowest s h,
  skip_ascii_avx2_lem fuel (drop 32 s) (All-drop IsByte 32 s h),
  λ (e : movemask (take 32 s) ≡ 0). skip_ascii-drop 32 s (movemask-zero (take 32 s) e),
)

skip_ascii_neon16_lem :
    (fuel : ℕ) (s : Bytes) → All IsByte s → skip_ascii_neon16 fuel s ≡ skip_ascii s
unfolding skip_ascii_neon16
skip_ascii_neon16_lem zero s h = refl
skip_ascii_neon16_lem (suc fuel) s h = elim (Bool-cases (high_bit (lanes_max (take 16 s)))) [
  | inl e ↦ ground arith
  | inr e ↦ ground (
    arith,
    skip_ascii_neon16_lem fuel (drop 16 s) (All-drop IsByte 16 s h),
    skip_ascii-drop 16 s (lanes_max-IsAscii (take 16 s) (All-take IsByte 16 s h) e),
  )
]

module _ (s : Bytes) (bytes : All IsByte s) (long : 64 ≤ length s) where
  lane : ℕ → Bytes
  lane n = take 16 (drop n s)

  length-lane : (n : ℕ) → n ≤ 48 → length (lane n) ≡ 16
  unfolding lane
  length-lane n h = omega (arith, length-take 16 (drop n s), length-drop n s)

  lane-IsByte : (n : ℕ) → All IsByte (lane n)
  unfolding lane
  lane-IsByte n = All-take IsByte 16 (drop n s) (All-drop IsByte n s bytes)

  -- The four vectors are ASCII where their combination is.
  combined64-IsAscii :
      high_bit (lanes_max (combined64 s)) ≡ false
      → All IsAscii (lane 0) × All IsAscii (lane 16) × All IsAscii (lane 32) × All IsAscii (lane 48)
  unfolding combined64 lane
  combined64-IsAscii e =
      let front = lanes_or-IsByte (lane 0) (lane 16) (lane-IsByte 0) (lane-IsByte 16) in
      let back = lanes_or-IsByte (lane 32) (lane 48) (lane-IsByte 32) (lane-IsByte 48) in
      let lanes = length-lane in
      let halves =
        lanes_or-IsAscii (lanes_or (lane 0) (lane 16)) (lanes_or (lane 32) (lane 48))
          (omega (
            arith,
            length-lanes_or (lane 0) (lane 16),
            length-lanes_or (lane 32) (lane 48),
            lanes 0,
            lanes 16,
            lanes 32,
            lanes 48,
          ))
          front back
          (lanes_max-IsAscii (combined64 s)
            (lanes_or-IsByte (lanes_or (lane 0) (lane 16)) (lanes_or (lane 32) (lane 48)) front
              back)
            e) in
      let ab =
        lanes_or-IsAscii (lane 0) (lane 16) (omega (arith, lanes 0, lanes 16)) (lane-IsByte 0)
          (lane-IsByte 16) halves.0 in
      let cd =
        lanes_or-IsAscii (lane 32) (lane 48) (omega (arith, lanes 32, lanes 48)) (lane-IsByte 32)
          (lane-IsByte 48) halves.1 in
      (ab.0, ab.1, cd.0, cd.1)

  skip_ascii-drop64 :
      high_bit (lanes_max (combined64 s)) ≡ false → skip_ascii (drop 64 s) ≡ skip_ascii s
  unfolding lane
  skip_ascii-drop64 e =
      let (a, b, c, d) = combined64-IsAscii e in
      ap skip_ascii (sym (drop-drop 16 48 s))
      ∙ skip_ascii-drop 16 (drop 48 s) d
      ∙ ap skip_ascii (sym (drop-drop 16 32 s))
      ∙ skip_ascii-drop 16 (drop 32 s) c
      ∙ ap skip_ascii (sym (drop-drop 16 16 s))
      ∙ skip_ascii-drop 16 (drop 16 s) b
      ∙ skip_ascii-drop 16 s a

-- skipAsciiNeon stops where the byte loop does.
pub skip_ascii_neon_lem :
    (fuel : ℕ) (s : Bytes) → All IsByte s → skip_ascii_neon fuel s ≡ skip_ascii s
unfolding skip_ascii_neon
skip_ascii_neon_lem zero s h = skip_ascii_neon16_lem (length s) s h
skip_ascii_neon_lem (suc fuel) s h = elim (Bool-cases (high_bit (lanes_max (combined64 s)))) [
  | inl e ↦ ground (arith, skip_ascii_neon16_lem (length s) s h)
  | inr e ↦ ground (
    arith,
    skip_ascii_neon16_lem (length s) s h,
    skip_ascii_neon_lem fuel (drop 64 s) (All-drop IsByte 64 s h),
    λ (l : 64 ≤ length s). skip_ascii-drop64 s h l e,
  )
]
