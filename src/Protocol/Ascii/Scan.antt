-- ===== src/Protocol/Ascii/Scan.antt =====
-- What the byte loop over ASCII bytes drops, and where it stops.
use eiows.Common.{
  ℕ, suc, ◌≤◌, ◌≡◌, inl, inr, refl, [], ◌∷◌, arith, ltb, Bool-cases, Bytes, IsByte, All, length,
  take, drop,
}
use eiows.Protocol.Ascii.{skip_ascii}
use eiows.Protocol.Ascii.Lanes.{IsAscii, high_bit-byte}

-- The scan drops a run of ASCII bytes.
pub skip_ascii-eq-drop :
    (s : Bytes) → All IsByte s → (n : ℕ) × All IsAscii (take n s) × (skip_ascii s ≡ drop n s)
unfolding skip_ascii
skip_ascii-eq-drop [] h = (0, tt, refl)
skip_ascii-eq-drop (b ∷ s) (h, hs) = elim (Bool-cases (ltb 127 b)) [
  | inl high ↦ (0, tt, rw (high_bit-byte b h, high))
  | inr low ↦
      let (n, ascii, e) = skip_ascii-eq-drop s hs in
      (suc n, (ground arith, ascii), rw (high_bit-byte b h, low) e)
]

pub length-skip_ascii : (s : Bytes) → length (skip_ascii s) ≤ length s
unfolding skip_ascii
length-skip_ascii [] = omega arith
length-skip_ascii (b ∷ s) = ground (arith, length-skip_ascii s)

pub length-skip_ascii-cons :
    (b : ℕ) (s : Bytes) → IsAscii b → length (skip_ascii (b ∷ s)) ≤ length s
unfolding skip_ascii
length-skip_ascii-cons b s h = ground (arith, high_bit-byte b, length-skip_ascii s)

-- Where the scan stops on a byte, that byte is not ASCII.
pub skip_ascii-head :
    (s : Bytes) (b : ℕ) (rest : Bytes) → All IsByte s → skip_ascii s ≡ b ∷ rest → 128 ≤ b
unfolding skip_ascii
skip_ascii-head [] b rest h e = absurd (cc e)
skip_ascii-head (x ∷ s) b rest (h, hs) e =
    ground (arith, high_bit-byte x h, skip_ascii-head s b rest hs)
