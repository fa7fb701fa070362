-- ===== src/Protocol/Ascii/Lanes.antt =====
-- What the vector tests of skipAsciiAvx2 and skipAsciiNeon say of the lanes.
use eiows.Common.{
  ℕ, zero, suc, ◌+◌, ◌*◌, ◌/◌, ◌^◌, ◌≤◌, ◌<◌, bit_or, ◌≡◌, refl, ap, true, false, [], ◌∷◌, ◌++◌,
  arith, ltb, Bytes, IsByte, All, length, drop, agree_below, agree_below→eq,
}
use eiows.Common.Bits.{bit_or_step}
use native.Mathlib.Nat.{pow-suc}
use eiows.Protocol.Ascii.{high_bit, skip_ascii, movemask, trailing_zeros, lanes_or, lanes_max}

abbrev pub IsAscii : ℕ → Type 0
IsAscii b = b < 128

high_bit_table : agree_below high_bit (λ b. ltb 127 b) 256 ≡ true
unfolding agree_below
high_bit_table = refl

pub high_bit-byte : (b : ℕ) → IsByte b → high_bit b ≡ ltb 127 b
high_bit-byte b h = agree_below→eq high_bit (λ b. ltb 127 b) 256 high_bit_table b h

-- No bit of the mask is set only if all the lanes are ASCII.
pub movemask-zero : (bs : Bytes) → movemask bs ≡ 0 → All IsAscii bs
unfolding movemask
movemask-zero [] e = tt
movemask-zero (b ∷ bs) e = (omega arith, movemask-zero bs (omega arith))

-- Behind ASCII bytes the scan goes on.
pub skip_ascii-append :
    (bs rest : Bytes) → All IsAscii bs → skip_ascii (bs ++ rest) ≡ skip_ascii rest
unfolding skip_ascii
skip_ascii-append [] rest h = refl
skip_ascii-append (b ∷ bs) rest (h, hs) =
    ground (arith, high_bit-byte b (omega arith), skip_ascii-append bs rest hs)

shifted : (b m : ℕ) → IsByte b → (b / 128 + 2 * m) / 2 ≡ m
shifted b m h = omega arith

-- The lowest set bit is the first lane that is not ASCII.
pub drop-trailing_zeros :
    (width : ℕ) (bs rest : Bytes)
    → length bs ≡ width
    → All IsByte bs
    → 0 < movemask bs
    → drop (trailing_zeros width (movemask bs)) (bs ++ rest) ≡ skip_ascii (bs ++ rest)
unfolding movemask trailing_zeros skip_ascii
drop-trailing_zeros zero [] rest e h p = absurd (omega arith)
drop-trailing_zeros zero (b ∷ bs) rest e h p = absurd (omega arith)
drop-trailing_zeros (suc width) [] rest e h p = absurd (omega arith)
drop-trailing_zeros (suc width) (b ∷ bs) rest e (h, hs) p = ground (
  arith,
  high_bit-byte b h,
  ap (trailing_zeros width) (shifted b (movemask bs) h),
  drop-trailing_zeros width bs rest,
)

or-digit_le : (a b : ℕ) → a / 2 ≤ bit_or (a / 2) (b / 2) → a ≤ bit_or a b
or-digit_le a b h = omega (arith, bit_or_step a b)

-- `|` sets no bit to 0.
le-bit_or : (k a b : ℕ) → a < 2 ^ k → a ≤ bit_or a b
le-bit_or zero a b h = omega arith
le-bit_or (suc k) a b h = or-digit_le a b (le-bit_or k (a / 2) (b / 2) (omega (arith, pow-suc 2 k)))

le-bit_or_right : (k a b : ℕ) → b < 2 ^ k → b ≤ bit_or a b
le-bit_or_right zero a b h = omega arith
le-bit_or_right (suc k) a b h =
    omega (arith, bit_or_step a b, le-bit_or_right k (a / 2) (b / 2) (omega (arith, pow-suc 2 k)))

bit_or-lt : (k a b : ℕ) → a < 2 ^ k → b < 2 ^ k → bit_or a b < 2 ^ k
bit_or-lt zero zero zero h h' = omega arith
bit_or-lt zero (suc a) b h h' = absurd (omega arith)
bit_or-lt zero zero (suc b) h h' = absurd (omega arith)
bit_or-lt (suc k) a b h h' =
    omega
      (arith, bit_or_step a b, pow-suc 2 k, bit_or-lt k (a / 2) (b / 2) (omega arith) (omega arith))

pub lanes_or-IsByte : (xs ys : Bytes) → All IsByte xs → All IsByte ys → All IsByte (lanes_or xs ys)
unfolding lanes_or
lanes_or-IsByte [] ys h k = tt
lanes_or-IsByte (x ∷ xs) [] h k = tt
lanes_or-IsByte (x ∷ xs) (y ∷ ys) h k =
    (bit_or-lt 8 x y (omega arith) (omega arith), lanes_or-IsByte xs ys h.1 k.1)

pub length-lanes_or : (xs ys : Bytes) → length xs ≡ length ys → length (lanes_or xs ys) ≡ length ys
unfolding lanes_or
length-lanes_or [] [] e = refl
length-lanes_or [] (y ∷ ys) e = absurd (omega arith)
length-lanes_or (x ∷ xs) [] e = absurd (omega arith)
length-lanes_or (x ∷ xs) (y ∷ ys) e = ap suc (length-lanes_or xs ys (omega arith))

-- Two vectors are ASCII where their `|` is.
pub lanes_or-IsAscii :
    (xs ys : Bytes)
    → length xs ≡ length ys
    → All IsByte xs
    → All IsByte ys
    → All IsAscii (lanes_or xs ys)
    → All IsAscii xs × All IsAscii ys
unfolding lanes_or
lanes_or-IsAscii [] [] e h k a = (tt, tt)
lanes_or-IsAscii [] (y ∷ ys) e h k a = absurd (omega arith)
lanes_or-IsAscii (x ∷ xs) [] e h k a = absurd (omega arith)
lanes_or-IsAscii (x ∷ xs) (y ∷ ys) e h k a =
    let (ih, ih') = lanes_or-IsAscii xs ys (omega arith) h.1 k.1 a.1 in
    (
      (omega (arith, le-bit_or 8 x y (omega arith)), ih),
      (omega (arith, le-bit_or_right 8 x y (omega arith)), ih'),
    )

lanes_max-lt : (n : ℕ) (bs : Bytes) → All (λ b. b < suc n) bs → lanes_max bs < suc n
unfolding lanes_max
lanes_max-lt n [] h = omega arith
lanes_max-lt n (b ∷ bs) h = omega (arith, lanes_max-lt n bs h.1)

lanes_max-below : (n : ℕ) (bs : Bytes) → lanes_max bs < n → All (λ b. b < n) bs
unfolding lanes_max
lanes_max-below n [] h = tt
lanes_max-below n (b ∷ bs) h = (omega arith, lanes_max-below n bs (omega arith))

-- No lane has its top bit set if the largest one has not.
pub lanes_max-IsAscii :
    (bs : Bytes) → All IsByte bs → high_bit (lanes_max bs) ≡ false → All IsAscii bs
lanes_max-IsAscii bs h e =
    lanes_max-below 128 bs (ground (arith, high_bit-byte (lanes_max bs), lanes_max-lt 255 bs h))
