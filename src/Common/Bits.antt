-- ===== src/Common/Bits.antt =====
-- Laws of the native `bit_and`, `bit_or` and `bit_xor` at variables, from their digit recursion.
use Prim.Native.Nat.{
  ℕ, zero, suc, ◌+◌, ◌*◌, ◌/◌, ◌%◌, ◌^◌, ◌≤◌, ◌<◌, min, max, digits, bitwise, bit_and, bit_or,
  bit_xor, differ, bit_and-bitwise, bit_or-bitwise, bit_xor-bitwise,
}
use mathlib.Core.Path.{◌≡◌, refl, ap, ap₂}
use native.Mathlib.Nat.{le_refl, pow-suc}
use native.Mathlib.Omega.{arith}

-- The recursion's count of digits may be any number that is large enough.
module _ (z : ℕ → ℕ) (f : ℕ → ℕ → ℕ) where
  digits-count : (b a n m : ℕ) → a ≤ n → a ≤ m → digits z f n a b ≡ digits z f m a b
  digits-count b zero zero zero h k = refl
  digits-count b zero zero (suc m) h k = refl
  digits-count b zero (suc n) zero h k = refl
  digits-count b zero (suc n) (suc m) h k = refl
  digits-count b (suc a) zero m h k = absurd (omega arith)
  digits-count b (suc a) (suc n) zero h k = absurd (omega arith)
  digits-count b (suc a) (suc n) (suc m) h k =
      rw (digits-count (b / 2) (suc a / 2) n m (omega arith) (omega arith))

  bitwise-digit :
      (x y : ℕ)
      → bitwise z f (suc x) y ≡ f (suc x % 2) (y % 2) + bitwise z f (suc x / 2) (y / 2) * 2
  bitwise-digit x y =
      let half = suc x / 2 in
      omega (arith, digits-count (y / 2) half x half (omega arith) (le_refl _))

-- The lowest digit apart.
pub bit_and_step : (x y : ℕ) → bit_and x y ≡ bit_and (x / 2) (y / 2) * 2 + min (x % 2) (y % 2)
bit_and_step zero y = simp bit_and-bitwise (omega arith)
bit_and_step (suc x) y = simp bit_and-bitwise (omega (arith, bitwise-digit (λ _. 0) min x y))

differ_digit : (x y : ℕ) → x < 2 → y < 2 → differ x y ≡ (x + y) % 2
differ_digit zero y h k = omega arith
differ_digit (suc zero) zero h k = refl
differ_digit (suc zero) (suc zero) h k = refl
differ_digit (suc zero) (suc (suc y)) h k = absurd (omega arith)
differ_digit (suc (suc x)) y h k = absurd (omega arith)

pub bit_or_step : (x y : ℕ) → bit_or x y ≡ bit_or (x / 2) (y / 2) * 2 + max (x % 2) (y % 2)
bit_or_step zero y = simp bit_or-bitwise (omega arith)
bit_or_step (suc x) y = simp bit_or-bitwise (omega (arith, bitwise-digit (λ n. n) max x y))

pub bit_xor_step : (a b : ℕ) → bit_xor a b ≡ bit_xor (a / 2) (b / 2) * 2 + (a % 2 + b % 2) % 2
bit_xor_step zero b = simp bit_xor-bitwise (omega arith)
bit_xor_step (suc a) b = simp bit_xor-bitwise (
    omega (
      arith,
      bitwise-digit (λ y. y) differ a b,
      differ_digit (suc a % 2) (b % 2) (omega arith) (omega arith),
    ))

two_pow : (k x : ℕ) → 2 ^ suc k * x ≡ 2 * (2 ^ k * x)
two_pow k x = omega (arith, ap (λ (t : ℕ). t * x) (pow-suc 2 k))

one_part : (x : ℕ) → 2 ^ 0 * x + 0 ≡ x
one_part x = omega arith

parts-half : (k x r : ℕ) → (2 ^ suc k * x + r) / 2 ≡ 2 ^ k * x + r / 2
parts-half k x r = omega (arith, two_pow k x)

parts-digit : (k x r : ℕ) → (2 ^ suc k * x + r) % 2 ≡ r % 2
parts-digit k x r = omega (arith, two_pow k x)

-- Two numbers of a low and a high part each: `&` works on the parts.
pub bit_and_parts :
    (k x y r s : ℕ)
    → r < 2 ^ k
    → s < 2 ^ k
    → bit_and (2 ^ k * x + r) (2 ^ k * y + s) ≡ 2 ^ k * bit_and x y + bit_and r s
bit_and_parts zero x y zero zero h k =
    omega
      (arith, ap (λ (t : ℕ). bit_and t (2 ^ 0 * y + 0)) (one_part x), ap (bit_and x) (one_part y))
bit_and_parts zero x y (suc r) s h k = absurd (omega arith)
bit_and_parts zero x y zero (suc s) h k = absurd (omega arith)
bit_and_parts (suc k) x y r s h h' = omega (
  arith,
  bit_and_step (2 ^ suc k * x + r) (2 ^ suc k * y + s),
  bit_and_step r s,
  two_pow k (bit_and x y),
  parts-digit k x r,
  parts-digit k y s,
  ap₂ bit_and (parts-half k x r) (parts-half k y s),
  pow-suc 2 k,
  bit_and_parts k x y (r / 2) (s / 2) (omega arith) (omega arith),
)

bit_xor-half : (a b : ℕ) → bit_xor a b / 2 ≡ bit_xor (a / 2) (b / 2)
bit_xor-half a b = omega (arith, bit_xor_step a b)

-- The same mask twice leaves a number as it was.
pub bit_xor_cancel : (k a b : ℕ) → a < 2 ^ k → b < 2 ^ k → bit_xor (bit_xor a b) b ≡ a
bit_xor_cancel zero zero zero h h' = refl
bit_xor_cancel zero (suc a) b h h' = absurd (omega arith)
bit_xor_cancel zero zero (suc b) h h' = absurd (omega arith)
bit_xor_cancel (suc k) a b h h' = omega (
  arith,
  bit_xor_step a b,
  bit_xor_step (bit_xor a b) b,
  pow-suc 2 k,
  ap (λ (t : ℕ). bit_xor t (b / 2)) (bit_xor-half a b),
  bit_xor_cancel k (a / 2) (b / 2) (omega arith) (omega arith),
)

pub bit_xor-lt : (k a b : ℕ) → a < 2 ^ k → b < 2 ^ k → bit_xor a b < 2 ^ k
bit_xor-lt zero zero zero h h' = omega arith
bit_xor-lt zero (suc a) b h h' = absurd (omega arith)
bit_xor-lt zero zero (suc b) h h' = absurd (omega arith)
bit_xor-lt (suc k) a b h h' =
    omega (
      arith,
      bit_xor_step a b,
      pow-suc 2 k,
      bit_xor-lt k (a / 2) (b / 2) (omega arith) (omega arith),
    )
