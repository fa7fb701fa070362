-- ===== src/Protocol/Utf8/Sequences.antt =====
-- The sequences of two to four bytes: the tests of isValidUtf8 as arithmetic, and what they accept.
use eiows.Common.{
  ℕ, ◌+◌, ◌*◌, ◌/◌, ◌%◌, ◌≤◌, ◌<◌, bit_and, ◌≡◌, inl, inr, refl, not, ◌&&◌, ◌||◌, none, some, [],
  ◌∷◌, ◌++◌, arith, ltb, ◌==◌, if◌then◌else◌, Bytes, IsByte, All, agree_below, agree_below→eq,
  Bool-cases,
}
use eiows.Protocol.Utf8.{two_bytes, three_bytes, four_bytes, multibyte}
use eiows.Protocol.Utf8.Scalars.{IsScalar, encode}

module _ (b : ℕ) (h : IsByte b) where
  lead_two : bit_and b 0x60 == 0x40 ≡ b / 32 % 4 == 2
  unfolding agree_below
  lead_two = agree_below→eq (λ x. bit_and x 0x60 == 0x40) (λ x. x / 32 % 4 == 2) 256 refl b h

  lead_three : bit_and b 0xf0 == 0xe0 ≡ b / 16 == 14
  unfolding agree_below
  lead_three = agree_below→eq (λ x. bit_and x 0xf0 == 0xe0) (λ x. x / 16 == 14) 256 refl b h

  lead_four : bit_and b 0xf8 == 0xf0 ≡ b / 8 == 30
  unfolding agree_below
  lead_four = agree_below→eq (λ x. bit_and x 0xf8 == 0xf0) (λ x. x / 8 == 30) 256 refl b h

  trail : bit_and b 0xc0 == 0x80 ≡ b / 64 == 2
  unfolding agree_below
  trail = agree_below→eq (λ x. bit_and x 0xc0 == 0x80) (λ x. x / 64 == 2) 256 refl b h

  overlong_two : bit_and b 0xfe == 0xc0 ≡ b / 2 == 96
  unfolding agree_below
  overlong_two = agree_below→eq (λ x. bit_and x 0xfe == 0xc0) (λ x. x / 2 == 96) 256 refl b h

  overlong_three : bit_and b 0xe0 == 0x80 ≡ b / 32 == 4
  unfolding agree_below
  overlong_three = agree_below→eq (λ x. bit_and x 0xe0 == 0x80) (λ x. x / 32 == 4) 256 refl b h

  surrogate : bit_and b 0xe0 == 0xa0 ≡ b / 32 == 5
  unfolding agree_below
  surrogate = agree_below→eq (λ x. bit_and x 0xe0 == 0xa0) (λ x. x / 32 == 5) 256 refl b h

  overlong_four : bit_and b 0xf0 == 0x80 ≡ b / 16 == 8
  unfolding agree_below
  overlong_four = agree_below→eq (λ x. bit_and x 0xf0 == 0x80) (λ x. x / 16 == 8) 256 refl b h

-- The three functions with their tests in arithmetic.
two_bytes_lem :
    (s0 s1 : ℕ) (s : Bytes)
    → IsByte s0
    → IsByte s1
    → two_bytes s0 (s1 ∷ s) ≡ (if not (s1 / 64 == 2) || s0 / 2 == 96 then none else some s)
unfolding two_bytes
two_bytes_lem s0 s1 s h h1 = rw (trail s1 h1, overlong_two s0 h)

three_bytes_lem :
    (s0 s1 s2 : ℕ) (s : Bytes)
    → IsByte s1
    → IsByte s2
    → three_bytes s0 (s1 ∷ s2 ∷ s) ≡ (
        if not (s1 / 64 == 2)
          || not (s2 / 64 == 2)
          || (s0 == 0xe0 && s1 / 32 == 4)
          || (s0 == 0xed && s1 / 32 == 5)
        then none
        else some s)
unfolding three_bytes
three_bytes_lem s0 s1 s2 s h1 h2 =
    rw (trail s1 h1, trail s2 h2, overlong_three s1 h1, surrogate s1 h1)

four_bytes_lem :
    (s0 s1 s2 s3 : ℕ) (s : Bytes)
    → IsByte s1
    → IsByte s2
    → IsByte s3
    → four_bytes s0 (s1 ∷ s2 ∷ s3 ∷ s) ≡ (
        if not (s1 / 64 == 2)
          || not (s2 / 64 == 2)
          || not (s3 / 64 == 2)
          || (s0 == 0xf0 && s1 / 16 == 8)
          || (s0 == 0xf4 && ltb 0x8f s1)
          || ltb 0xf4 s0
        then none
        else some s)
unfolding four_bytes
four_bytes_lem s0 s1 s2 s3 s h1 h2 h3 =
    rw (trail s1 h1, trail s2 h2, trail s3 h3, overlong_four s1 h1)

-- What the sequence stands for, if `multibyte` accepts it.
abbrev pub Decodes : Bytes → Bytes → Type 0
Decodes s rest = (c : ℕ) × IsScalar c × (s ≡ encode c ++ rest)

two_bytes_sound :
    (s0 : ℕ) (s rest : Bytes)
    → IsByte s0
    → All IsByte s
    → s0 / 32 ≡ 6
    → two_bytes s0 s ≡ some rest
    → Decodes (s0 ∷ s) rest
two_bytes_sound s0 [] rest h hs lead e = absurd (unfold two_bytes in cc e)
two_bytes_sound s0 (s1 ∷ s) rest h (h1, hs) lead e =
    let c = 64 * (s0 % 32) + s1 % 64 in
    (c, ground (arith, two_bytes_lem s0 s1 s h h1), ground (arith, two_bytes_lem s0 s1 s h h1))

three_bytes_sound :
    (s0 : ℕ) (s rest : Bytes)
    → IsByte s0
    → All IsByte s
    → s0 / 16 ≡ 14
    → three_bytes s0 s ≡ some rest
    → Decodes (s0 ∷ s) rest
three_bytes_sound s0 [] rest h hs lead e = absurd (unfold three_bytes in cc e)
three_bytes_sound s0 (s1 ∷ []) rest h hs lead e = absurd (unfold three_bytes in cc e)
three_bytes_sound s0 (s1 ∷ s2 ∷ s) rest h (h1, (h2, hs)) lead e =
    let c = 4096 * (s0 % 16) + 64 * (s1 % 64) + s2 % 64 in
    let shape = three_bytes_lem s0 s1 s2 s h1 h2 in
    (c, ground (arith, shape), ground (arith, shape))

four_bytes_sound :
    (s0 : ℕ) (s rest : Bytes)
    → IsByte s0
    → All IsByte s
    → s0 / 8 ≡ 30
    → four_bytes s0 s ≡ some rest
    → Decodes (s0 ∷ s) rest
four_bytes_sound s0 [] rest h hs lead e = absurd (unfold four_bytes in cc e)
four_bytes_sound s0 (s1 ∷ []) rest h hs lead e = absurd (unfold four_bytes in cc e)
four_bytes_sound s0 (s1 ∷ s2 ∷ []) rest h hs lead e = absurd (unfold four_bytes in cc e)
four_bytes_sound s0 (s1 ∷ s2 ∷ s3 ∷ s) rest h (h1, (h2, (h3, hs))) lead e =
    let c = 262144 * (s0 % 8) + 4096 * (s1 % 64) + 64 * (s2 % 64) + s3 % 64 in
    let shape = four_bytes_lem s0 s1 s2 s3 s h1 h2 h3 in
    (c, ground (arith, shape), ground (arith, shape))

-- Whatever the branches for lead bytes accept is the encoding of a scalar value.
pub multibyte_sound :
    (s0 : ℕ) (s rest : Bytes)
    → IsByte s0
    → All IsByte s
    → 128 ≤ s0
    → multibyte s0 s ≡ some rest
    → Decodes (s0 ∷ s) rest
unfolding multibyte
multibyte_sound s0 s rest h hs high e = elim (Bool-cases (s0 / 32 % 4 == 2)) [
  | inl two ↦ two_bytes_sound s0 s rest h hs (ground arith) (ground (arith, lead_two s0 h))
  | inr not_two ↦ elim (Bool-cases (s0 / 16 == 14)) [
    | inl three ↦
        three_bytes_sound s0 s rest h hs (ground arith)
          (ground (arith, lead_two s0 h, lead_three s0 h))
    | inr not_three ↦
        four_bytes_sound s0 s rest h hs
          (ground (arith, lead_two s0 h, lead_three s0 h, lead_four s0 h))
          (ground (arith, lead_two s0 h, lead_three s0 h, lead_four s0 h))
  ]
]

multibyte_two :
    (c : ℕ) (rest : Bytes)
    → 0x80 ≤ c
    → c < 0x800
    → multibyte (192 + c / 64) ((128 + c % 64) ∷ rest) ≡ some rest
unfolding multibyte
multibyte_two c rest lo hi =
    ground (arith, lead_two (192 + c / 64), two_bytes_lem (192 + c / 64) (128 + c % 64) rest)

multibyte_three :
    (c : ℕ) (rest : Bytes)
    → 0x800 ≤ c
    → c < 0x10000
    → IsScalar c
    → multibyte (224 + c / 4096) ((128 + c / 64 % 64) ∷ (128 + c % 64) ∷ rest) ≡ some rest
unfolding multibyte
multibyte_three c rest lo hi scalar = ground (
  arith,
  lead_two (224 + c / 4096),
  lead_three (224 + c / 4096),
  three_bytes_lem (224 + c / 4096) (128 + c / 64 % 64) (128 + c % 64) rest,
)

multibyte_four :
    (c : ℕ) (rest : Bytes)
    → 0x10000 ≤ c
    → c < 0x110000
    → multibyte
        (240 + c / 262144)
        ((128 + c / 4096 % 64) ∷ (128 + c / 64 % 64) ∷ (128 + c % 64) ∷ rest)
      ≡ some rest
unfolding multibyte
multibyte_four c rest lo hi = ground (
  arith,
  lead_two (240 + c / 262144),
  lead_three (240 + c / 262144),
  lead_four (240 + c / 262144),
  four_bytes_lem (240 + c / 262144) (128 + c / 4096 % 64) (128 + c / 64 % 64) (128 + c % 64) rest,
)

-- The encoding of a scalar value beyond ASCII is accepted, and only it is taken.
pub multibyte_complete :
    (c s0 : ℕ) (s rest : Bytes)
    → IsScalar c
    → s0 ∷ s ≡ encode c ++ rest
    → 128 ≤ s0
    → multibyte s0 s ≡ some rest
multibyte_complete c s0 s rest scalar e high =
    ground (arith, multibyte_two c rest, multibyte_three c rest, multibyte_four c rest)
