-- ===== src/Protocol/Mask/Masked.antt =====
-- RFC 6455, section 5.3: byte i of the payload is exclusive-ored with byte i mod 4 of the mask.
-- The word loop and the vector loops do this.
use eiows.Common.{
  ℕ, zero, suc, ◌+◌, ◌*◌, ◌/◌, ◌%◌, ◌≤◌, bit_and, bit_xor, ◌≡◌, refl, sym, ap, ◌∙◌, [], ◌∷◌, ◌++◌,
  arith, Bytes, IsByte, All, length, take, drop, take-append-drop, length-take, length-drop,
}
use eiows.Common.Bits.{bit_and_step, bit_xor_cancel, bit_xor-lt}
use eiows.Protocol.Ascii.{Simd, scalar, avx2, neon}
use eiows.Protocol.Mask.{
  Mask, mask_at, unmask_bytes, unmask_rest, unmask_words, repeat_mask, lanes_xor, unmask_vectors,
  unmask_avx2, unmask_neon, unmask, unmask_remaining,
}

-- The payload from its byte `i` on, masked or unmasked.
unfoldable pub masked : Mask → ℕ → Bytes → Bytes
masked mask i [] = []
masked mask i (b ∷ s) = bit_xor b (mask_at mask (i % 4)) ∷ masked mask (i + 1) s

and_zero : (n a : ℕ) → a ≤ n → bit_and a 0 ≡ 0
and_zero zero zero h = refl
and_zero zero (suc a) h = absurd (omega arith)
and_zero (suc n) zero h = refl
and_zero (suc n) (suc a) h =
    omega (arith, bit_and_step (suc a) 0, and_zero n (suc a / 2) (omega arith))

pub bit_and-three : (a : ℕ) → bit_and a 3 ≡ a % 4
bit_and-three a = omega (
  arith,
  bit_and_step a 3,
  bit_and_step (a / 2) 1,
  and_zero (a / 2 / 2) (a / 2 / 2) (omega arith),
)

-- Only the position modulo 4 matters.
pub masked-mod :
    (mask : Mask) (i j : ℕ) (s : Bytes) → i % 4 ≡ j % 4 → masked mask i s ≡ masked mask j s
unfolding masked
masked-mod mask i j [] e = refl
masked-mod mask i j (b ∷ s) e = ground (arith, masked-mod mask (i + 1) (j + 1) s (omega arith))

pub length-masked : (mask : Mask) (i : ℕ) (s : Bytes) → length (masked mask i s) ≡ length s
unfolding masked
length-masked mask i [] = refl
length-masked mask i (b ∷ s) = ap suc (length-masked mask (i + 1) s)

pub masked-append :
    (mask : Mask) (i : ℕ) (xs ys : Bytes)
    → masked mask i (xs ++ ys) ≡ masked mask i xs ++ masked mask (i + length xs) ys
unfolding masked
masked-append mask i [] ys = masked-mod mask i (i + 0) ys (omega arith)
masked-append mask i (x ∷ xs) ys = ap (◌∷◌ (bit_xor x (mask_at mask (i % 4)))) (
    masked-append mask (i + 1) xs ys
    ∙ ap (λ t. masked mask (i + 1) xs ++ t)
        (masked-mod mask (i + 1 + length xs) (i + suc (length xs)) ys (omega arith)))

abbrev pub IsMask : Mask → Type 0
IsMask mask = IsByte mask.m0 × IsByte mask.m1 × IsByte mask.m2 × IsByte mask.m3

mask_at-IsByte : (mask : Mask) (i : ℕ) → IsMask mask → IsByte (mask_at mask i)
mask_at-IsByte mask i h = ground arith

-- Masking is its own inverse.
pub masked-masked :
    (mask : Mask) (i : ℕ) (s : Bytes)
    → IsMask mask
    → All IsByte s
    → masked mask i (masked mask i s) ≡ s
unfolding masked
masked-masked mask i [] m h = refl
masked-masked mask i (b ∷ s) m (h, hs) = ground (
  arith,
  bit_xor_cancel 8 b (mask_at mask (i % 4)) h (mask_at-IsByte mask (i % 4) m),
  masked-masked mask (i + 1) s m hs,
)

pub masked-IsByte :
    (mask : Mask) (i : ℕ) (s : Bytes) → IsMask mask → All IsByte s → All IsByte (masked mask i s)
unfolding masked
masked-IsByte mask i [] m h = tt
masked-IsByte mask i (b ∷ s) m (h, hs) = (
  bit_xor-lt 8 b (mask_at mask (i % 4)) h (mask_at-IsByte mask (i % 4) m),
  masked-IsByte mask (i + 1) s m hs,
)

unmask_bytes-masked : (mask : Mask) (i : ℕ) (s : Bytes) → unmask_bytes mask i s ≡ masked mask i s
unfolding unmask_bytes masked
unmask_bytes-masked mask i [] = refl
unmask_bytes-masked mask i (b ∷ s) = rw (bit_and-three i, unmask_bytes-masked mask (i + 1) s)

pub unmask_rest-masked :
    (mask : Mask) (i : ℕ) (s : Bytes) → i + length s ≤ 4 → unmask_rest mask i s ≡ masked mask i s
unfolding unmask_rest masked
unmask_rest-masked mask i [] h = refl
unmask_rest-masked mask i (b ∷ s) h =
    let e : i % 4 ≡ i = omega arith in rw (e, unmask_rest-masked mask (i + 1) s (omega arith))

masked_word :
    (mask : Mask) (a b c d : ℕ) (s : Bytes)
    → bit_xor a mask.m0
        ∷ bit_xor b mask.m1
        ∷ bit_xor c mask.m2
        ∷ bit_xor d mask.m3
        ∷ masked mask 0 s
      ≡ masked mask 0 (a ∷ b ∷ c ∷ d ∷ s)
unfolding masked
masked_word mask a b c d s = rw (masked-mod mask 4 0 s refl)

unmask_words-masked : (mask : Mask) (s : Bytes) → unmask_words mask s ≡ masked mask 0 s
unfolding unmask_words
unmask_words-masked mask (a ∷ b ∷ c ∷ d ∷ s) =
    rw (unmask_words-masked mask s) (masked_word mask a b c d s)
unmask_words-masked mask [] = unmask_rest-masked mask 0 [] (omega arith)
unmask_words-masked mask (a ∷ []) = unmask_rest-masked mask 0 (a ∷ []) (omega arith)
unmask_words-masked mask (a ∷ b ∷ []) = unmask_rest-masked mask 0 (a ∷ b ∷ []) (omega arith)
unmask_words-masked mask (a ∷ b ∷ c ∷ []) = unmask_rest-masked mask 0 (a ∷ b ∷ c ∷ []) (omega arith)

-- A vector of whole words, at a position that is a multiple of four.
lanes_xor-repeat_mask :
    (words : ℕ) (mask : Mask) (s : Bytes)
    → length s ≡ 4 * words
    → lanes_xor s (repeat_mask words mask) ≡ masked mask 0 s
lanes_xor-repeat_mask zero mask [] e = unfold masked lanes_xor in refl
lanes_xor-repeat_mask zero mask (a ∷ s) e = absurd (omega arith)
lanes_xor-repeat_mask (suc n) mask [] e = absurd (omega arith)
lanes_xor-repeat_mask (suc n) mask (a ∷ []) e = absurd (omega arith)
lanes_xor-repeat_mask (suc n) mask (a ∷ b ∷ []) e = absurd (omega arith)
lanes_xor-repeat_mask (suc n) mask (a ∷ b ∷ c ∷ []) e = absurd (omega arith)
lanes_xor-repeat_mask (suc n) mask (a ∷ b ∷ c ∷ d ∷ s) e =
    lanes_xor_word n mask a b c d s
    ∙ rw (lanes_xor-repeat_mask n mask s (omega arith)) (masked_word mask a b c d s)
  where
    lanes_xor_word :
        (n : ℕ) (mask : Mask) (a b c d : ℕ) (s : Bytes)
        → lanes_xor (a ∷ b ∷ c ∷ d ∷ s) (repeat_mask (suc n) mask)
          ≡ bit_xor a mask.m0
            ∷ bit_xor b mask.m1
            ∷ bit_xor c mask.m2
            ∷ bit_xor d mask.m3
            ∷ lanes_xor s (repeat_mask n mask)
    lanes_xor_word n mask a b c d s = unfold lanes_xor repeat_mask in refl

unmask_vectors-masked :
    (fuel words : ℕ) (mask : Mask) (i : ℕ) (s : Bytes)
    → i % 4 ≡ 0
    → unmask_vectors fuel words mask i s ≡ masked mask i s
unfolding unmask_vectors
unmask_vectors-masked zero words mask i s e = unmask_bytes-masked mask i s
unmask_vectors-masked (suc fuel) words mask i s e =
    let front = take (4 * words) s in
    let back = drop (4 * words) s in
    let n = length-take (4 * words) s in
    ground (
      arith,
      unmask_bytes-masked mask i s,
      unmask_vectors-masked fuel words mask (i + 4 * words) back (omega arith),
      lanes_xor-repeat_mask words mask front,
      masked-mod mask 0 i front,
      masked-append mask i front back,
      ap (masked mask i) (take-append-drop (4 * words) s),
      n,
      masked-mod mask (i + length front) (i + 4 * words) back,
    )

-- The scalar, AVX2 and NEON code all exclusive-or byte i of the payload with mask[i mod 4].
pub unmask-masked : (simd : Simd) (mask : Mask) (s : Bytes) → unmask simd mask s ≡ masked mask 0 s
unfolding unmask unmask_avx2 unmask_neon
unmask-masked scalar mask s = unmask_words-masked mask s
unmask-masked avx2 mask s =
    ground (arith, unmask_words-masked mask s, unmask_vectors-masked (length s) 8 mask 0 s refl)
unmask-masked neon mask s =
    ground (arith, unmask_words-masked mask s, unmask_vectors-masked (length s) 4 mask 0 s refl)

-- So does the code for the end of a payload, by words and then by bytes.
pub unmask_remaining-masked :
    (simd : Simd) (mask : Mask) (s : Bytes) → unmask_remaining simd mask s ≡ masked mask 0 s
unfolding unmask_remaining
unmask_remaining-masked simd mask s =
    let n = length s / 4 in
    let words = take (n * 4) s in
    let rest = drop (n * 4) s in
    let few : 0 + length rest ≤ 4 = omega (arith, length-drop (n * 4) s) in
    rw (unmask-masked simd mask words, unmask_rest-masked mask 0 rest few)
      (ap (λ t. masked mask 0 words ++ t)
          (masked-mod mask 0 (0 + length words) rest (omega (arith, length-take (n * 4) s)))
        ∙ sym (masked-append mask 0 words rest)
        ∙ ap (masked mask 0) (take-append-drop (n * 4) s))

pub length-unmask : (simd : Simd) (mask : Mask) (s : Bytes) → length (unmask simd mask s) ≡ length s
length-unmask simd mask s = ap length (unmask-masked simd mask s) ∙ length-masked mask 0 s

pub length-unmask_remaining :
    (simd : Simd) (mask : Mask) (s : Bytes) → length (unmask_remaining simd mask s) ≡ length s
length-unmask_remaining simd mask s =
    ap length (unmask_remaining-masked simd mask s) ∙ length-masked mask 0 s
