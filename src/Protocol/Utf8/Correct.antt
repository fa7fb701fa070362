-- ===== src/Protocol/Utf8/Correct.antt =====
-- isValidUtf8 accepts the well-formed texts of RFC 3629 and no others.
use eiows.Common.{
  ℕ, zero, suc, ◌+◌, ◌*◌, ◌^◌, ◌≤◌, ◌<◌, bit_and, ◌≡◌, ◌↔◌, inl, inr, refl, sym, ap, subst, ◌∙◌,
  Bool, true, Option, some, [], ◌∷◌, ◌++◌, arith, Bytes, IsByte, All, length, take, drop,
  All-append_right, All-drop, Bool-cases, Option-cases, length-append, length-drop,
}
use eiows.Common.Bits.{bit_and_parts}
use eiows.Protocol.Ascii.{Simd, avx2, neon, skip_ascii}
use eiows.Protocol.Ascii.Lanes.{IsAscii, high_bit-byte}
use eiows.Protocol.Ascii.Scan.{
  skip_ascii-eq-drop, length-skip_ascii, length-skip_ascii-cons, skip_ascii-head,
}
use eiows.Protocol.Ascii.Skip.{skip_ascii_avx2_lem, skip_ascii_neon_lem}
use eiows.Protocol.Utf8.{
  ascii_word, is_ascii_word, skip_word, multibyte, after_ascii, utf8_round, utf8_loop,
  is_valid_utf8,
}
use eiows.Protocol.Utf8.Scalars.{encode, WellFormed, nil, char}
use eiows.Protocol.Utf8.Sequences.{multibyte_sound, multibyte_complete}

-- An ASCII byte in front.
WellFormed-ascii : (b : ℕ) {s : Bytes} → IsAscii b → WellFormed s → WellFormed (b ∷ s)
WellFormed-ascii b h w = char b (omega arith) (ground arith) w

ascii_char : (b c : ℕ) (s rest : Bytes) → IsAscii b → b ∷ s ≡ encode c ++ rest → s ≡ rest
ascii_char b c s rest h e = ground arith

WellFormed-tail_of :
    {t : Bytes} (b : ℕ) (s : Bytes) → t ≡ b ∷ s → IsAscii b → WellFormed t → WellFormed s
WellFormed-tail_of b s e h nil = absurd (cc e)
WellFormed-tail_of b s e h (char {rest = rest} c scalar p w) =
    rw (ascii_char b c s rest h (sym e ∙ p)) w

WellFormed-tail : (b : ℕ) (s : Bytes) → IsAscii b → WellFormed (b ∷ s) → WellFormed s
WellFormed-tail b s h w = WellFormed-tail_of b s refl h w

-- Dropping ASCII bytes neither makes nor breaks a text.
drop-WellFormed :
    (n : ℕ) (s : Bytes) → All IsAscii (take n s) → WellFormed s ↔ WellFormed (drop n s)
drop-WellFormed zero s h = (λ w. w, λ w. w)
drop-WellFormed (suc n) [] h = (λ w. w, λ w. w)
drop-WellFormed (suc n) (b ∷ s) (h, hs) =
    let (front, back) = drop-WellFormed n s hs in
    (λ w. front (WellFormed-tail b s h w), λ w. WellFormed-ascii b h (back w))

-- The test of a whole word is that of its four bytes.
is_ascii_word_bytes :
    (b0 b1 b2 b3 : ℕ)
    → IsByte b0
    → IsByte b1
    → IsByte b2
    → IsByte b3
    → bit_and (ascii_word b0 b1 b2 b3) 0x80808080
      ≡ 2 ^ 24 * bit_and b3 128
        + (2 ^ 16 * bit_and b2 128 + (2 ^ 8 * bit_and b1 128 + bit_and b0 128))
is_ascii_word_bytes b0 b1 b2 b3 h0 h1 h2 h3 = omega (
  arith,
  bit_and_parts 24 b3 128 (2 ^ 16 * b2 + (2 ^ 8 * b1 + b0)) 0x808080 (omega arith) (omega arith),
  bit_and_parts 16 b2 128 (2 ^ 8 * b1 + b0) 0x8080 (omega arith) (omega arith),
  bit_and_parts 8 b1 128 b0 128 (omega arith) (omega arith),
)

is_ascii_word_sound :
    (s : Bytes) → All IsByte s → is_ascii_word s ≡ true → All IsAscii (take 4 s) × (4 ≤ length s)
unfolding is_ascii_word
is_ascii_word_sound (b0 ∷ b1 ∷ b2 ∷ b3 ∷ s) (h0, (h1, (h2, (h3, hs)))) e = ground (
  arith,
  is_ascii_word_bytes b0 b1 b2 b3 h0 h1 h2 h3,
  high_bit-byte b0 h0,
  high_bit-byte b1 h1,
  high_bit-byte b2 h2,
  high_bit-byte b3 h3,
)
is_ascii_word_sound _ h e = absurd (cc e)

-- What a round leaves, `t`, next to what it was given, `s`.
record Shrinks (s t : Bytes) : Type 0 where
  shorter : length t < length s
  bytes : All IsByte t
  same : WellFormed s ↔ WellFormed t

drop-Shrinks :
    (n : ℕ) (b : ℕ) (s t : Bytes)
    → All IsByte (b ∷ s)
    → All IsAscii (take n (b ∷ s))
    → t ≡ drop n (b ∷ s)
    → length t ≤ length s
    → Shrinks (b ∷ s) t
drop-Shrinks n b s t h ascii e l = record {
  shorter = omega arith;
  bytes = rw e (All-drop IsByte n (b ∷ s) h);
  same = rw e (drop-WellFormed n (b ∷ s) ascii);
}

skip_ascii-Shrinks :
    (b : ℕ) (s : Bytes) → All IsByte (b ∷ s) → IsAscii b → Shrinks (b ∷ s) (skip_ascii (b ∷ s))
skip_ascii-Shrinks b s h ascii =
    let (n, run, e) = skip_ascii-eq-drop (b ∷ s) h in
    drop-Shrinks n b s (skip_ascii (b ∷ s)) h run e (length-skip_ascii-cons b s ascii)

skip_word-Shrinks :
    (simd : Simd) (wide : Bool) (b : ℕ) (s : Bytes)
    → All IsByte (b ∷ s)
    → is_ascii_word (b ∷ s) ≡ true
    → Shrinks (b ∷ s) (skip_word simd wide (b ∷ s))
unfolding skip_word
skip_word-Shrinks avx2 true b s h e =
    rw (skip_ascii_avx2_lem (length (b ∷ s)) (b ∷ s) h)
      (skip_ascii-Shrinks b s h (is_ascii_word_sound (b ∷ s) h e).0.0)
skip_word-Shrinks neon true b s h e =
    rw (skip_ascii_neon_lem (length (b ∷ s)) (b ∷ s) h)
      (skip_ascii-Shrinks b s h (is_ascii_word_sound (b ∷ s) h e).0.0)
skip_word-Shrinks _ _ b s h e =
    let (ascii, l) = is_ascii_word_sound (b ∷ s) h e in
    drop-Shrinks 4 b s (drop 4 (b ∷ s)) h ascii refl (omega (arith, length-drop 3 s))

-- A well-formed text that begins beyond ASCII is taken apart by `multibyte`.
multibyte-WellFormed_of :
    {t : Bytes} (s0 : ℕ) (s : Bytes)
    → t ≡ s0 ∷ s
    → 128 ≤ s0
    → WellFormed t
    → (rest : Bytes) × (multibyte s0 s ≡ some rest) × WellFormed rest
multibyte-WellFormed_of s0 s e high nil = absurd (cc e)
multibyte-WellFormed_of s0 s e high (char {rest = rest} c valid p w) =
    (rest, multibyte_complete c s0 s rest valid (sym e ∙ p) high, w)

multibyte-WellFormed :
    (s0 : ℕ) (s : Bytes)
    → 128 ≤ s0
    → WellFormed (s0 ∷ s)
    → (rest : Bytes) × (multibyte s0 s ≡ some rest) × WellFormed rest
multibyte-WellFormed s0 s high w = multibyte-WellFormed_of s0 s refl high w

some-eq {ℓ} : {A : Type ℓ} {o : Option A} {a b : A} → o ≡ some a → o ≡ some b → a ≡ b
some-eq p q = cc

length-encode : (c : ℕ) → 1 ≤ length (encode c)
length-encode c = ground arith

multibyte-Shrinks :
    (s0 : ℕ) (s rest : Bytes)
    → All IsByte (s0 ∷ s)
    → 128 ≤ s0
    → multibyte s0 s ≡ some rest
    → Shrinks (s0 ∷ s) rest
multibyte-Shrinks s0 s rest h high e =
    let (c, valid, p) = multibyte_sound s0 s rest h.0 h.1 high e in
    record {
      shorter = omega (arith, ap length p, length-append (encode c) rest, length-encode c);
      bytes = All-append_right IsByte (encode c) rest (subst (All IsByte) p h);
      same = (
        λ w. let (rest', e', w') = multibyte-WellFormed s0 s high w in rw (some-eq e e') w',
        λ w. char c valid p w,
      );
    }

-- Behind the ASCII bytes `s` has in front.
module _ (b : ℕ) (s : Bytes) (h : All IsByte (b ∷ s)) where
  Shrinks-behind : (t r : Bytes) → skip_ascii (b ∷ s) ≡ t → Shrinks t r → Shrinks (b ∷ s) r
  Shrinks-behind t r e k =
      let (n, run, d) = skip_ascii-eq-drop (b ∷ s) h in
      let (front, back) = drop-WellFormed n (b ∷ s) run in
      record {
        shorter = omega (arith, k.shorter, ap length e, length-skip_ascii (b ∷ s));
        bytes = k.bytes;
        same = (λ w. k.same.0 (rw (sym e ∙ d) (front w)), λ w. back (rw (sym d ∙ e) (k.same.1 w)));
      }

  after_ascii-Shrinks :
      (t r : Bytes) → skip_ascii (b ∷ s) ≡ t → after_ascii t ≡ some r → Shrinks (b ∷ s) r
  unfolding after_ascii
  after_ascii-Shrinks [] r e p =
      let (n, run, d) = skip_ascii-eq-drop (b ∷ s) h in
      let (front, back) = drop-WellFormed n (b ∷ s) run in
      let q : r ≡ [] = cc in
      rw q record {
        shorter = omega arith;
        bytes = tt;
        same = (λ w. nil, λ w. back (rw (sym d ∙ e) nil));
      }
  after_ascii-Shrinks (s0 ∷ t) r e p =
      let (n, run, d) = skip_ascii-eq-drop (b ∷ s) h in
      let bytes = subst (All IsByte) (sym d ∙ e) (All-drop IsByte n (b ∷ s) h) in
      Shrinks-behind (s0 ∷ t) r e
        (multibyte-Shrinks s0 t r bytes (skip_ascii-head (b ∷ s) s0 t h e) p)

  after_ascii_complete :
      (t : Bytes)
      → skip_ascii (b ∷ s) ≡ t
      → WellFormed (b ∷ s)
      → (r : Bytes) × (after_ascii t ≡ some r)
  unfolding after_ascii
  after_ascii_complete [] e w = ([], refl)
  after_ascii_complete (s0 ∷ t) e w =
      let (n, run, d) = skip_ascii-eq-drop (b ∷ s) h in
      let (rest, p, _) =
        multibyte-WellFormed s0 t (skip_ascii-head (b ∷ s) s0 t h e)
          (rw (sym e ∙ d) ((drop-WellFormed n (b ∷ s) run).0 w)) in
      (rest, p)

  round-Shrinks :
      (simd : Simd) (wide : Bool) (r : Bytes)
      → utf8_round simd wide (b ∷ s) ≡ some r
      → Shrinks (b ∷ s) r
  unfolding utf8_round
  round-Shrinks simd wide r e = elim (Bool-cases (is_ascii_word (b ∷ s))) [
    | inl word ↦
        let q : skip_word simd wide (b ∷ s) ≡ r = ground arith in
        rw (← q) (skip_word-Shrinks simd wide b s h word)
    | inr other ↦ after_ascii-Shrinks (skip_ascii (b ∷ s)) r refl (rw other at e)
  ]

  round_complete :
      (simd : Simd) (wide : Bool)
      → WellFormed (b ∷ s)
      → (r : Bytes) × (utf8_round simd wide (b ∷ s) ≡ some r)
  unfolding utf8_round
  round_complete simd wide w = elim (Bool-cases (is_ascii_word (b ∷ s))) [
    | inl word ↦ (skip_word simd wide (b ∷ s), rw word)
    | inr other ↦ rw other (after_ascii_complete (skip_ascii (b ∷ s)) refl w)
  ]

utf8_loop_lem :
    (fuel : ℕ) (simd : Simd) (wide : Bool) (s : Bytes)
    → All IsByte s
    → length s ≤ fuel
    → (utf8_loop fuel simd wide s ≡ true) ↔ WellFormed s
unfolding utf8_loop
utf8_loop_lem zero simd wide [] h l = (λ e. nil, λ w. refl)
utf8_loop_lem (suc fuel) simd wide [] h l = (λ e. nil, λ w. refl)
utf8_loop_lem zero simd wide (b ∷ s) h l = absurd (omega arith)
utf8_loop_lem (suc fuel) simd wide (b ∷ s) h l =
    elim (Option-cases (utf8_round simd wide (b ∷ s))) [
      | inl stop ↦
          rw (stop, utf8_loop)
            (λ e. absurd (cc e), λ w. absurd (cc (stop, (round_complete b s h simd wide w).1)))
      | inr (rest, e) ↦
          let k = round-Shrinks b s h simd wide rest e in
          let (front, back) =
            utf8_loop_lem fuel simd wide rest k.bytes (omega (arith, k.shorter)) in
          rw (e, utf8_loop) (λ p. k.same.1 (front p), λ w. back (k.same.0 w))
    ]

-- isValidUtf8 answers true exactly on the sequences of encoded Unicode scalar values (RFC 3629:
-- no overlong form, no surrogate, nothing past U+10FFFF), with the scalar, AVX2 and NEON code.
pub is_valid_utf8-iff-WellFormed :
    (simd : Simd) (s : Bytes) → All IsByte s → (is_valid_utf8 simd s ≡ true) ↔ WellFormed s
unfolding is_valid_utf8
is_valid_utf8-iff-WellFormed simd s h = utf8_loop_lem (length s) simd _ s h (omega arith)
