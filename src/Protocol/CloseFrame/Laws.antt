-- ===== src/Protocol/CloseFrame/Laws.antt =====
-- What parseClosePayload accepts, and that it reads back what formatClosePayload writes.
use eiows.Common.{
  ℕ, ◌/◌, ◌%◌, ◌^◌, ◌≤◌, ◌≡◌, ◌≢◌, ◌⊎◌, inl, inr, refl, ap, sym, subst, ◌∙◌, true, false, drop, not,
  ◌||◌, Option, some, [], ◌∷◌, ◌++◌, arith, if◌then◌else◌, Bool-cases, Bytes, IsByte, All,
  All-append_right,
}
use eiows.Protocol.Ascii.{Simd}
use eiows.Protocol.CloseFrame.{
  CloseFrame, malformed, is_valid_code, parse_close_payload, format_close_payload,
}
use eiows.Protocol.Frame.{read_uint16_be, to_big_endian}
use eiows.Protocol.Frame.Header.{big_endian_two}
use eiows.Protocol.Utf8.Correct.{is_valid_utf8-iff-WellFormed}
use eiows.Protocol.Utf8.Scalars.{WellFormed}
use eiows.Protocol.Utf8.{is_valid_utf8}

-- The status codes that may stand in a close frame (RFC 6455, section 7.4).
abbrev pub IsCloseCode : ℕ → Type 0
IsCloseCode code =
    ((1000 ≤ code) × (code ≤ 1014) × (code ≢ 1004) × (code ≢ 1005) × (code ≢ 1006))
    ⊎ ((3000 ≤ code) × (code ≤ 4999))

pub is_valid_code_sound : (code : ℕ) → is_valid_code code ≡ true → IsCloseCode code
unfolding is_valid_code
is_valid_code_sound code h = ground arith

pub is_valid_code_complete : (code : ℕ) → IsCloseCode code → is_valid_code code ≡ true
unfolding is_valid_code
is_valid_code_complete code h = ground arith

-- The big-endian code and the text behind it.
abbrev IsClosePayload : Bytes → ℕ → Bytes → Type 0
IsClosePayload src code text =
    IsCloseCode code × WellFormed text × (src ≡ to_big_endian 2 code ++ text)

-- The three things that a close frame can say: nothing, a code with a text, or nonsense.
pub data Parsed (src : Bytes) (cf : CloseFrame) : Type 0 where
  absent : src ≡ [] → cf.code ≡ 1005 → cf.message ≡ [] → Parsed src cf
  present :
      IsCloseCode cf.code
      → WellFormed cf.message
      → src ≡ to_big_endian 2 cf.code ++ cf.message
      → Parsed src cf
  refused :
      cf.code ≡ 1006
      → cf.message ≡ []
      → src ≢ []
      → ((code : ℕ) (text : Bytes) → ¬ (IsClosePayload src code text))
      → Parsed src cf

two_bytes-big_endian :
    (a b : ℕ) (s : Bytes)
    → IsByte a
    → IsByte b
    → a ∷ b ∷ s ≡ to_big_endian 2 (read_uint16_be (a ∷ b ∷ s)) ++ s
two_bytes-big_endian a b s h k = ground arith

long_payload :
    (simd : Simd) (a b : ℕ) (s : Bytes)
    → parse_close_payload simd (a ∷ b ∷ s) ≡ (
        if not (is_valid_code (read_uint16_be (a ∷ b ∷ s))) || not (is_valid_utf8 simd s)
        then malformed
        else record { code = read_uint16_be (a ∷ b ∷ s); message = s })
unfolding parse_close_payload
long_payload simd a b s = ground arith

one_byte : (a code : ℕ) (text : Bytes) → ¬ (a ∷ [] ≡ to_big_endian 2 code ++ text)
one_byte a code text e = cc e

-- Two bytes that give no code that may be sent, or a text that isValidUtf8 refuses, are no payload.
no_payload :
    (simd : Simd) (a b : ℕ) (s : Bytes) (code : ℕ) (text : Bytes)
    → All IsByte s
    → (is_valid_code (read_uint16_be (a ∷ b ∷ s)) ≡ false) ⊎ (is_valid_utf8 simd s ≡ false)
    → ¬ (IsClosePayload (a ∷ b ∷ s) code text)
no_payload simd a b s code text h bad (c, w, e) =
    let read : read_uint16_be (a ∷ b ∷ s) ≡ code =
      ap read_uint16_be e ∙ big_endian_two code (omega arith) in
    let same : s ≡ text = ap (drop 2) e in
    elim bad [
      | inl invalid ↦ absurd (cc (invalid, read, is_valid_code_complete code c))
      | inr no_text ↦
          absurd (
            cc (no_text, (is_valid_utf8-iff-WellFormed simd s h).1 (subst WellFormed (sym same) w)))
    ]

-- The answer is 1005 for an empty payload; the code and the text of a payload that is made of a code
-- that may be sent and a well-formed text; and 1006, without a text, for a payload that is neither.
pub parse_close_payload-Parsed :
    (simd : Simd) (src : Bytes) → All IsByte src → Parsed src (parse_close_payload simd src)
parse_close_payload-Parsed simd [] h = unfold parse_close_payload in absent refl refl refl
parse_close_payload-Parsed simd (a ∷ []) h =
    unfold parse_close_payload in
    refused refl refl (λ e. cc e) (λ code text h. absurd (one_byte a code text h.2))
parse_close_payload-Parsed simd (a ∷ b ∷ s) (ha, (hb, hs)) =
    let code = read_uint16_be (a ∷ b ∷ s) in
    rw (long_payload simd a b s) (elim (Bool-cases (is_valid_code code)) [
      | inl valid ↦ elim (Bool-cases (is_valid_utf8 simd s)) [
        | inl text ↦
            rw (valid, text)
              (present (is_valid_code_sound code valid)
                ((is_valid_utf8-iff-WellFormed simd s hs).0 text)
                (two_bytes-big_endian a b s ha hb))
        | inr no_text ↦
            rw (valid, no_text)
              (refused refl refl (λ e. cc e)
                (λ c t p. absurd (no_payload simd a b s c t hs (inr no_text) p)))
      ]
      | inr invalid ↦ rw invalid (
          refused refl refl (λ e. cc e)
            (λ c t p. absurd (no_payload simd a b s c t hs (inl invalid) p)))
    ])

parse_format_some :
    (simd : Simd) (code : ℕ) (message : Bytes)
    → IsCloseCode code
    → is_valid_utf8 simd message ≡ true
    → parse_close_payload simd (to_big_endian 2 code ++ message)
      ≡ record { code = code; message = message }
parse_format_some simd code message h valid =
    let e : read_uint16_be (to_big_endian 2 code ++ message) ≡ code =
      big_endian_two code (omega arith) in
    long_payload simd (code / 256 ^ 1 % 256) (code / 256 ^ 0 % 256) message
    ∙ rw (e, is_valid_code_complete code h, valid)

format_some :
    (simd : Simd) (code : ℕ) (message : Bytes)
    → IsCloseCode code
    → is_valid_utf8 simd message ≡ true
    → format_close_payload simd code (some message) ≡ to_big_endian 2 code ++ message
unfolding format_close_payload
format_some simd code [] h valid = ground arith
format_some simd code (m ∷ ms) h valid = ground arith

-- A close frame is read back as it was written, where the code may be sent and the text is well
-- formed.
pub parse_close_payload-format_close_payload :
    (simd : Simd) (code : ℕ) (message : Bytes)
    → IsCloseCode code
    → All IsByte message
    → WellFormed message
    → parse_close_payload simd (format_close_payload simd code (some message))
      ≡ record { code = code; message = message }
parse_close_payload-format_close_payload simd code message h bytes w =
    let valid = (is_valid_utf8-iff-WellFormed simd message bytes).1 w in
    ap (parse_close_payload simd) (format_some simd code message h valid)
    ∙ parse_format_some simd code message h valid

format_1005 : (simd : Simd) (message : Option Bytes) → format_close_payload simd 1005 message ≡ []
unfolding format_close_payload
format_1005 simd message = refl

echo :
    (simd : Simd) (src : Bytes) (cf : CloseFrame)
    → All IsByte src
    → cf.code ≢ 1006
    → Parsed src cf
    → format_close_payload simd cf.code (some cf.message) ≡ src
echo simd src cf h ok (absent e c m) = rw (c, m, e) (format_1005 simd (some []))
echo simd src cf h ok (present c w e) =
    let bytes =
      All-append_right IsByte (to_big_endian 2 cf.code) cf.message (subst (All IsByte) e h) in
    format_some simd cf.code cf.message c ((is_valid_utf8-iff-WellFormed simd cf.message bytes).1 w)
    ∙ sym e
echo simd src cf h ok (refused c m e f) = absurd (ok c)

-- The reply to a close frame: the code and the text that were read are written again, so an
-- accepted payload is echoed byte for byte, and an empty one by an empty one.
pub format_close_payload-parse_close_payload :
    (simd : Simd) (src : Bytes)
    → All IsByte src
    → (parse_close_payload simd src).code ≢ 1006
    → format_close_payload simd
        (parse_close_payload simd src).code
        (some (parse_close_payload simd src).message)
      ≡ src
format_close_payload-parse_close_payload simd src h ok =
    echo simd src (parse_close_payload simd src) h ok (parse_close_payload-Parsed simd src h)
