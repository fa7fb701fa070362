-- ===== src/Protocol/Frame/Header.antt =====
-- What the readers find in a header that formatMessageHeader wrote.
use eiows.Common.{
  ℕ, ◌^◌, ◌<◌, bit_and, ◌≡◌, refl, Bool, true, false, ◌++◌, arith, ltb, ◌==◌, if◌then◌else◌, Bytes,
  length, drop, agree_below, agree_below→eq,
}
use eiows.Protocol.Frame.{
  is_fin, is_masked, get_op_code, payload_length, rsv23, rsv1, from_big_endian, to_big_endian,
  read_uint16_be, read_uint64_be, first_byte, format_message_header,
}

-- What RFC 6455, section 5.2, has a receiver read: the length field, and the length behind it.
pub wire_length : Bytes → ℕ
unfolding payload_length
wire_length frame =
    if ltb (payload_length frame) 126
    then payload_length frame
    else if payload_length frame == 126
    then read_uint16_be (drop 2 frame)
    else read_uint64_be (drop 2 frame)

pub header_size : Bytes → ℕ
unfolding payload_length
header_size frame =
    if ltb (payload_length frame) 126 then 2 else if payload_length frame == 126 then 4 else 10

pub big_endian_two : (v : ℕ) → v < 2 ^ 16 → from_big_endian 0 (to_big_endian 2 v) ≡ v
big_endian_two v h = omega arith

pub big_endian_eight : (v : ℕ) → v < 2 ^ 64 → from_big_endian 0 (to_big_endian 8 v) ≡ v
big_endian_eight v h = omega arith

module _ (compressed : Bool) (op_code : ℕ) (h : op_code < 16) where
  -- A fact about the first byte, checked at every opcode.
  first_byte_fact :
      (p : Bool → ℕ → Bool)
      → agree_below (p true) (λ _. true) 16 ≡ true
      → agree_below (p false) (λ _. true) 16 ≡ true
      → p compressed op_code ≡ true
  first_byte_fact p yes' no' = elim compressed as (λ c. p c op_code ≡ true) [
    | true ↦ agree_below→eq (p true) (λ _. true) 16 yes' op_code h
    | false ↦ agree_below→eq (p false) (λ _. true) 16 no' op_code h
  ]

  first_byte-fin : bit_and (first_byte op_code compressed) 128 == 128 ≡ true
  unfolding agree_below
  first_byte-fin = first_byte_fact (λ c o. bit_and (first_byte o c) 128 == 128) refl refl

  pub first_byte-op_code : bit_and (first_byte op_code compressed) 15 == op_code ≡ true
  unfolding agree_below
  first_byte-op_code = first_byte_fact (λ c o. bit_and (first_byte o c) 15 == o) refl refl

  first_byte-rsv23 : bit_and (first_byte op_code compressed) 48 == 0 ≡ true
  unfolding agree_below
  first_byte-rsv23 = first_byte_fact (λ c o. bit_and (first_byte o c) 48 == 0) refl refl

  first_byte-rsv1 :
      bit_and (first_byte op_code compressed) 64 == (if compressed then 64 else 0) ≡ true
  unfolding agree_below
  first_byte-rsv1 =
      first_byte_fact (λ c o. bit_and (first_byte o c) 64 == (if c then 64 else 0)) refl refl

  pub first_byte-lt : ltb (first_byte op_code compressed) 256 ≡ true
  unfolding agree_below
  first_byte-lt = first_byte_fact (λ c o. ltb (first_byte o c) 256) refl refl

low_seven : (b : ℕ) → b < 128 → bit_and b 127 == b ≡ true
unfolding agree_below
low_seven = agree_below→eq (λ b. bit_and b 127 == b) (λ _. true) 128 refl

no_mask_bit : (b : ℕ) → b < 128 → bit_and b 128 == 0 ≡ true
unfolding agree_below
no_mask_bit = agree_below→eq (λ b. bit_and b 128 == 0) (λ _. true) 128 refl

-- How a receiver reads the bytes of a frame.
pub record Reads (frame : Bytes) (op_code size length' : ℕ) (compressed : Bool) : Type 0 where
  pub fin : is_fin frame ≡ true
  pub unmasked : is_masked frame ≡ false
  pub code : get_op_code frame ≡ op_code
  pub reserved : rsv23 frame ≡ false
  pub deflated : rsv1 frame ≡ compressed
  pub header : header_size frame ≡ size
  pub payload : wire_length frame ≡ length'

-- A header that formatMessageHeader writes is read back: a final, unmasked frame with the opcode,
-- the compression bit and the length that were given, and the header ends where the payload begins.
pub format_message_header-Reads :
    (op_code n : ℕ) (compressed : Bool) (rest : Bytes)
    → op_code < 16
    → n < 2 ^ 64
    → Reads
        (format_message_header op_code n compressed ++ rest)
        op_code
        (length (format_message_header op_code n compressed))
        n
        compressed
unfolding format_message_header is_fin is_masked get_op_code rsv23 rsv1 header_size wire_length
format_message_header-Reads op_code n compressed rest h l = ground (
  arith,
  first_byte-fin compressed op_code h,
  first_byte-op_code compressed op_code h,
  first_byte-rsv23 compressed op_code h,
  first_byte-rsv1 compressed op_code h,
  low_seven n,
  no_mask_bit n,
  big_endian_two n,
  big_endian_eight n,
)
