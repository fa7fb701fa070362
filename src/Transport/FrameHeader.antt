-- ===== src/Transport/FrameHeader.antt =====
-- frameHeader of nodejs/src/native_transport.cpp, against formatMessageHeader of
-- uWebSockets/src/WebSocketProtocol.h.
use eiows.Common.{
  ℕ, zero, suc, ◌*◌, ◌/◌, ◌%◌, ◌^◌, ◌<◌, bit_or, ◌≡◌, refl, true, false, [], ◌∷◌, ltb, leb, ◌==◌,
  if◌then◌else◌, Bytes, arith, agree_below, agree_below→eq,
}
use eiows.Protocol.Frame.{first_byte, format_message_header}

-- static_cast<char>(length >> (8 * count)), down to no shift
abbrev shifted_bytes : ℕ → ℕ → Bytes
shifted_bytes zero n = []
shifted_bytes (suc count) n = (n / 2 ^ (8 * count) % 256) ∷ shifted_bytes count n

pub frame_header : ℕ → ℕ → Bytes
frame_header payload_length op_code =
    let first = bit_or 0x80 op_code in
    if ltb payload_length 126
    then first ∷ payload_length ∷ []
    else if leb payload_length 0xffff
    then first ∷ 126 ∷ (payload_length / 2 ^ 8 % 256) ∷ (payload_length % 256) ∷ []
    else first ∷ 127 ∷ shifted_bytes 8 payload_length

same_first : (op_code : ℕ) → op_code < 16 → (bit_or 0x80 op_code == first_byte op_code false) ≡ true
unfolding agree_below
same_first op_code h =
    agree_below→eq (λ o. bit_or 0x80 o == first_byte o false) (λ _. true) 16 refl op_code h

-- The transport's header is the one that formatMessageHeader writes for an uncompressed frame.
pub frame_header-format_message_header :
    (n op_code : ℕ) → op_code < 16 → frame_header n op_code ≡ format_message_header op_code n false
unfolding frame_header format_message_header
frame_header-format_message_header n op_code h =
    let e : bit_or 0x80 op_code ≡ first_byte op_code false = ground (arith, same_first op_code h) in
    ground arith
