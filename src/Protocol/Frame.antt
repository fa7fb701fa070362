-- ===== src/Protocol/Frame.antt =====
-- The frame header of uWebSockets/src/WebSocketProtocol.h: the readers of the parser
-- (isFin, isMasked, getOpCode, payloadLength, rsv23, rsv1, readUint16BE, readUint64BE), and
-- formatMessageHeader and formatMessage.
pub mod Header
use eiows.Common.{
  ℕ, zero, suc, ◌+◌, ◌*◌, ◌/◌, ◌%◌, ◌^◌, bit_and, bit_or, Bool, true, false, not, List, [], ◌∷◌,
  ◌++◌, leb, ltb, ◌==◌, if◌then◌else◌, Bytes, get_or, take, drop,
}

abbrev pub short_message_header : ℕ
short_message_header = 6

abbrev pub medium_message_header : ℕ
medium_message_header = 8

abbrev pub long_message_header : ℕ
long_message_header = 14

-- The conversion of a number to bool.
abbrev pub nonzero : ℕ → Bool
nonzero n = not (n == 0)

abbrev pub byte_at : Bytes → ℕ → ℕ
byte_at frame i = get_or frame i 0

pub is_fin : Bytes → Bool
is_fin frame = nonzero (bit_and (byte_at frame 0) 128)

pub is_masked : Bytes → Bool
is_masked frame = nonzero (bit_and (byte_at frame 1) 128)

unfoldable pub get_op_code : Bytes → ℕ
get_op_code frame = bit_and (byte_at frame 0) 15

pub payload_length : Bytes → ℕ
payload_length frame = bit_and (byte_at frame 1) 127

pub rsv23 : Bytes → Bool
rsv23 frame = nonzero (bit_and (byte_at frame 0) 48)

pub rsv1 : Bytes → Bool
rsv1 frame = nonzero (bit_and (byte_at frame 0) 64)

-- A big-endian number.
abbrev pub from_big_endian : ℕ → Bytes → ℕ
from_big_endian acc [] = acc
from_big_endian acc (b ∷ s) = from_big_endian (256 * acc + b) s

-- The lowest `n` bytes of a number, big-endian.
abbrev pub to_big_endian : ℕ → ℕ → Bytes
to_big_endian zero v = []
to_big_endian (suc n) v = (v / 256 ^ n % 256) ∷ to_big_endian n v

-- ntohs and be64toh of a memcpy
abbrev pub read_uint16_be : Bytes → ℕ
read_uint16_be src = from_big_endian 0 (take 2 src)

abbrev pub read_uint64_be : Bytes → ℕ
read_uint64_be src = from_big_endian 0 (take 8 src)

abbrev pub snd_compressed : ℕ
snd_compressed = 64

-- dst[0] = 128 | (compressed ? SND_COMPRESSED : 0) | opCode
abbrev pub first_byte : ℕ → Bool → ℕ
first_byte op_code compressed =
    bit_or (bit_or 128 (if compressed then snd_compressed else 0)) op_code

-- The bytes written to `dst`.
unfoldable pub format_message_header : ℕ → ℕ → Bool → Bytes
format_message_header op_code reported_length compressed =
    if ltb reported_length 126
    then first_byte op_code compressed ∷ reported_length ∷ []
    else if leb reported_length 0xffff
    then first_byte op_code compressed ∷ 126 ∷ to_big_endian 2 reported_length
    else first_byte op_code compressed ∷ 127 ∷ to_big_endian 8 reported_length

unfoldable pub format_message : Bytes → ℕ → ℕ → Bool → Bytes
unfolding format_message_header
format_message src op_code reported_length compressed =
    format_message_header op_code reported_length compressed ++ src
