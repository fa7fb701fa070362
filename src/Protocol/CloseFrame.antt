-- ===== src/Protocol/CloseFrame.antt =====
-- CloseFrame, parseClosePayload and formatClosePayload of uWebSockets/src/WebSocketProtocol.h.
pub mod Laws
use eiows.Common.{
  ℕ, ◌+◌, ◌*◌, ◌/◌, ◌%◌, Bool, true, false, not, ◌&&◌, ◌||◌, Option, none, some, List, [], ◌∷◌,
  ◌++◌, leb, ltb, ◌==◌, if◌then◌else◌, Bytes, length, take, drop,
}
use eiows.Protocol.Ascii.{Simd}
use eiows.Protocol.Frame.{read_uint16_be, to_big_endian, nonzero}
use eiows.Protocol.Utf8.{is_valid_utf8}

-- `length` is the length of the message.
pub record CloseFrame : Type 0 where
  pub code : ℕ
  pub message : Bytes

abbrev pub malformed : CloseFrame
malformed = record { code = 1006; message = [] }

unfoldable pub is_valid_code : ℕ → Bool
is_valid_code code =
    (leb 1000 code
      && leb code 1014
      && not (code == 1004)
      && not (code == 1005)
      && not (code == 1006))
    || (leb 3000 code && leb code 4999)

unfoldable pub parse_close_payload : Simd → Bytes → CloseFrame
unfolding is_valid_code
parse_close_payload simd src =
    let cf : CloseFrame = record { code = read_uint16_be src; message = drop 2 src } in
    if length src == 1
    then malformed
    else if leb 2 (length src)
    then if not (is_valid_code cf.code) || not (is_valid_utf8 simd cf.message)
      then malformed
      else cf
    else record { code = 1005; message = [] }

-- The message when it is given, not empty and valid: `message && length && isValidUtf8(...)`.
pub sent_reason : Simd → Option Bytes → Bytes
sent_reason simd none = []
sent_reason simd (some message) =
    if nonzero (length message) && is_valid_utf8 simd message then message else []

-- The bytes written to `dst`; a null `message` is `none`.
pub format_close_payload : Simd → ℕ → Option Bytes → Bytes
unfolding sent_reason
format_close_payload simd code message =
    if nonzero code && not (code == 1005) && not (code == 1006)
    then to_big_endian 2 code ++ sent_reason simd message
    else []
