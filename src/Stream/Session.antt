-- ===== src/Stream/Session.antt =====
-- The state of a StreamWebSocket (uWebSockets/src/StreamWebSocket.h), its events, and the helpers
-- of StreamWebSocket.cpp that write frames and events: formatFrame, formatClose, emitFrame,
-- emitClose, fail, and the choice of the compression context.
use eiows.Common.{
  ℕ, bit_and, Bool, true, false, not, ◌&&◌, Option, none, some, List, [], ◌∷◌, ◌++◌, if◌then◌else◌,
  Bytes, length, take,
}
use eiows.Protocol.Ascii.{Simd}
use eiows.Protocol.CloseFrame.{format_close_payload}
use eiows.Protocol.Frame.{format_message, nonzero}
use eiows.Protocol.OpCode

pub data EventType : Type 0 where
  message frame close : EventType

-- StreamWebSocketEvent. `view` is the borrowed range, if there is one.
pub record Event : Type 0 where
  pub type : EventType
  pub bytes : Bytes
  pub op_code : ℕ
  pub code : ℕ
  pub view : Option Bytes

-- payloadData() with payloadLength()
abbrev pub payload : Event → Bytes
payload e = elim e.view [ none ↦ e.bytes | some range ↦ range ]

pub data InflateResult : Type 0 where
  success invalid_data payload_too_large internal_error : InflateResult

pub data CompressionStatus : Type 0 where
  disabled enabled compressed_frame : CompressionStatus

-- The operations of CompressionContext that a session uses: inflateMessage(data, maxPayload,
-- resetAfter) and deflateMessage(data, windowBits, resetAfter), with the output and the context
-- after the call. `none` is deflateMessage's false.
pub record Codec (Context : Type 0) : Type 0 where
  pub fresh : Context
  pub inflate_message : Bytes → ℕ → Bool → Context → InflateResult × Bytes × Context
  pub deflate_message : Bytes → ℕ → Bool → Context → Option Bytes × Context

-- The fields of StreamWebSocket but for those of WebSocketState. A null context is `none`.
pub record Session (Context : Type 0) : Type 0 where
  pub max_payload : ℕ
  pub extension_options : ℕ
  pub server_max_window_bits : ℕ
  pub compression_status : CompressionStatus
  pub fragment_buffer : Bytes
  pub control_tip_length : ℕ
  pub events : List Event
  pub shared_context : Option Context
  pub private_context : Option Context
  pub closing : Bool
  pub close_sent : Bool
  pub failure_code : ℕ

-- enum Options
abbrev pub permessage_deflate : ℕ
permessage_deflate = 1

abbrev pub server_no_context_takeover : ℕ
server_no_context_takeover = 2

abbrev pub client_no_context_takeover : ℕ
client_no_context_takeover = 4

-- extensionOptions & flag
abbrev pub has_option : ℕ → ℕ → Bool
has_option options flag = nonzero (bit_and options flag)

pub close_code_for_inflate_result : InflateResult → ℕ
close_code_for_inflate_result payload_too_large = 1009
close_code_for_inflate_result internal_error = 1011
close_code_for_inflate_result _ = 1007

-- formatFrame
unfoldable pub format_frame : Bytes → ℕ → Bool → Bytes
format_frame bytes op_code compressed = format_message bytes op_code (length bytes) compressed

abbrev pub max_close_reason : ℕ
max_close_reason = 123

-- formatClose; a null message is `none`, and a given one is cut to MAX_CLOSE_REASON bytes.
unfoldable pub format_close : Simd → ℕ → Option Bytes → Bytes
format_close simd code none = format_frame (format_close_payload simd code none) OpCode.close false
format_close simd code (some reason) =
    format_frame (format_close_payload simd code (some (take max_close_reason reason))) OpCode.close
      false

module _ {Context : Type 0} where
  -- StreamWebSocket::StreamWebSocket
  abbrev pub new_session : Codec Context → ℕ → ℕ → ℕ → Option Context → Session Context
  new_session codec options window_bits max_payload given =
      let deflate = has_option options permessage_deflate in
      let shared : Option Context = elim given [
        | none ↦ some codec.fresh
        | some context ↦ some context
      ] in
      let both =
        has_option options client_no_context_takeover
        && has_option options server_no_context_takeover in
      record {
        max_payload = max_payload;
        extension_options = options;
        server_max_window_bits = window_bits;
        compression_status = if deflate then enabled else disabled;
        fragment_buffer = [];
        control_tip_length = 0;
        events = [];
        shared_context = if deflate then shared else given;
        private_context = if deflate && not both then some codec.fresh else none;
        closing = false;
        close_sent = false;
        failure_code = 1002;
      }

  -- events.push_back(...)
  abbrev pub push_event : Event → Session Context → Session Context
  push_event e s = record s { events = s.events ++ (e ∷ []) }

  abbrev pub emit_frame : Bytes → Session Context → Session Context
  emit_frame bytes s =
      push_event (record { type = frame; bytes = bytes; op_code = 0; code = 0; view = none }) s

  abbrev pub emit_close : ℕ → Bytes → Session Context → Session Context
  emit_close code reason s =
      push_event (record { type = close; bytes = reason; op_code = 0; code = code; view = none }) s

  -- The frame of a close that has not been sent yet.
  unfoldable pub send_close : Simd → ℕ → Option Bytes → Session Context → Session Context
  send_close simd code reason s =
      if s.close_sent
      then s
      else emit_frame (format_close simd code reason) (record s { close_sent = true })

  unfoldable pub fail : Simd → ℕ → Session Context → Session Context
  fail simd code s =
      if s.closing
      then s
      else emit_close 1006 [] (send_close simd code none (record s { closing = true }))

  -- failureCode = code; fail(failureCode);
  abbrev pub fail_with : Simd → ℕ → Session Context → Session Context
  fail_with simd code s = fail simd code (record s { failure_code = code })
