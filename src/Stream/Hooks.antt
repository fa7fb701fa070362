-- ===== src/Stream/Hooks.antt =====
-- The hooks of StreamWebSocket.cpp through which the parser calls the session: refusePayloadLength,
-- setCompressed, forceClose and handleFragment, with appendFragment and inflateMessage.
pub mod Messages
pub mod Keep
pub mod Closing
pub mod Parts
use eiows.Common.{
  ℕ, ◌+◌, ◌-◌, ◌%◌, ◌^◌, Bool, true, false, not, ◌&&◌, ◌||◌, Option, none, some, List, [], ◌∷◌,
  ◌++◌, ltb, ◌==◌, if◌then◌else◌, Bytes, length, take, drop,
}
use eiows.Protocol.Ascii.{Simd}
use eiows.Protocol.CloseFrame.{CloseFrame, parse_close_payload}
use eiows.Protocol.Frame.{nonzero}
use eiows.Protocol.OpCode
use eiows.Protocol.State.{Hooks}
use eiows.Protocol.Utf8.{is_valid_utf8}
use eiows.Stream.Session.{
  EventType, message, Event, InflateResult, success, internal_error, CompressionStatus, enabled,
  compressed_frame, Codec, Session, has_option, client_no_context_takeover,
  close_code_for_inflate_result, format_frame, push_event, emit_frame, emit_close, send_close, fail,
  fail_with,
}

-- std::numeric_limits<unsigned int>::max()
abbrev pub uint_max : ℕ
uint_max = 0xffff_ffff

-- (maxPayload && n > maxPayload) || n > UINT_MAX
abbrev pub too_large : ℕ → ℕ → Bool
too_large max_payload n = (nonzero max_payload && ltb max_payload n) || ltb uint_max n

abbrev pub is_empty : Bytes → Bool
is_empty [] = true
is_empty (b ∷ s) = false

-- A message's payload, ready to be delivered, or the session that has failed for it.
pub data Inflated (Context : Type 0) : Type 0 where
  plain : Inflated Context
  inflated : Bytes → Session Context → Inflated Context
  broken : Session Context → Inflated Context

module _ {Context : Type 0} (codec : Codec Context) (simd : Simd) where
  pub refuse_payload_length : ℕ → Session Context → Bool × Session Context
  refuse_payload_length n s =
      if too_large s.max_payload n then (true, record s { failure_code = 1009 }) else (false, s)

  pub set_compressed_status : CompressionStatus → Session Context → Bool × Session Context
  set_compressed_status enabled s = (true, record s { compression_status = compressed_frame })
  set_compressed_status _ s = (false, s)

  pub set_compressed : Session Context → Bool × Session Context
  set_compressed s = set_compressed_status s.compression_status s

  pub force_close : Session Context → Session Context
  force_close s = fail simd s.failure_code s

  -- appendFragment; `some` is its `return false`, with the failed session.
  pub append_fragment : Bytes → ℕ → Session Context → Bool × Session Context
  append_fragment bytes remaining s =
      let required = length s.fragment_buffer + length bytes + remaining in
      if too_large s.max_payload required
      then (false, fail_with simd 1009 s)
      else (true, record s { fragment_buffer = s.fragment_buffer ++ bytes })

  -- inflateMessage on the context chosen, which `put` stores again.
  pub inflate_in :
      Option Context
      → (Context → InflateResult × Bytes × Context)
      → (Context → Session Context)
      → Session Context
      → InflateResult × Bytes × Session Context
  inflate_in none call put s = (internal_error, [], s)
  inflate_in (some context) call put s =
      let (result, out, context') = call context in (result, out, put context')

  -- inflateMessage: the context is the shared one or the session's own.
  pub inflate_message : Bytes → Session Context → InflateResult × Bytes × Session Context
  inflate_message bytes s =
      let no_takeover = has_option s.extension_options client_no_context_takeover in
      let call = codec.inflate_message bytes s.max_payload no_takeover in
      if no_takeover
      then inflate_in s.shared_context call (λ c. record s { shared_context = some c }) s
      else inflate_in s.private_context call (λ c. record s { private_context = some c }) s

  -- The outcome of inflateMessage.
  pub inflate_outcome : InflateResult → Bytes → Session Context → Inflated Context
  inflate_outcome success out s = inflated out s
  inflate_outcome result out s = broken (fail_with simd (close_code_for_inflate_result result) s)

  -- The block `if (compressionStatus == COMPRESSED_FRAME)`.
  pub inflate_payload : CompressionStatus → Bytes → Session Context → Inflated Context
  inflate_payload compressed_frame bytes s =
      let (result, out, s') = inflate_message bytes (record s { compression_status = enabled }) in
      inflate_outcome result out s'
  inflate_payload _ bytes s = plain

  -- The UTF-8 test and the event of a message; `owned` and `view` are the event's two payloads.
  pub push_message : ℕ → Bytes → Bytes → Option Bytes → Session Context → Bool × Session Context
  push_message op_code text owned view s =
      if op_code == OpCode.text && not (is_valid_utf8 simd text)
      then (true, fail_with simd 1007 s)
      else (
        false,
        push_event
            (record { type = message; bytes = owned; op_code = op_code; code = 0; view = view }) s,
      )

  -- A message that is one frame: it is not copied.
  pub single_frame : ℕ → Bytes → Session Context → Bool × Session Context
  single_frame op_code bytes s = elim (inflate_payload s.compression_status bytes s) [
    | plain ↦ push_message op_code bytes [] (some bytes) s
    | inflated out s' ↦ push_message op_code out out none s'
    | broken s' ↦ (true, s')
  ]

  -- fragmentBuffer.clear(), unless the message was refused
  abbrev pub clear_buffer : Bool × Session Context → Bool × Session Context
  clear_buffer (stop, s) = (stop, if stop then s else record s { fragment_buffer = [] })

  -- A message whose frames are in the buffer.
  pub buffered_frames : ℕ → Session Context → Bool × Session Context
  buffered_frames op_code s = elim (inflate_payload s.compression_status s.fragment_buffer s) [
    | plain ↦ clear_buffer (push_message op_code s.fragment_buffer s.fragment_buffer none s)
    | inflated out s' ↦ clear_buffer (push_message op_code out out none s')
    | broken s' ↦ (true, s')
  ]

  -- After appendFragment.
  pub after_append : Bool → ℕ → Bool × Session Context → Bool × Session Context
  after_append last op_code (false, s) = (true, s)
  after_append last op_code (true, s) = if last then buffered_frames op_code s else (false, s)

  -- opCode < 3
  pub handle_data : Bytes → ℕ → ℕ → Bool → Session Context → Bool × Session Context
  handle_data bytes remaining op_code fin s =
      let last = remaining == 0 && fin in
      if last && is_empty s.fragment_buffer
      then single_frame op_code bytes s
      else after_append last op_code (append_fragment bytes remaining s)

  -- opCode == CLOSE, on the frame's payload
  pub receive_close : Bytes → Session Context → Session Context
  receive_close bytes s =
      let cf = parse_close_payload simd bytes in
      if cf.code == 1006
      then fail_with simd 1002 s
      else emit_close cf.code cf.message
          (send_close simd cf.code (some cf.message) (record s { closing = true }))

  -- The reply to a Ping.
  pub reply : ℕ → Bytes → Session Context → Session Context
  reply op_code bytes s =
      if op_code == OpCode.ping then emit_frame (format_frame bytes OpCode.pong false) s else s

  -- A control frame that has come in parts; they are at the end of the buffer.
  pub buffered_control : ℕ → Session Context → Bool × Session Context
  buffered_control op_code s =
      let start = length s.fragment_buffer - s.control_tip_length in
      let bytes = drop start s.fragment_buffer in
      if op_code == OpCode.close then (true, receive_close bytes s) else (
        false,
        record (reply op_code bytes s) {
          fragment_buffer = take start s.fragment_buffer;
          control_tip_length = 0;
        },
      )

  pub handle_control : Bytes → ℕ → ℕ → Bool → Session Context → Bool × Session Context
  handle_control bytes remaining op_code fin s =
      let last = remaining == 0 && fin in
      let s' = record s {
        fragment_buffer = s.fragment_buffer ++ bytes;
        control_tip_length = (s.control_tip_length + length bytes) % 2 ^ 8;
      } in
      if last && s.control_tip_length == 0
      then if op_code == OpCode.close
        then (true, receive_close bytes s)
        else (false, reply op_code bytes s)
      else if last
      then buffered_control op_code s'
      else (false, s')

  pub handle_fragment : Bytes → ℕ → ℕ → Bool → Session Context → Bool × Session Context
  handle_fragment bytes remaining op_code fin s =
      if s.closing
      then (true, s)
      else if s.close_sent
          && not (op_code == OpCode.close)
          && not (op_code == OpCode.ping)
          && not (op_code == OpCode.pong)
      then (false, s)
      else if ltb op_code 3
      then handle_data bytes remaining op_code fin s
      else handle_control bytes remaining op_code fin s

  -- protocolHooks
  abbrev pub protocol_hooks : Hooks (Session Context)
  protocol_hooks = record {
    refuse_payload_length = refuse_payload_length;
    set_compressed = set_compressed;
    force_close = force_close;
    handle_fragment = handle_fragment;
  }
