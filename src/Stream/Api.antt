-- ===== src/Stream/Api.antt =====
-- What the owner of a StreamWebSocket calls (uWebSockets/src/StreamWebSocket.cpp): consume,
-- releaseEvents, createFrame and createCloseFrame, with deflateMessage.
pub mod Reads
pub mod Sends
use eiows.Common.{
  ℕ, ◌+◌, ◌-◌, ◌%◌, ◌^◌, min, Bool, true, false, not, ◌&&◌, ◌||◌, Option, none, some, List, [], ◌∷◌,
  ◌++◌, ltb, ◌==◌, if◌then◌else◌, Bytes, length, take, drop, get_or,
}
use eiows.Protocol.Ascii.{Simd}
use eiows.Protocol.Frame.{nonzero, short_message_header, medium_message_header, long_message_header}
use eiows.Protocol.OpCode
use eiows.Protocol.Parser
use eiows.Protocol.State.{WebSocketState, initial_state}
use eiows.Protocol.Utf8.{is_valid_utf8}
use eiows.Stream.Hooks.{protocol_hooks, uint_max}
use eiows.Stream.Session.{
  Codec, Session, CompressionStatus, disabled, enabled, compressed_frame, has_option, format_frame,
  format_close, fail, fail_with, server_no_context_takeover, new_session,
}

-- The parser's part and the session's part of a StreamWebSocket.
pub record StreamWebSocket (Context : Type 0) : Type 0 where
  pub state : WebSocketState
  pub session : Session Context

-- The length of the header whose first bytes are in the spill; `data` is the next read.
pub spilled_header_length : WebSocketState → Bytes → ℕ
spilled_header_length w bytes =
    let marker = (if ltb 1 w.spill_length then get_or w.spill 1 0 else get_or bytes 0 0) % 2 ^ 7 in
    if ltb marker 126
    then short_message_header
    else if marker == 126
    then medium_message_header
    else long_message_header

-- How much of the next read is copied behind the spill; the subtraction is one of size_t.
pub spilled_part : WebSocketState → Bytes → ℕ
spilled_part w bytes =
    min (length bytes) ((spilled_header_length w bytes + 2 ^ 64 - w.spill_length) % 2 ^ 64)

abbrev pub is_deflating : CompressionStatus → Bool
is_deflating disabled = false
is_deflating enabled = true
is_deflating compressed_frame = true

abbrev pub is_closing : {Context : Type 0} → Session Context → Bool
is_closing s = s.closing || s.close_sent

module _ {Context : Type 0} (codec : Codec Context) (simd : Simd) where
  abbrev pub new_stream : ℕ → ℕ → ℕ → Option Context → StreamWebSocket Context
  new_stream options window_bits max_payload given = record {
    state = initial_state;
    session = new_session codec options window_bits max_payload given;
  }

  pub release_events : Session Context → Session Context
  release_events s = record s { events = [] }

  -- WebSocketProtocol::consume on the stream.
  pub parse : Bytes → StreamWebSocket Context → StreamWebSocket Context
  parse bytes ws =
      let (w, s) = Parser.consume (protocol_hooks codec simd) simd bytes ws.state ws.session in
      record { state = w; session = s }

  -- The branch `if (state.spillLength)`.
  pub consume_spilled : Bytes → StreamWebSocket Context → StreamWebSocket Context
  consume_spilled bytes ws =
      let copied = spilled_part ws.state bytes in
      let ws' = parse (take copied bytes) ws in
      if not ws'.session.closing && ltb copied (length bytes)
      then parse (drop copied bytes) ws'
      else ws'

  pub consume : Bytes → StreamWebSocket Context → StreamWebSocket Context
  consume bytes ws =
      let s = record (release_events ws.session) { failure_code = 1002 } in
      let ws' = record ws { session = s } in
      if s.closing || length bytes == 0
      then ws'
      else if ltb uint_max (length bytes)
      then record ws { session = fail_with simd 1009 s }
      else if nonzero ws.state.spill_length
      then consume_spilled bytes ws'
      else parse bytes ws'

  -- deflateMessage; `none` is its false.
  pub deflate_message : Bytes → Session Context → Option Bytes × Session Context
  deflate_message bytes s =
      let no_takeover = has_option s.extension_options server_no_context_takeover in
      let call = codec.deflate_message bytes s.server_max_window_bits no_takeover in
      if no_takeover
      then elim s.shared_context [
        | none ↦ (none, s)
        | some context ↦
            let (out, context') = call context in (out, record s { shared_context = some context' })
      ]
      else elim s.private_context [
        | none ↦ (none, s)
        | some context ↦
            let (out, context') = call context in
            (out, record s { private_context = some context' })
      ]

  -- The frame of a deflated message.
  abbrev compressed_frame_of : ℕ → Option Bytes × Session Context → Option Bytes × Session Context
  compressed_frame_of op_code (none, s) = (none, s)
  compressed_frame_of op_code (some out, s) = (some (format_frame out op_code true), s)

  -- createFrame; `none` is its false.
  pub create_frame : Bytes → ℕ → Bool → Session Context → Option Bytes × Session Context
  create_frame bytes op_code compress s =
      if s.closing
        || s.close_sent
        || (not (op_code == OpCode.text) && not (op_code == OpCode.binary))
      then (none, s)
      else if op_code == OpCode.text && not (is_valid_utf8 simd bytes)
      then (none, s)
      else if compress && is_deflating s.compression_status
      then compressed_frame_of op_code (deflate_message bytes s)
      else (some (format_frame bytes op_code false), s)

  -- createCloseFrame; `none` is its false.
  pub create_close_frame : ℕ → Option Bytes → Session Context → Option Bytes × Session Context
  create_close_frame code reason s =
      if s.closing || s.close_sent
      then (none, s)
      else (some (format_close simd code reason), record s { close_sent = true })
