-- ===== src/Transport/Api.antt =====
-- What the owner of a transport and the event loop call: activate, requestDestroy, terminate, feed,
-- the writes, onPollClosed and the cleanup of the environment (nodejs/src/native_transport.cpp).
use eiows.Common.{
  ℕ, ◌-◌, Bool, true, false, not, ◌&&◌, ◌||◌, Option, none, some, List, [], ◌∷◌, ◌++◌, leb, ◌==◌,
  if◌then◌else◌, Bytes, length,
}
use eiows.Protocol.Ascii.{Simd}
use eiows.Protocol.OpCode
use eiows.Stream.Api
use eiows.Stream.Api.{StreamWebSocket, is_closing}
use eiows.Stream.Session.{Codec}
use eiows.Transport.Close.{close_now, notify}
use eiows.Transport.FrameHeader.{frame_header}
use eiows.Transport.Input.{process_memory_bio, consume}
use eiows.Transport.Submit.{flush_writes, update_poll, submit, write_owned, writable, is_some}
use eiows.Transport.System.{
  System, Transport, UvError, uv_ecanceled, uv_ebadf, uv_einval, uv_eio, WriteStatus,
  write_not_sent, write_error, on_closed,
}
use eiows.Transport.WriteRequest.{new_request, inline_bytes}

module _ {World Context : Type 0} (system : System World Context) (codec : Codec Context)
    (simd : Simd) (rounds : ℕ) where
  abbrev process : Transport World Context → Bool × Transport World Context
  process t = process_memory_bio system codec simd rounds t

  abbrev flush_and_watch : Bool × Transport World Context → Option UvError × Transport World Context
  flush_and_watch (false, t) = (some uv_eio, t)
  flush_and_watch (true, t) =
      let t' = update_poll system (flush_writes system rounds process t) in
      (if t'.closing then some uv_eio else none, t')

  -- activate behind uv_poll_init_socket
  pub poll_ready :
      Option UvError × World → Transport World Context → Option UvError × Transport World Context
  poll_ready (some error, world) t = (some error, record t { world = world })
  poll_ready (none, world) t =
      let t' : Transport World Context = record t {
        world = world;
        poll_initialized = true;
        active = true;
      } in
      flush_and_watch (if t.encrypted then process t' else (true, t'))

  pub activate : Transport World Context → Option UvError × Transport World Context
  activate t =
      let t' : Transport World Context = record t {
        tls_callbacks_retained = t.tls_callbacks_retained || t.encrypted;
      } in
      if not t.valid || t.active || t.closing
      then (some uv_einval, t)
      else if t.encrypted && not (system.ssl_has_bios t.world)
      then (some uv_einval, t')
      else poll_ready (system.poll_init t.world) t'

  abbrev close_unless_closing : Transport World Context → Transport World Context
  close_unless_closing t = if not t.closing then close_now system uv_ecanceled t else t

  abbrev delete : Transport World Context → Transport World Context
  delete t = record t { deleted = true }

  pub request_destroy : Transport World Context → Transport World Context
  request_destroy t =
      let t' : Transport World Context = record t { destroy_requested = true; session = none } in
      let t'' = close_unless_closing t' in
      if not t.active
      then delete t'
      else if t''.poll_closed && not t''.inside_close_callback
      then delete t''
      else t''

  pub terminate : Transport World Context → Transport World Context
  terminate t = close_unless_closing t

  -- The environment's own list of transports is not part of the state.
  pub begin_environment_cleanup : Transport World Context → Transport World Context
  begin_environment_cleanup t =
      let t' =
        close_unless_closing
          (record t { environment_cleaning = true; destroy_requested = true; session = none }) in
      if not t'.poll_initialized || t'.poll_closed then delete t' else t'

  pub feed : Bytes → Transport World Context → Bool × Transport World Context
  feed bytes t =
      if not (is_some t.session) || t.closing
      then (false, t)
      else consume system codec simd rounds process bytes t

  abbrev submit_parts :
      List Bytes → Option ℕ → Transport World Context → WriteStatus × Transport World Context
  submit_parts parts callback t =
      let (address, world) = system.allocate t.world in
      submit system rounds process (new_request address parts callback) (record t { world = world })

  -- The frame that createFrame has made, or it threw.
  abbrev submit_framed :
      Option Bytes → Option ℕ → Transport World Context → WriteStatus × Transport World Context
  submit_framed none callback t = (write_error uv_einval, t)
  submit_framed (some frame) callback t = submit_parts (frame ∷ []) callback t

  -- addSmallTextFrame puts the header and the text into one part, where they fit.
  pub message_parts : Bytes → (op_code : ℕ) → (is_string : Bool) → List Bytes
  message_parts bytes op_code is_string =
      let header = frame_header (length bytes) op_code in
      if op_code == OpCode.text && is_string && leb (length bytes) (inline_bytes - length header)
      then (header ++ bytes) ∷ []
      else header ∷ bytes ∷ []

  abbrev pub write_message_of :
      Bytes
      → (is_string : Bool) → (op_code : ℕ) → (compress : Bool) → Option ℕ
      → Option (StreamWebSocket Context)
      → Transport World Context
      → WriteStatus × Transport World Context
  write_message_of bytes is_string op_code compress callback none t = (write_error uv_ebadf, t)
  write_message_of bytes is_string op_code compress callback (some ws) t =
      let (framed, s) = Api.create_frame codec simd bytes op_code true ws.session in
      if not (writable system rounds process t)
      then (write_error uv_ebadf, t)
      else if compress && not (is_closing ws.session)
      then submit_framed framed callback (record t { session = some (record ws { session = s }) })
      else submit_parts (message_parts bytes op_code is_string) callback t

  -- writeMessage, of the bytes of its input. What N-API refuses is not modelled.
  pub write_message :
      Bytes
      → (is_string : Bool) → (op_code : ℕ) → (compress : Bool) → Option ℕ
      → Transport World Context
      → WriteStatus × Transport World Context
  write_message bytes is_string op_code compress callback t =
      write_message_of bytes is_string op_code compress callback t.session t

  -- writeFrameList, of the bytes of its elements
  pub write_frame_list :
      List Bytes → Option ℕ → Transport World Context → WriteStatus × Transport World Context
  write_frame_list parts callback t =
      if not (writable system rounds process t)
      then (write_error uv_ebadf, t)
      else if length parts == 0
      then (write_error uv_einval, t)
      else submit_parts parts callback t

  pub write_frame :
      Bytes → Option ℕ → Transport World Context → WriteStatus × Transport World Context
  write_frame frame callback t =
      if not (writable system rounds process t)
      then (write_error uv_ebadf, t)
      else submit_parts (frame ∷ []) callback t

  abbrev pub close_framed :
      Option Bytes → Transport World Context → WriteStatus × Transport World Context
  close_framed none t = (write_not_sent, t)
  close_framed (some frame) t = write_owned system rounds process frame t

  abbrev pub write_close_of :
      ℕ
      → Option Bytes
      → Option (StreamWebSocket Context)
      → Transport World Context
      → WriteStatus × Transport World Context
  write_close_of code reason none t = (write_error uv_ebadf, t)
  write_close_of code reason (some ws) t =
      let (framed, s) = Api.create_close_frame codec simd code reason ws.session in
      if not (writable system rounds process t)
      then (write_error uv_ebadf, t)
      else close_framed framed (record t { session = some (record ws { session = s }) })

  pub write_close :
      ℕ → Option Bytes → Transport World Context → WriteStatus × Transport World Context
  write_close code reason t = write_close_of code reason t.session t

  abbrev pub buffered_amount : Transport World Context → ℕ
  buffered_amount t = t.pending_bytes

  -- onPollClosed; N-API opens its scope.
  pub on_poll_closed : Transport World Context → Transport World Context
  on_poll_closed t =
      let told =
        notify system on_closed (record t { poll_closed = true; inside_close_callback = true }) in
      let told' : Transport World Context = record told { inside_close_callback = false } in
      if t.environment_cleaning
      then delete (record t { poll_closed = true })
      else if told'.destroy_requested
      then delete told'
      else told'
