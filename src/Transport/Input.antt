-- ===== src/Transport/Input.antt =====
-- How a transport reads: poll, readTCP, readTLSMemoryBIO, processMemoryBIO, consume and
-- dispatchMessage of nodejs/src/native_transport.cpp.
use eiows.Common.{
  ℕ, zero, suc, Bool, true, false, not, ◌&&◌, ◌||◌, Option, none, some, List, [], ◌∷◌,
  if◌then◌else◌, ◌==◌, Bytes, length, drop,
}
use eiows.Protocol.Ascii.{Simd}
use eiows.Stream.Api
use eiows.Stream.Api.{StreamWebSocket}
use eiows.Stream.Session.{Codec, Event, EventType, message, frame, close, payload}
use eiows.Transport.Close.{fail, close_now}
use eiows.Transport.Output.{flush_memory_bio_output}
use eiows.Transport.Submit.{
  maybe_finish_peer_close, perform_tls_shutdown, flush_writes, update_poll, write_owned, is_some,
}
use eiows.Transport.System.{
  System, Transport, uv_ecanceled, WriteStatus, write_error, system_error, write_failed,
  tls_input_failed, tls_read_failed, on_message, Received, received, end_of_input, recv_blocked,
  recv_failed, ssl_data, ssl_read_blocked, ssl_closed, ssl_read_failed,
}

module _ {World Context : Type 0} (system : System World Context) (codec : Codec Context)
    (simd : Simd) (rounds : ℕ) where
  abbrev pub released_of :
      Option (StreamWebSocket Context) → Transport World Context → Transport World Context
  released_of none t = t
  released_of (some ws) t = record t {
    session = some (record ws { session = Api.release_events codec simd ws.session });
  }

  -- releaseEvents of the session, while there is one
  abbrev pub release : Transport World Context → Transport World Context
  release t = released_of t.session t

  -- A FRAME event's bytes were submitted.
  unfoldable pub frame_submitted :
      WriteStatus × Transport World Context → Bool × Transport World Context
  frame_submitted (write_error error, t) = (false, fail system (write_failed error) t)
  frame_submitted (status, t) = (true, t)

  abbrev pub consume_event_type :
      (Transport World Context → Bool × Transport World Context)
      → Event
      → EventType
      → Transport World Context
      → Bool × Transport World Context
  consume_event_type process event frame t =
      frame_submitted (write_owned system rounds process event.bytes t)
  consume_event_type process event message t =
      system.call (on_message (payload event) event.op_code) t
  consume_event_type process event close t = (
    true,
    maybe_finish_peer_close system rounds process (record t {
      pending_close = true;
      pending_close_code = event.code;
      pending_close_reason = payload event;
    }),
  )

  unfoldable pub consume_event :
      (Transport World Context → Bool × Transport World Context)
      → Event
      → Transport World Context
      → Bool × Transport World Context
  consume_event process event t = consume_event_type process event event.type t

  -- The loop of consume over the events.
  unfoldable pub consume_events :
      (Transport World Context → Bool × Transport World Context)
      → List Event
      → Transport World Context
      → Bool × Transport World Context
  consume_events process [] t = (not t.closing, t)
  consume_events process (event ∷ events) t =
      let (went_on, t') = consume_event process event t in
      let behind = consume_events process events t' in
      if not (is_some t.session) || t.closing
      then (false, t)
      else if went_on
      then behind
      else (false, t')

  abbrev pub consume_session :
      (Transport World Context → Bool × Transport World Context)
      → Bytes
      → Option (StreamWebSocket Context)
      → Transport World Context
      → Bool × Transport World Context
  consume_session process bytes none t = (false, t)
  consume_session process bytes (some ws) t =
      let ws' = Api.consume codec simd bytes ws in
      let (result, t') =
        consume_events process ws'.session.events (record t { session = some ws' }) in
      (result, release t')

  -- The callers of consume have a session; what it throws is not modelled.
  unfoldable pub consume :
      (Transport World Context → Bool × Transport World Context)
      → Bytes
      → Transport World Context
      → Bool × Transport World Context
  consume process bytes t = consume_session process bytes t.session t

  -- processMemoryBIO while it is being run already (tlsProcessingInput_).
  pub process_again : Transport World Context → Bool × Transport World Context
  process_again t =
      if not t.encrypted || t.closing then (not t.closing, t) else flush_memory_bio_output system t

  -- The loop of processMemoryBIO. A TLS session that never runs dry would keep it running, so it has
  -- rounds.
  pub read_plaintext : ℕ → Transport World Context → Bool × Transport World Context
  read_plaintext zero t = flush_memory_bio_output system t
  read_plaintext (suc fuel) t =
      let (result, world) = system.ssl_read t.world in
      let t' : Transport World Context = record t { world = world } in
      let answer : Bool × Transport World Context = elim result [
        | ssl_data [] ↦ (false, fail system tls_read_failed t')
        | ssl_data (b ∷ bs) ↦
            let (went_on, t'') = consume process_again (b ∷ bs) t' in
            let more = read_plaintext fuel t'' in
            if not went_on
            then (false, t'')
            else if system.ssl_has_input t''.world
            then more
            else flush_memory_bio_output system t''
        | ssl_read_blocked ↦ flush_memory_bio_output system t'
        | ssl_closed ↦ (false, close_now system uv_ecanceled t')
        | ssl_read_failed ↦ (false, fail system tls_read_failed t')
      ] in
      if t.closing then flush_memory_bio_output system t else answer

  abbrev pub unguard : Bool × Transport World Context → Bool × Transport World Context
  unguard (result, t) = (result, record t { tls_processing_input = false })

  unfoldable pub process_memory_bio : Transport World Context → Bool × Transport World Context
  process_memory_bio t =
      if not t.encrypted || t.closing
      then (not t.closing, t)
      else if t.tls_processing_input
      then flush_memory_bio_output system t
      else unguard (read_plaintext rounds (record t { tls_processing_input = true }))

  abbrev pub flush : Transport World Context → Transport World Context
  flush t = flush_writes system rounds process_memory_bio t

  abbrev pub shutdown : Transport World Context → Transport World Context
  shutdown t = perform_tls_shutdown system rounds process_memory_bio t

  -- recv, once it is not interrupted
  unfoldable pub tcp_received : Received → Transport World Context → Transport World Context
  tcp_received (received bytes) t = (consume process_memory_bio bytes t).1
  tcp_received end_of_input t = close_now system uv_ecanceled t
  tcp_received recv_blocked t = t
  tcp_received (recv_failed errno) t = fail system (system_error errno) t

  unfoldable pub read_tcp : Transport World Context → Transport World Context
  read_tcp t =
      let (result, world) = system.recv t.world in tcp_received result (record t { world = world })

  -- The loop that hands ciphertext to OpenSSL: each round hands on a byte at least.
  pub transfer_input : ℕ → Bytes → World → Bool × World
  transfer_input zero bytes world = (length bytes == 0, world)
  transfer_input (suc fuel) bytes world =
      let (n, world') = system.bio_write bytes world in
      let more = transfer_input fuel (drop n bytes) world' in
      if length bytes == 0 then (true, world) else if n == 0 then (false, world') else more

  abbrev input_transferred : Bool × World → Transport World Context → Transport World Context
  input_transferred (false, world) t = fail system tls_input_failed (record t { world = world })
  input_transferred (true, world) t = (process_memory_bio (record t { world = world })).1

  pub tls_received : Received → Transport World Context → Transport World Context
  tls_received (received bytes) t =
      input_transferred (transfer_input (length bytes) bytes t.world) t
  tls_received end_of_input t = close_now system uv_ecanceled t
  tls_received recv_blocked t = (process_memory_bio t).1
  tls_received (recv_failed errno) t = fail system (system_error errno) t

  pub read_tls_memory_bio : Transport World Context → Transport World Context
  read_tls_memory_bio t =
      let (result, world) = system.recv t.world in
      if t.closing then t else tls_received result (record t { world = world })

  unfoldable pub read_available : Transport World Context → Transport World Context
  read_available t = if t.encrypted then read_tls_memory_bio t else read_tcp t

  -- The branch of poll for UV_READABLE
  unfoldable pub poll_readable : Transport World Context → Transport World Context
  poll_readable t =
      let t' = read_available (record t { tls_write_blocked_on_read = false }) in
      if not t'.closing && t.tls_write_blocked_on_read then flush t' else t'

  abbrev pub flush_unless_closing : Transport World Context → Transport World Context
  flush_unless_closing t = if not t.closing then flush t else t

  abbrev pub shutdown_if_pending : Transport World Context → Transport World Context
  shutdown_if_pending t = if not t.closing && t.tls_shutdown_pending then shutdown t else t

  abbrev pub process_if_encrypted : Transport World Context → Transport World Context
  process_if_encrypted t = if t.encrypted then (process_memory_bio t).1 else t

  abbrev pub write_available : Transport World Context → Transport World Context
  write_available t = shutdown_if_pending (flush_unless_closing (process_if_encrypted t))

  -- The branch of poll for UV_WRITABLE
  unfoldable pub poll_writable : Transport World Context → Transport World Context
  poll_writable t =
      let t' = if t.tls_shutdown_pending then shutdown t else t in
      if t.tls_shutdown_pending && t'.closing then t' else write_available t'

  abbrev pub poll_events :
      (readable writable : Bool) → Transport World Context → Transport World Context
  poll_events readable writable t =
      let t' = if readable then poll_readable t else t in
      let t'' = if not t'.closing && writable then poll_writable t' else t' in
      if not t''.closing then update_poll system t'' else t''

  -- onPoll's call; an error of the loop is an errno.
  unfoldable pub poll :
      Option ℕ → (readable writable : Bool) → Transport World Context → Transport World Context
  poll status readable writable t = if t.closing then t else elim status [
    | some errno ↦ fail system (system_error errno) t
    | none ↦ poll_events readable writable t
  ]
