-- ===== src/Transport/Ordered/Polls.antt =====
-- What a transport without TLS does with its input, and in a poll, keeps the order of its output.
use eiows.Common.{
  ℕ, ◌≡◌, ◌≢◌, refl, inl, inr, Bool, true, false, not, ◌||◌, ◌&&◌, Option, none, some, List, [],
  ◌∷◌, if◌then◌else◌, if_intro, Bytes,
}
use eiows.Protocol.Ascii.{Simd}
use eiows.Stream.Api
use eiows.Stream.Api.{StreamWebSocket}
use eiows.Stream.Session.{Codec, Event, EventType, message, frame, close, payload}
use eiows.Transport.Close.{fail}
use eiows.Transport.Input.{
  released_of, consume_event_type, consume_session, release, frame_submitted, consume_event,
  consume_events, consume, process_memory_bio, tcp_received, read_tcp, read_available,
  poll_readable, poll_writable, process_if_encrypted, poll_events, poll, flush, shutdown,
  write_available, flush_unless_closing,
}
use eiows.Transport.Ordered.{
  TcpLaws, consistent_intro, IsOrdered, Extends, IsConsistent, consistent, unchanged, step,
}
use eiows.Transport.Ordered.Closes.{close_now-closing, fail-closing}
use eiows.Transport.Ordered.Submits.{
  flush_writes-Extends, update_poll-Extends, maybe_finish_peer_close-Extends,
  perform_tls_shutdown-Extends,
}
use eiows.Transport.Ordered.Submitted.{Taken, write_owned-Taken}
use eiows.Transport.Submit.{write_owned, maybe_finish_peer_close, is_some, update_poll}
use eiows.Transport.System.{
  System, Transport, uv_ecanceled, WriteStatus, write_synchronous, write_asynchronous,
  write_not_sent, write_error, write_failed, system_error, on_message, Received, received,
  end_of_input, recv_blocked, recv_failed,
}

module _ {World Context : Type 0} (system : System World Context) (output : World → Bytes)
    (laws : TcpLaws output system) (codec : Codec Context) (simd : Simd) (rounds : ℕ) where
  frame_submitted-Extends :
      (process : Transport World Context → Bool × Transport World Context)
      (t : Transport World Context) (result : WriteStatus × Transport World Context)
      → Taken system output laws rounds process t result
      → Extends output t (frame_submitted system codec simd rounds result).1
  unfolding frame_submitted
  frame_submitted-Extends process t (write_error error, t') h =
      inl (fail-closing system laws.closing_laws (write_failed error) t')
  frame_submitted-Extends process t (write_synchronous, t') h = h
  frame_submitted-Extends process t (write_asynchronous, t') h = h
  frame_submitted-Extends process t (write_not_sent, t') h = h

  consume_event-Extends :
      (process : Transport World Context → Bool × Transport World Context) (event : Event)
      (t : Transport World Context)
      → IsConsistent output t
      → Extends output t (consume_event system codec simd rounds process event t).1
  unfolding consume_event
  consume_event-Extends process event t h = by_type event.type
    where
      by_type :
          (type : EventType)
          → Extends output t (consume_event_type system codec simd rounds process event type t).1
      by_type frame =
          frame_submitted-Extends process t (write_owned system rounds process event.bytes t)
            (write_owned-Taken system output laws rounds process event.bytes t h)
      by_type message = laws.call-Extends (on_message (payload event) event.op_code) t h
      by_type close =
          let t' : Transport World Context = record t {
            pending_close = true;
            pending_close_code = event.code;
            pending_close_reason = payload event;
          } in
          let noted : Extends output t t' = unchanged output t t' h refl refl refl refl refl in
          step output t t' (maybe_finish_peer_close system rounds process t') noted (
            maybe_finish_peer_close-Extends system output laws rounds process t'
              (consistent output t t' noted))

  consume_events-Extends :
      (process : Transport World Context → Bool × Transport World Context) (events : List Event)
      (t : Transport World Context)
      → IsConsistent output t
      → Extends output t (consume_events system codec simd rounds process events t).1
  unfolding consume_events
  consume_events-Extends process [] t h = unchanged output t t h refl refl refl refl refl
  consume_events-Extends process (event ∷ events) t h =
      let goal = λ (r : Bool × Transport World Context). Extends output t r.1 in
      let (went_on, t') = consume_event system codec simd rounds process event t in
      let here : Extends output t t' = consume_event-Extends process event t h in
      let behind = consume_events system codec simd rounds process events t' in
      if_intro goal (not (is_some t.session) || t.closing) (false, t) _
        (λ _. unchanged output t t h refl refl refl refl refl)
        (λ _.
          if_intro goal went_on behind (false, t')
            (λ _.
              step output t t' behind.1 here
                (consume_events-Extends process events t' (consistent output t t' here)))
            (λ _. here))

  release-Extends :
      (t : Transport World Context)
      → IsConsistent output t
      → Extends output t (release system codec simd rounds t)
  release-Extends t h = released_session t.session
    where
      released_session :
          (session : Option (StreamWebSocket Context))
          → Extends output t (released_of system codec simd rounds session t)
      released_session none = unchanged output t t h refl refl refl refl refl
      released_session (some ws) = unchanged output t _ h refl refl refl refl refl

  consume-Extends :
      (process : Transport World Context → Bool × Transport World Context) (bytes : Bytes)
      (t : Transport World Context)
      → IsConsistent output t
      → Extends output t (consume system codec simd rounds process bytes t).1
  unfolding consume
  consume-Extends process bytes t h = by_session t.session
    where
      by_session :
          (session : Option (StreamWebSocket Context))
          → Extends output t (consume_session system codec simd rounds process bytes session t).1
      by_session none = unchanged output t t h refl refl refl refl refl
      by_session (some ws) =
          let ws' = Api.consume codec simd bytes ws in
          let t' : Transport World Context = record t { session = some ws' } in
          let t'' = (consume_events system codec simd rounds process ws'.session.events t').1 in
          let parsed : Extends output t t' = unchanged output t t' h refl refl refl refl refl in
          let on : Extends output t t'' = step output t t' t'' parsed (
            consume_events-Extends process ws'.session.events t' (consistent output t t' parsed)) in
          step output t t'' (release system codec simd rounds t'') on
            (release-Extends t'' (consistent output t t'' on))

  same : (t : Transport World Context) → IsConsistent output t → Extends output t t
  same t h = unchanged output t t h refl refl refl refl refl

  tcp_received-Extends :
      (answer : Received) (t : Transport World Context)
      → IsConsistent output t
      → Extends output t (tcp_received system codec simd rounds answer t)
  unfolding tcp_received
  tcp_received-Extends (received bytes) t h =
      consume-Extends (process_memory_bio system codec simd rounds) bytes t h
  tcp_received-Extends end_of_input t h =
      inl (close_now-closing system laws.closing_laws uv_ecanceled t)
  tcp_received-Extends recv_blocked t h = same t h
  tcp_received-Extends (recv_failed errno) t h =
      inl (fail-closing system laws.closing_laws (system_error errno) t)

  read_tcp-Extends :
      (t : Transport World Context)
      → IsConsistent output t
      → Extends output t (read_tcp system codec simd rounds t)
  unfolding read_tcp
  read_tcp-Extends t h =
      let (answer, world) = system.recv t.world in
      let t' : Transport World Context = record t { world = world } in
      let before : Extends output t t' =
        unchanged output t t' h refl refl refl refl (laws.recv-output t.world) in
      step output t t' (tcp_received system codec simd rounds answer t') before
        (tcp_received-Extends answer t' (consistent output t t' before))

  flush-Extends :
      (t : Transport World Context)
      → IsConsistent output t
      → Extends output t (flush system codec simd rounds t)
  flush-Extends t h =
      flush_writes-Extends system output laws rounds (process_memory_bio system codec simd rounds) t
        h

  shutdown-Extends :
      (t : Transport World Context)
      → IsConsistent output t
      → Extends output t (shutdown system codec simd rounds t)
  shutdown-Extends t h =
      perform_tls_shutdown-Extends system output laws rounds
        (process_memory_bio system codec simd rounds) t h

  -- Behind a step comes another one, or none.
  step_if :
      (b : Bool) (f : Transport World Context → Transport World Context)
      → ((t : Transport World Context) → IsConsistent output t → Extends output t (f t))
      → (t t' : Transport World Context) → Extends output t t'
      → Extends output t (if b then f t' else t')
  step_if true f fs t t' h = step output t t' (f t') h (fs t' (consistent output t t' h))
  step_if false f fs t t' h = h

  poll_readable-Extends :
      (t : Transport World Context)
      → IsOrdered output (record t { encrypted = false; closing = false })
      → Extends output
          (record t { encrypted = false; closing = false })
          (poll_readable system codec simd rounds (record t { encrypted = false; closing = false }))
  unfolding poll_readable read_available
  poll_readable-Extends t g =
      let t' : Transport World Context = record t { encrypted = false; closing = false } in
      let t'' : Transport World Context = record t' { tls_write_blocked_on_read = false } in
      let s = read_tcp system codec simd rounds t'' in
      let before : Extends output t' t'' =
        unchanged output t' t'' (inr g) refl refl refl refl refl in
      step_if (not s.closing && t.tls_write_blocked_on_read) (flush system codec simd rounds)
        flush-Extends t' s
        (step output t' t'' s before (read_tcp-Extends t'' (consistent output t' t'' before)))

  no_guard : (b : Bool) → (not b || true) ≢ false
  no_guard true e = cc e
  no_guard false e = cc e

  process_if_encrypted-Extends :
      (t : Transport World Context)
      → IsConsistent output t
      → Extends output t (process_if_encrypted system codec simd rounds t)
  unfolding process_memory_bio
  process_if_encrypted-Extends t h =
      consistent_intro output
        (λ (t' : Transport World Context).
          Extends output t' (process_if_encrypted system codec simd rounds t'))
        t h
        (let t' : Transport World Context = record t { closing = true } in
          inl (
            if_intro (λ (s : Transport World Context). s.closing ≡ true) t.encrypted
              (process_memory_bio system codec simd rounds t').1 t'
              (λ _.
                if_intro (λ (r : Bool × Transport World Context). r.1.closing ≡ true)
                  (not t.encrypted || true) (false, t') _ (λ _. refl)
                  (λ n. absurd (no_guard t.encrypted n)))
              (λ _. refl)))
        (λ g. same _ (inr g))

  write_available-Extends :
      (t : Transport World Context)
      → IsConsistent output t
      → Extends output t (write_available system codec simd rounds t)
  write_available-Extends t h =
      let processed = process_if_encrypted system codec simd rounds t in
      let sent = flush_unless_closing system codec simd rounds processed in
      step_if (not sent.closing && sent.tls_shutdown_pending) (shutdown system codec simd rounds)
        shutdown-Extends t sent
        (step_if (not processed.closing) (flush system codec simd rounds) flush-Extends t processed
          (process_if_encrypted-Extends t h))

  poll_writable-Extends :
      (t : Transport World Context)
      → IsConsistent output t
      → Extends output t (poll_writable system codec simd rounds t)
  unfolding poll_writable
  poll_writable-Extends t h =
      let t' = if t.tls_shutdown_pending then shutdown system codec simd rounds t else t in
      let before : Extends output t t' =
        step_if t.tls_shutdown_pending (shutdown system codec simd rounds) shutdown-Extends t t
          (same t h) in
      if_intro (Extends output t) (t.tls_shutdown_pending && t'.closing) t'
        (write_available system codec simd rounds t') (λ _. before)
        (λ _.
          step output t t' (write_available system codec simd rounds t') before
            (write_available-Extends t' (consistent output t t' before)))

  poll_events-Extends :
      (readable writable : Bool) (t : Transport World Context)
      → IsOrdered output (record t { encrypted = false; closing = false })
      → Extends output
          (record t { encrypted = false; closing = false })
          (poll_events system codec simd rounds readable writable
            (record t { encrypted = false; closing = false }))
  poll_events-Extends readable writable t g =
      let s : Transport World Context = record t { encrypted = false; closing = false } in
      let t' = if readable then poll_readable system codec simd rounds s else s in
      let t'' =
        if not t'.closing && writable then poll_writable system codec simd rounds t' else t' in
      let read : Extends output s t' =
        if_intro (Extends output s) readable (poll_readable system codec simd rounds s) s
          (λ _. poll_readable-Extends t g) (λ _. same s (inr g)) in
      step_if (not t''.closing) (update_poll system) (update_poll-Extends system output laws) s t''
        (step_if (not t'.closing && writable) (poll_writable system codec simd rounds)
          poll_writable-Extends s t' read)

  -- Whatever a poll brings to a transport without TLS, it closes the transport, or leaves the bytes
  -- that were given to it in their order, on the socket and in the queue, and only adds behind them.
  pub poll-Extends :
      (status : Option ℕ) (readable writable : Bool) (t : Transport World Context)
      → IsConsistent output t
      → Extends output t (poll system codec simd rounds status readable writable t)
  unfolding poll
  poll-Extends status readable writable t h =
      consistent_intro output
        (λ (t' : Transport World Context).
          Extends output t' (poll system codec simd rounds status readable writable t'))
        t h (inl refl) (λ g. polled g status)
    where
      polled :
          IsOrdered output (record t { encrypted = false; closing = false })
          → (status : Option ℕ)
          → Extends output
              (record t { encrypted = false; closing = false })
              (elim status [
                | some errno ↦
                    fail system
                      (system_error errno)
                      (record t { encrypted = false; closing = false })
                | none ↦
                    poll_events system codec simd rounds readable writable
                      (record t { encrypted = false; closing = false })
              ])
      polled g none = poll_events-Extends readable writable t g
      polled g (some errno) = inl (fail-closing system laws.closing_laws (system_error errno) _)
