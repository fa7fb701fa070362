-- ===== src/Transport/Ordered/Submits.antt =====
-- submit puts the bytes of a request behind all that was submitted before; flushWrites and
-- updatePoll keep the stream.
use eiows.Common.{
  ℕ, ◌≡◌, refl, inl, inr, Bool, true, false, not, ◌||◌, Option, none, some, if◌then◌else◌, if_intro,
  Bytes,
}
use eiows.Transport.Close.{close_now}
use eiows.Transport.Ordered.{
  TcpLaws, consistent_intro, Extends, IsConsistent, consistent, unchanged, step,
}
use eiows.Transport.Ordered.Closes.{close_now-closing, fail-closing}
use eiows.Transport.Ordered.Flushes.{flush_loop-Extends}
use eiows.Transport.Submit.{
  Flushed, flushed, flush_failed, no_writes, perform_tls_shutdown, maybe_finish_peer_close,
  loop_finished, flush_loop, flush_writes, update_poll, poll_started, updated_events,
  finish_if_requested, close_told, flush_queue, end_connection, flush_connection,
}
use eiows.Transport.System.{System, Transport, uv_ecanceled, system_error, on_close}

-- A transport that closes passes the guard of a call unchanged.
guarded-closing :
    {World Context : Type 0} (a b : Bool) (t t' : Transport World Context)
    → t.closing ≡ true
    → (if a || true || b then t else t').closing ≡ true
guarded-closing true b t t' e = e
guarded-closing false b t t' e = e

module _ {World Context : Type 0} (system : System World Context) (output : World → Bytes)
    (laws : TcpLaws output system) where
  same : (t : Transport World Context) → IsConsistent output t → Extends output t t
  same t h = unchanged output t t h refl refl refl refl refl

  poll_started-Extends :
      (events : ℕ) (t : Transport World Context)
      → IsConsistent output t
      → (answer : Option ℕ × World) → output answer.1 ≡ output t.world
      → Extends output t (poll_started system events answer t)
  poll_started-Extends events t h (none, world) e = unchanged output t _ h refl refl refl refl e
  poll_started-Extends events t h (some errno, world) e =
      inl (fail-closing system laws.closing_laws (system_error errno) (record t { world = world }))

  pub update_poll-Extends :
      (t : Transport World Context)
      → IsConsistent output t
      → Extends output t (update_poll system t)
  unfolding update_poll
  update_poll-Extends t h =
      let events = updated_events system t in
      let answer = system.poll_start events t.world in
      if_intro (Extends output t) (not t.active || t.closing) _ _ (λ _. same t h)
        (λ _.
          if_intro (Extends output t) _ t (poll_started system events answer t) (λ _. same t h)
            (λ _. poll_started-Extends events t h answer (laws.poll-output events t.world)))

module _ {World Context : Type 0} (system : System World Context) (output : World → Bytes)
    (laws : TcpLaws output system) (rounds : ℕ)
    (process : Transport World Context → Bool × Transport World Context) where
  pub perform_tls_shutdown-Extends :
      (t : Transport World Context)
      → IsConsistent output t
      → Extends output t (perform_tls_shutdown system rounds process t)
  unfolding perform_tls_shutdown
  perform_tls_shutdown-Extends t h =
      consistent_intro output
        (λ (t' : Transport World Context).
          Extends output t' (perform_tls_shutdown system rounds process t'))
        t h
        (inl (
          guarded-closing (not t.graceful_close_requested) (not (no_writes t.queue))
            (record t { closing = true })
            (end_connection system rounds process (record t { closing = true })) refl))
        (λ g.
          let t' : Transport World Context = record t { encrypted = false; closing = false } in
          if_intro (Extends output t')
            (not t.graceful_close_requested || false || not (no_writes t.queue)) t'
            (close_now system uv_ecanceled t') (λ _. same system output laws t' (inr g))
            (λ _. inl (close_now-closing system laws.closing_laws uv_ecanceled t')))

  finish_if_requested-Extends :
      (t : Transport World Context)
      → IsConsistent output t
      → Extends output t (finish_if_requested system rounds process t)
  finish_if_requested-Extends t h =
      if_intro (Extends output t) t.graceful_close_requested
        (perform_tls_shutdown system rounds process t) t (λ _. perform_tls_shutdown-Extends t h)
        (λ _. same system output laws t h)

  close_told-Extends :
      (t : Transport World Context) (told : Bool × Transport World Context)
      → Extends output t told.1
      → Extends output t (close_told system rounds process told)
  close_told-Extends t (false, t') h = h
  close_told-Extends t (true, t') h =
      let t'' : Transport World Context = record t' { graceful_close_requested = true } in
      let on : Extends output t t'' =
        step output t t' t'' h
          (unchanged output t' t'' (consistent output t t' h) refl refl refl refl refl) in
      step output t t'' (finish_if_requested system rounds process t'') on
        (finish_if_requested-Extends t'' (consistent output t t'' on))

  pub maybe_finish_peer_close-Extends :
      (t : Transport World Context)
      → IsConsistent output t
      → Extends output t (maybe_finish_peer_close system rounds process t)
  unfolding maybe_finish_peer_close
  maybe_finish_peer_close-Extends t h =
      let told_t : Transport World Context = record t { pending_close = false } in
      let c = on_close t.pending_close_code t.pending_close_reason in
      let before = unchanged output t told_t h refl refl refl refl refl in
      let told = close_told system rounds process (system.call c told_t) in
      if_intro (Extends output t) t.closing _ _ (λ _. same system output laws t h)
        (λ _.
          if_intro (Extends output t) t.pending_close told _
            (λ _. close_told-Extends t (system.call c told_t) (
              step output t told_t (system.call c told_t).1 before
                (laws.call-Extends c told_t (consistent output t told_t before))))
            (λ _. finish_if_requested-Extends t h))

  loop_finished-Extends :
      (t : Transport World Context) (looped : Flushed × Transport World Context)
      → Extends output t looped.1
      → Extends output t (loop_finished system rounds process looped)
  unfolding loop_finished
  loop_finished-Extends t (flush_failed errno, t') h =
      inl (fail-closing system laws.closing_laws _ (record t' { flushing_writes = false }))
  loop_finished-Extends t (flushed, t') h =
      let t'' : Transport World Context = record t' { flushing_writes = false } in
      let on : Extends output t t'' =
        step output t t' t'' h
          (unchanged output t' t'' (consistent output t t' h) refl refl refl refl refl) in
      if_intro (Extends output t) (no_writes t'.queue) _ _
        (λ _.
          step output t t'' (maybe_finish_peer_close system rounds process t'') on
            (maybe_finish_peer_close-Extends t'' (consistent output t t'' on)))
        (λ _. on)

  flush_queue-Extends :
      (t : Transport World Context)
      → IsConsistent output t
      → Extends output t (flush_queue system rounds process t)
  flush_queue-Extends t h =
      let t' : Transport World Context = record t { flushing_writes = true } in
      let looped = flush_loop system rounds t' in
      let before : Extends output t t' = unchanged output t t' h refl refl refl refl refl in
      loop_finished-Extends t looped (
        step output t t' looped.1 before
          (flush_loop-Extends system output laws rounds t' (consistent output t t' before)))

  -- Whatever flushWrites does to a transport without TLS, it closes it or keeps the stream in order.
  pub flush_writes-Extends :
      (t : Transport World Context)
      → IsConsistent output t
      → Extends output t (flush_writes system rounds process t)
  unfolding flush_writes
  flush_writes-Extends t h =
      consistent_intro output
        (λ (t' : Transport World Context).
          Extends output t' (flush_writes system rounds process t'))
        t h
        (inl (
          guarded-closing t.flushing_writes (not t.active) (record t { closing = true })
            (flush_connection system rounds process (record t { closing = true })) refl))
        (λ g.
          let t' : Transport World Context = record t { encrypted = false; closing = false } in
          if_intro (Extends output t') (t.flushing_writes || false || not t.active) t'
            (flush_queue system rounds process t') (λ _. same system output laws t' (inr g))
            (λ _. flush_queue-Extends t' (inr g)))
