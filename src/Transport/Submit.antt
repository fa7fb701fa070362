-- ===== src/Transport/Submit.antt =====
-- How a transport takes a write, sends its queue and finishes a close: defer of WriteRequest,
-- performTLSShutdown, maybeFinishPeerClose, writeOwned, submit, flushWrites, completeHeadWrite,
-- enqueueWrite and updatePoll of nodejs/src/native_transport.cpp.
use eiows.Common.{
  ℕ, zero, suc, ◌+◌, ◌-◌, ◌*◌, ◌^◌, min, Bool, true, false, not, ◌&&◌, ◌||◌, Option, none, some,
  List, [], ◌∷◌, ◌++◌, ltb, leb, ◌==◌, if◌then◌else◌, Bytes, length,
}
use eiows.Transport.Close.{
  fail, close_now, cancel_writes, invoke_write_callback, backpressure_exceeded,
  terminate_for_backpressure,
}
use eiows.Transport.Output.{
  Attempt, wrote, broken, eio, has_tls_output, flush_memory_bio_output, write_tcp, write_tls,
}
use eiows.Transport.System.{
  System, Transport, uv_ecanceled, uv_ebadf, uv_einval, uv_eio, uv_eoverflow, WriteStatus,
  write_synchronous, write_asynchronous, write_error, system_error, on_close,
}
use eiows.Transport.WriteRequest.{
  WriteRequest, new_request, part_count, prepare, flatten, coalesce_prefix, advance, commit_tls,
  remaining_bytes,
}

abbrev pub tls_coalesce_prefix : ℕ
tls_coalesce_prefix = 4 * 1024

abbrev pub tls_full_coalesce_limit : ℕ
tls_full_coalesce_limit = 16 * 1024 + 14

-- UV_READABLE, and UV_READABLE | UV_WRITABLE
abbrev pub uv_readable : ℕ
uv_readable = 1

abbrev pub uv_readable_writable : ℕ
uv_readable_writable = 3

abbrev pub no_writes : List WriteRequest → Bool
no_writes [] = true
no_writes (r ∷ rs) = false

abbrev pub is_some : {A : Type 0} → Option A → Bool
is_some none = false
is_some (some a) = true

-- The rounds of flushWrites are over: without an error, or with errno.
pub data Flushed : Type 0 where
  flushed : Flushed
  flush_failed : ℕ → Flushed

module _ {World Context : Type 0} (system : System World Context) where
  -- napi_create_reference has answered.
  abbrev pub retained_callback : ℕ → WriteRequest → Bool × World → Bool × WriteRequest × World
  retained_callback id r (true, world) =
      (true, record r { callback_value = none; callback = some id; deferred = true }, world)
  retained_callback id r (false, world) = (false, record r { callback_value = none }, world)

  abbrev pub defer_callback : Option ℕ → WriteRequest → World → Bool × WriteRequest × World
  defer_callback none r world = (true, record r { deferred = true }, world)
  defer_callback (some id) r world = retained_callback id r (system.retain_callback id world)

  -- defer, with the request and the world behind it
  unfoldable pub defer : WriteRequest → World → Bool × WriteRequest × World
  defer r world = if r.deferred then (true, r, world) else defer_callback r.callback_value r world

  abbrev pub enqueue_write : WriteRequest → Transport World Context → Transport World Context
  enqueue_write r t = record t { queue = t.queue ++ (r ∷ []) }

  -- completeHeadWrite(0)
  unfoldable pub complete_head_write : Transport World Context → Transport World Context
  complete_head_write t = elim t.queue [
    | [] ↦ t
    | r ∷ rest ↦
        let t' : Transport World Context = record t { queue = rest } in
        if r.deferred then invoke_write_callback system r none t' else t'
  ]

  -- The end of performTLSShutdown, behind flushMemoryBIOOutput.
  pub finish_shutdown : Bool × Transport World Context → Transport World Context
  finish_shutdown (false, t) = t
  finish_shutdown (true, t) =
      if has_tls_output system t
      then record t { tls_shutdown_pending = true }
      else close_now system uv_ecanceled (record t { tls_shutdown_pending = false })

  -- SSL_shutdown and what follows it.
  pub shut_down : Bool × World → Transport World Context → Transport World Context
  shut_down (true, world) t =
      finish_shutdown
        (flush_memory_bio_output system (record t { world = world; tls_shutdown_generated = true }))
  shut_down (false, world) t =
      close_now system uv_ecanceled (record t { world = world; tls_shutdown_pending = false })

  abbrev after_input : Bool × Transport World Context → Transport World Context
  after_input (processed, t) =
      if not processed || has_tls_output system t
      then record t { tls_shutdown_pending = true }
      else shut_down (system.ssl_shutdown t.world) t

  unfoldable pub updated_events : Transport World Context → ℕ
  updated_events t =
      if (not (no_writes t.queue) && (not t.encrypted || not t.tls_write_blocked_on_read))
        || t.tls_shutdown_pending
        || (t.encrypted && has_tls_output system t)
      then uv_readable_writable
      else uv_readable

  abbrev pub poll_started : ℕ → Option ℕ × World → Transport World Context → Transport World Context
  poll_started events (none, world) t = record t { world = world; poll_events = events }
  poll_started events (some errno, world) t =
      fail system (system_error errno) (record t { world = world })

  unfoldable pub update_poll : Transport World Context → Transport World Context
  update_poll t =
      if not t.active || t.closing
      then t
      else if updated_events t == t.poll_events
      then t
      else poll_started (updated_events t) (system.poll_start (updated_events t) t.world) t

  -- writeTLS or writeTCP of the head of the queue
  abbrev pub write_head : Transport World Context → Attempt × Transport World Context
  write_head t = elim t.queue [
    | [] ↦ (wrote 0, t)
    | r ∷ rest ↦ if t.encrypted then write_tls system t else write_tcp system r t
  ]

  -- A round of flushWrites has written `n` bytes of the head of the queue.
  unfoldable pub head_written : ℕ → Transport World Context → Transport World Context
  head_written n t = elim t.queue [
    | [] ↦ t
    | r ∷ rest ↦
        let r' = if t.encrypted then commit_tls n r else advance n r in
        let t' : Transport World Context = record t {
          queue = r' ∷ rest;
          pending_bytes = t.pending_bytes - min t.pending_bytes n;
        } in
        if remaining_bytes r' == 0 then complete_head_write t' else t'
  ]

  -- What the loop of flushWrites does with what was written; `next` is its next round.
  unfoldable pub attempted :
      (Transport World Context → Flushed × Transport World Context)
      → Attempt × Transport World Context
      → Flushed × Transport World Context
  attempted next (wrote zero, t) = (flushed, t)
  attempted next (wrote (suc n), t) = next (head_written (suc n) t)
  attempted next (broken errno, t) = (flush_failed errno, t)

  -- The loop of flushWrites.
  unfoldable pub flush_loop : ℕ → Transport World Context → Flushed × Transport World Context
  flush_loop zero t = (flushed, t)
  flush_loop (suc fuel) t =
      if no_writes t.queue || t.closing
      then (flushed, t)
      else attempted (flush_loop fuel) (write_head t)

  -- `rounds` bounds the loop of flushWrites, which goes on for as long as the socket takes bytes and
  -- the callbacks of written requests queue further ones. `process` is processMemoryBIO.
  -- defer of the first request with that address
  unfoldable pub defer_queued :
      (address : ℕ) → List WriteRequest → World → Bool × List WriteRequest × World
  defer_queued address [] world = (true, [], world)
  defer_queued address (r ∷ rs) world =
      let (done, r', world') = defer r world in
      let (done_behind, rs', world_behind) = defer_queued address rs world in
      if r.address == address then (done, r' ∷ rs, world') else (done_behind, r ∷ rs', world_behind)

module _ {World Context : Type 0} (system : System World Context) (rounds : ℕ)
    (process : Transport World Context → Bool × Transport World Context) where
  -- performTLSShutdown behind its guard
  abbrev pub end_connection : Transport World Context → Transport World Context
  end_connection t =
      if not t.encrypted
      then close_now system uv_ecanceled t
      else if t.tls_shutdown_generated
      then finish_shutdown system (flush_memory_bio_output system t)
      else after_input system (process t)

  unfoldable pub perform_tls_shutdown : Transport World Context → Transport World Context
  perform_tls_shutdown t =
      if not t.graceful_close_requested || t.closing || not (no_writes t.queue)
      then t
      else end_connection t

  abbrev pub finish_if_requested : Transport World Context → Transport World Context
  finish_if_requested t = if t.graceful_close_requested then perform_tls_shutdown t else t

  -- JavaScript was told of the peer's close.
  abbrev pub close_told : Bool × Transport World Context → Transport World Context
  close_told (false, t) = t
  close_told (true, t) = finish_if_requested (record t { graceful_close_requested = true })

  -- The values that N-API makes for the call are made.
  unfoldable pub maybe_finish_peer_close : Transport World Context → Transport World Context
  maybe_finish_peer_close t =
      if t.closing
      then t
      else if t.pending_close
      then close_told (
          system.call (on_close t.pending_close_code t.pending_close_reason)
            (record t { pending_close = false }))
      else finish_if_requested t

  -- The end of flushWrites, behind its loop.
  unfoldable pub loop_finished : Flushed × Transport World Context → Transport World Context
  loop_finished (flush_failed errno, t) =
      fail system (system_error (if errno == 0 then eio else errno))
        (record t { flushing_writes = false })
  loop_finished (flushed, t) =
      let t' : Transport World Context = record t { flushing_writes = false } in
      if no_writes t.queue then maybe_finish_peer_close t' else t'

  abbrev pub flush_queue : Transport World Context → Transport World Context
  flush_queue t = loop_finished (flush_loop system rounds (record t { flushing_writes = true }))

  abbrev flush_behind_output : Bool × Transport World Context → Transport World Context
  flush_behind_output (false, t) = t
  flush_behind_output (true, t) = if has_tls_output system t then t else flush_queue t

  -- flushWrites behind its guard
  abbrev pub flush_connection : Transport World Context → Transport World Context
  flush_connection t =
      if t.encrypted then flush_behind_output (flush_memory_bio_output system t) else flush_queue t

  unfoldable pub flush_writes : Transport World Context → Transport World Context
  flush_writes t = if t.flushing_writes || t.closing || not t.active then t else flush_connection t

  abbrev pub writable : Transport World Context → Bool
  writable t = t.valid && not t.closing && is_some t.session && t.descriptor

  abbrev pub coalesced : WriteRequest → Transport World Context → Bool × WriteRequest
  coalesced r t =
      if t.encrypted && ltb 1 (part_count r)
      then if leb r.bytes tls_full_coalesce_limit
        then flatten r
        else coalesce_prefix tls_coalesce_prefix r
      else (true, r)

  abbrev pub queued : WriteRequest → World → Transport World Context → Transport World Context
  queued r world t =
      enqueue_write system r (record t { world = world; pending_bytes = t.pending_bytes + r.bytes })

  -- submit behind other writes
  unfoldable pub submit_behind :
      Bool × WriteRequest × World → Transport World Context → WriteStatus × Transport World Context
  submit_behind (false, r, world) t = (write_error uv_einval, record t { world = world })
  submit_behind (true, r, world) t =
      let t' = queued r world t in
      (
        write_asynchronous,
        if backpressure_exceeded system t'
            then terminate_for_backpressure system t'
            else update_poll system t',
      )

  abbrev pub is_queued : (address : ℕ) → List WriteRequest → Bool
  is_queued address [] = false
  is_queued address (r ∷ rs) = r.address == address || is_queued address rs

  -- What submit does once the request was deferred in the queue.
  abbrev pub watch_waiting : Transport World Context → Transport World Context
  watch_waiting t =
      let t' = if backpressure_exceeded system t then terminate_for_backpressure system t else t in
      if t'.closing then t' else update_poll system t'

  -- The submitted request has to wait.
  unfoldable pub submit_waits :
      Bool × List WriteRequest × World
      → Transport World Context
      → WriteStatus × Transport World Context
  submit_waits (false, queue, world) t = (
    write_error uv_einval,
    cancel_writes system (length queue) uv_ecanceled (record t { queue = queue; world = world }),
  )
  submit_waits (true, queue, world) t =
      (write_asynchronous, watch_waiting (record t { queue = queue; world = world }))

  -- The end of submit, behind flushWrites.
  unfoldable pub submit_flushed :
      (address : ℕ) → Transport World Context → WriteStatus × Transport World Context
  submit_flushed address t =
      if t.closing
      then (write_error uv_eio, t)
      else if is_queued address t.queue
      then submit_waits (defer_queued system address t.queue t.world) t
      else (write_synchronous, t)

  abbrev pub submit_coalesced :
      Bool × WriteRequest → Transport World Context → WriteStatus × Transport World Context
  submit_coalesced (false, r) t = (write_error uv_einval, t)
  submit_coalesced (true, r) t =
      if not (no_writes t.queue) || t.flushing_writes
      then submit_behind (defer system r t.world) t
      else submit_flushed r.address (flush_writes (queued r t.world t))

  abbrev pub submit_prepared :
      Bool × WriteRequest → Transport World Context → WriteStatus × Transport World Context
  submit_prepared (false, r) t = (write_error uv_einval, t)
  submit_prepared (true, r) t =
      if r.bytes == 0
      then (write_synchronous, t)
      else if ltb (2 ^ 64 - 1 - r.bytes) t.pending_bytes
      then (write_error uv_eoverflow, t)
      else submit_coalesced (coalesced r t) t

  unfoldable pub submit :
      WriteRequest → Transport World Context → WriteStatus × Transport World Context
  submit r t = if not (writable t) then (write_error uv_ebadf, t) else submit_prepared (prepare r) t

  unfoldable pub write_owned :
      Bytes → Transport World Context → WriteStatus × Transport World Context
  write_owned bytes t =
      let (address, world) = system.allocate t.world in
      submit (new_request address (bytes ∷ []) none) (record t { world = world })
