-- ===== src/Transport/Close.antt =====
-- How a transport reports errors, cancels its writes and closes: reportTransportError,
-- invokeWriteCallback, cancelWrites, closeNow, fail and terminateForBackpressure of
-- nodejs/src/native_transport.cpp.
use eiows.Common.{
  ℕ, zero, suc, ◌-◌, min, Bool, true, false, not, ◌&&◌, ◌||◌, Option, none, some, [], ◌∷◌, ltb,
  if◌then◌else◌, length,
}
use eiows.Protocol.Frame.{nonzero}
use eiows.Transport.System.{
  System, Transport, UvError, uv_ecanceled, uv_enobufs, TransportError, OwnerCall, on_error,
  on_write, on_backpressure,
}
use eiows.Transport.WriteRequest.{WriteRequest, remaining_bytes}

module _ {World Context : Type 0} (system : System World Context) where
  -- A call whose Boolean is not looked at.
  abbrev pub notify : OwnerCall → Transport World Context → Transport World Context
  notify c t = (system.call c t).1

  unfoldable pub report_transport_error :
      TransportError → Transport World Context → Transport World Context
  report_transport_error error t =
      if t.reporting_error
      then t
      else record (notify (on_error error) (record t { reporting_error = true })) {
        reporting_error = false;
      }

  abbrev pub call_back :
      Option ℕ → Option UvError → Transport World Context → Transport World Context
  call_back none status t = t
  call_back (some id) status t = notify (on_write id status) t

  unfoldable pub invoke_write_callback :
      WriteRequest → Option UvError → Transport World Context → Transport World Context
  invoke_write_callback r status t = call_back r.callback status t

  -- What becomes of a request that is taken off the queue: abandonReferences, or its callback.
  unfoldable pub settle_cancelled :
      WriteRequest → UvError → Transport World Context → Transport World Context
  settle_cancelled r status t =
      if t.environment_cleaning
      then t
      else if r.deferred
      then invoke_write_callback r (some status) t
      else t

  -- The loop of cancelWrites. A request that a callback submits would be cancelled too, so it has
  -- rounds; the transport that closes takes no requests.
  unfoldable pub cancel_writes : ℕ → UvError → Transport World Context → Transport World Context
  cancel_writes zero status t = t
  cancel_writes (suc fuel) status t = elim t.queue [
    | [] ↦ t
    | r ∷ rest ↦ cancel_writes fuel status (
        settle_cancelled r status (record t {
          queue = rest;
          pending_bytes = t.pending_bytes - min t.pending_bytes (remaining_bytes r);
        }))
  ]

  -- The end of closeNow: the buffers, the poll handle and the descriptor.
  unfoldable pub release_handles : Transport World Context → Transport World Context
  release_handles t = record t {
    tls_ciphertext = [];
    tls_ciphertext_offset = 0;
    tls_committed_plaintext = 0;
    poll_events = if t.poll_initialized then 0 else t.poll_events;
    descriptor = false;
    poll_closing = t.poll_closing || t.poll_initialized;
    poll_closed = if t.poll_initialized && not t.poll_closing then t.poll_closed else true;
  }

  unfoldable pub close_now : UvError → Transport World Context → Transport World Context
  close_now status t =
      if t.closing
      then t
      else release_handles (cancel_writes (length t.queue) status (record t { closing = true }))

  unfoldable pub fail : TransportError → Transport World Context → Transport World Context
  fail error t = if t.closing then t else close_now uv_ecanceled (report_transport_error error t)

  unfoldable pub backpressure_exceeded : Transport World Context → Bool
  backpressure_exceeded t = nonzero t.max_backpressure && ltb t.max_backpressure t.pending_bytes

  unfoldable pub terminate_for_backpressure : Transport World Context → Transport World Context
  terminate_for_backpressure t =
      if t.closing then t else close_now uv_enobufs (notify on_backpressure t)
