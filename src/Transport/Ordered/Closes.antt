-- ===== src/Transport/Ordered/Closes.antt =====
-- What reports an error or closes a transport (nodejs/src/native_transport.cpp) ends closed.
use eiows.Common.{
  ℕ, zero, suc, ◌-◌, min, ◌≤◌, ◌≡◌, refl, sym, ◌∙◌, ap, subst, inl, inr, Bool, true, false,
  Bool-cases, Option, none, some, [], if◌then◌else◌, if_intro, if_true, if_false, arith, no_length,
  length,
}
use eiows.Transport.Close.{
  notify, call_back, report_transport_error, invoke_write_callback, settle_cancelled, cancel_writes,
  release_handles, close_now, fail, terminate_for_backpressure,
}
use eiows.Transport.Ordered.{queue_intro, ClosingLaws}
use eiows.Transport.System.{
  System, Transport, UvError, uv_ecanceled, uv_enobufs, TransportError, on_write, on_backpressure,
}
use eiows.Transport.WriteRequest.{WriteRequest, remaining_bytes}

-- With a poll handle there are no poll events; without one there never were any.
unpolled :
    (initialized : Bool) (events : ℕ) → initialized ≡ true → (if initialized then 0 else events) ≡ 0
unpolled true events e = refl
unpolled false events e = absurd (cc e)

-- What is left of a transport that has just closed.
pub record IsClosed {World Context : Type 0} (t : Transport World Context) : Type 0 where
  closes : t.closing ≡ true
  no_queue : t.queue ≡ []
  no_ciphertext : t.tls_ciphertext ≡ []
  no_plaintext : t.tls_committed_plaintext ≡ 0
  no_descriptor : t.descriptor ≡ false
  no_poll : t.poll_initialized ≡ true → t.poll_events ≡ 0

module _ {World Context : Type 0} (system : System World Context) (laws : ClosingLaws system) where
  -- What a call to JavaScript leaves of a closing transport.
  abbrev IsLeft : Transport World Context → Transport World Context → Type 0
  IsLeft t t' = (t'.closing ≡ true) × (t'.queue ≡ t.queue)

  invoke_write_callback-IsLeft :
      (r : WriteRequest) (status : Option UvError) (t : Transport World Context)
      → t.closing ≡ true
      → IsLeft t (invoke_write_callback system r status t)
  unfolding invoke_write_callback
  invoke_write_callback-IsLeft r status t e = called r.callback
    where
      called : (callback : Option ℕ) → IsLeft t (call_back system callback status t)
      called none = (e, refl)
      called (some id) =
          (laws.call-closing (on_write id status) t e, laws.call-queue (on_write id status) t e)

  settle_cancelled-IsLeft :
      (r : WriteRequest) (status : UvError) (t : Transport World Context)
      → t.closing ≡ true
      → IsLeft t (settle_cancelled system r status t)
  unfolding settle_cancelled
  settle_cancelled-IsLeft r status t e =
      let told = invoke_write_callback system r (some status) t in
      if_intro (IsLeft t) t.environment_cleaning t (if r.deferred then told else t) (λ _. (e, refl))
        (λ _.
          if_intro (IsLeft t) r.deferred told t
            (λ _. invoke_write_callback-IsLeft r (some status) t e) (λ _. (e, refl)))

  -- A closing transport whose queue has no more requests than the loop has rounds loses them all.
  cancel_writes-empty :
      (fuel : ℕ) (status : UvError) (t : Transport World Context)
      → t.closing ≡ true
      → length t.queue ≤ fuel
      → ((cancel_writes system fuel status t).closing ≡ true)
        × ((cancel_writes system fuel status t).queue ≡ [])
  unfolding cancel_writes
  cancel_writes-empty zero status t e h = (e, no_length t.queue (omega (arith, h)))
  cancel_writes-empty (suc fuel) status t e h =
      queue_intro
        (λ (t' : Transport World Context).
          t'.closing ≡ true
          → length t'.queue ≤ suc fuel
          → ((cancel_writes system (suc fuel) status t').closing ≡ true)
            × ((cancel_writes system (suc fuel) status t').queue ≡ []))
        t (λ _ c _. (c, refl))
        (λ r rest _ c k.
          let t' : Transport World Context = record t {
            queue = rest;
            pending_bytes = t.pending_bytes - min t.pending_bytes (remaining_bytes r);
          } in
          let (c', q) = settle_cancelled-IsLeft r status t' c in
          cancel_writes-empty fuel status (settle_cancelled system r status t') c'
            (omega (arith, k, ap (length {A = WriteRequest}) q)))
        e h

  -- closeNow leaves an open transport closing, with no request in its queue, no ciphertext, no
  -- descriptor and no poll events; a closing transport it leaves as it is.
  pub close_now-IsClosed :
      (status : UvError) (t : Transport World Context)
      → (t.closing ≡ false → IsClosed (close_now system status t))
        × (t.closing ≡ true → close_now system status t ≡ t)
  unfolding close_now release_handles
  close_now-IsClosed status t =
      let began : Transport World Context = record t { closing = true } in
      let cancelled = cancel_writes system (length t.queue) status began in
      let (c, q) = cancel_writes-empty (length t.queue) status began refl (omega arith) in
      (
        λ e.
            subst IsClosed (sym (if_false t.closing t (release_handles system cancelled) e))
              (record {
                closes = c;
                no_queue = q;
                no_ciphertext = refl;
                no_plaintext = refl;
                no_descriptor = refl;
                no_poll = unpolled cancelled.poll_initialized cancelled.poll_events;
              }),
        λ e. if_true t.closing t (release_handles system cancelled) e,
      )

  pub close_now-closing :
      (status : UvError) (t : Transport World Context) → (close_now system status t).closing ≡ true
  close_now-closing status t = elim (Bool-cases t.closing) [
    | inl e ↦
        ap (λ (t' : Transport World Context). t'.closing) ((close_now-IsClosed status t).1 e) ∙ e
    | inr e ↦ ((close_now-IsClosed status t).0 e).closes
  ]

  pub fail-closing :
      (error : TransportError) (t : Transport World Context) → (fail system error t).closing ≡ true
  unfolding fail
  fail-closing error t =
      let closed = close_now system uv_ecanceled (report_transport_error system error t) in
      if_intro (λ (t' : Transport World Context). t'.closing ≡ true) t.closing t closed (λ e. e)
        (λ _. close_now-closing uv_ecanceled (report_transport_error system error t))

  pub terminate_for_backpressure-closing :
      (t : Transport World Context) → (terminate_for_backpressure system t).closing ≡ true
  unfolding terminate_for_backpressure
  terminate_for_backpressure-closing t =
      let closed = close_now system uv_enobufs (notify system on_backpressure t) in
      if_intro (λ (t' : Transport World Context). t'.closing ≡ true) t.closing t closed (λ e. e)
        (λ _. close_now-closing uv_enobufs (notify system on_backpressure t))
