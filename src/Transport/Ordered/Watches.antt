-- ===== src/Transport/Ordered/Watches.antt =====
-- What submit leaves behind: a bounded queue, and a poll that waits for the socket.
use eiows.Common.{
  ℕ, ◌≤◌, ◌-◌, ◌^◌, ◌≡◌, ◌≢◌, refl, sym, ◌∙◌, ◌⊎◌, inl, inr, Bool, true, false, not, ◌||◌, Option,
  none, some, List, [], ltb, ◌==◌, if◌then◌else◌, if_intro, ==_iff, arith,
}
use eiows.Transport.Close.{backpressure_exceeded, terminate_for_backpressure}
use eiows.Transport.Ordered.{ClosingLaws, plain_intro, queue_intro}
use eiows.Transport.Ordered.Closes.{fail-closing, terminate_for_backpressure-closing}
use eiows.Transport.Submit.{
  no_writes, updated_events, update_poll, poll_started, queued, defer, defer_queued, submit,
  submit_prepared, submit_coalesced, submit_behind, submit_waits, submit_flushed, watch_waiting,
  flush_writes, uv_readable_writable, writable, coalesced, is_queued,
}
use eiows.Transport.System.{
  System, Transport, UvError, uv_ebadf, uv_einval, uv_eio, uv_eoverflow, system_error, WriteStatus,
  write_synchronous, write_asynchronous, write_error,
}
use eiows.Transport.WriteRequest.{WriteRequest, prepare}

module _ {World Context : Type 0} (system : System World Context) (laws : ClosingLaws system) where
  -- The queue is not over its limit, if there is one.
  abbrev pub IsBounded : Transport World Context → Type 0
  IsBounded t = t.max_backpressure ≢ 0 → t.pending_bytes ≤ t.max_backpressure

  -- While a request waits, the poll of an active transport without TLS waits for room to write.
  abbrev pub IsWatching : Transport World Context → Type 0
  IsWatching t =
      t.encrypted ≡ false → t.active ≡ true → t.queue ≢ [] → t.poll_events ≡ uv_readable_writable

  abbrev pub IsKept : Transport World Context → Type 0
  IsKept t = (t.closing ≡ true) ⊎ (IsBounded t × IsWatching t)

  updated_events-full :
      (t : Transport World Context)
      → t.encrypted ≡ false
      → t.queue ≢ []
      → updated_events system t ≡ uv_readable_writable
  unfolding updated_events
  updated_events-full t e =
      plain_intro
        (λ (s : Transport World Context).
          s.queue ≢ [] → updated_events system s ≡ uv_readable_writable)
        t e
        (queue_intro
          (λ (s : Transport World Context).
            s.queue ≢ []
            → updated_events system (record s { encrypted = false }) ≡ uv_readable_writable)
          t (λ _ n. absurd (n refl)) (λ r rest _ _. refl))

  poll_started-IsKept :
      (answer : Option ℕ × World) (t : Transport World Context)
      → IsBounded t
      → IsKept (poll_started system (updated_events system t) answer t)
  poll_started-IsKept (none, world) t b = inr (b, λ e _ n. updated_events-full t e n)
  poll_started-IsKept (some errno, world) t b =
      inl (fail-closing system laws (system_error errno) (record t { world = world }))

  guard_cases :
      (active closing : Bool) → (not active || closing) ≡ true → (active ≡ false) ⊎ (closing ≡ true)
  guard_cases true closing e = inr e
  guard_cases false closing e = inl refl

  update_poll-IsKept : (t : Transport World Context) → IsBounded t → IsKept (update_poll system t)
  unfolding update_poll
  update_poll-IsKept t b =
      let events = updated_events system t in
      let answer = system.poll_start events t.world in
      if_intro IsKept (not t.active || t.closing) _ _
        (λ g. elim (guard_cases t.active t.closing g) [
          | inl i ↦ inr (b, λ _ a. absurd (cc (i, a)))
          | inr c ↦ inl c
        ])
        (λ _.
          if_intro IsKept (events == t.poll_events) t (poll_started system events answer t)
            (λ s.
              inr (b, λ e _ n. sym ((==_iff events t.poll_events).0 s) ∙ updated_events-full t e n))
            (λ _. poll_started-IsKept answer t b))

  not_exceeded :
      (t : Transport World Context) → backpressure_exceeded system t ≡ false → IsBounded t
  unfolding backpressure_exceeded
  not_exceeded t e n = ground arith

  checked-IsKept :
      (t : Transport World Context)
      → IsKept (
          if backpressure_exceeded system t
          then terminate_for_backpressure system t
          else update_poll system t)
  checked-IsKept t =
      if_intro IsKept (backpressure_exceeded system t) (terminate_for_backpressure system t)
        (update_poll system t) (λ _. inl (terminate_for_backpressure-closing system laws t))
        (λ e. update_poll-IsKept t (not_exceeded t e))

module _ {World Context : Type 0} (system : System World Context) (laws : ClosingLaws system)
    (rounds : ℕ) (process : Transport World Context → Bool × Transport World Context) where
  watch_waiting-IsKept :
      (t : Transport World Context) → IsKept system laws (watch_waiting system rounds process t)
  watch_waiting-IsKept t =
      let t' = terminate_for_backpressure system t in
      if_intro
        (λ (s : Transport World Context).
          IsKept system laws (if s.closing then s else update_poll system s))
        (backpressure_exceeded system t) t' t
        (λ _.
          if_intro (IsKept system laws) t'.closing t' (update_poll system t') (λ c. inl c)
            (λ n. absurd (cc (n, terminate_for_backpressure-closing system laws t))))
        (λ e.
          if_intro (IsKept system laws) t.closing t (update_poll system t) (λ c. inl c)
            (λ _. update_poll-IsKept system laws t (not_exceeded system laws t e)))

  -- What an answer of submit says of the transport.
  abbrev Kept : WriteStatus × Transport World Context → Type 0
  Kept (status, t) = status ≡ write_asynchronous → IsKept system laws t

  failed-Kept : (error : UvError) (t : Transport World Context) → Kept (write_error error, t)
  failed-Kept error t e = absurd (cc e)

  submit_behind-Kept :
      (deferral : Bool × WriteRequest × World) (t : Transport World Context)
      → Kept (submit_behind system rounds process deferral t)
  unfolding submit_behind
  submit_behind-Kept (false, r, world) t e = absurd (cc e)
  submit_behind-Kept (true, r, world) t _ =
      checked-IsKept system laws (queued system rounds process r world t)

  submit_waits-Kept :
      (deferral : Bool × List WriteRequest × World) (t : Transport World Context)
      → Kept (submit_waits system rounds process deferral t)
  unfolding submit_waits
  submit_waits-Kept (false, queue, world) t e = absurd (cc e)
  submit_waits-Kept (true, queue, world) t _ =
      watch_waiting-IsKept (record t { queue = queue; world = world })

  submit_flushed-Kept :
      (address : ℕ) (t : Transport World Context)
      → Kept (submit_flushed system rounds process address t)
  unfolding submit_flushed
  submit_flushed-Kept address t =
      if_intro Kept t.closing (write_error uv_eio, t) _ (λ _. failed-Kept uv_eio t)
        (λ _.
          if_intro Kept (is_queued system rounds process address t.queue)
            (submit_waits system rounds process (defer_queued system address t.queue t.world) t)
            (write_synchronous, t)
            (λ _. submit_waits-Kept (defer_queued system address t.queue t.world) t)
            (λ _ e. absurd (cc e)))

  submit_coalesced-Kept :
      (coalesced : Bool × WriteRequest) (t : Transport World Context)
      → Kept (submit_coalesced system rounds process coalesced t)
  submit_coalesced-Kept (false, r) t = failed-Kept uv_einval t
  submit_coalesced-Kept (true, r) t =
      let t' = flush_writes system rounds process (queued system rounds process r t.world t) in
      if_intro Kept (not (no_writes t.queue) || t.flushing_writes)
        (submit_behind system rounds process (defer system r t.world) t)
        (submit_flushed system rounds process r.address t')
        (λ _. submit_behind-Kept (defer system r t.world) t) (λ _. submit_flushed-Kept r.address t')

  submit_prepared-Kept :
      (prepared : Bool × WriteRequest) (t : Transport World Context)
      → Kept (submit_prepared system rounds process prepared t)
  submit_prepared-Kept (false, r) t = failed-Kept uv_einval t
  submit_prepared-Kept (true, r) t =
      if_intro Kept (r.bytes == 0) (write_synchronous, t) _ (λ _ e. absurd (cc e))
        (λ _.
          if_intro Kept (ltb (2 ^ 64 - 1 - r.bytes) t.pending_bytes) (write_error uv_eoverflow, t)
            (submit_coalesced system rounds process (coalesced system rounds process r t) t)
            (λ _. failed-Kept uv_eoverflow t)
            (λ _. submit_coalesced-Kept (coalesced system rounds process r t) t))

  -- A write that has to wait leaves the transport closing, or with no more bytes in its queue than the
  -- limit allows, if there is one, and, without TLS and once active, with a poll that waits for room
  -- to write while a request is queued.
  pub submit-IsKept :
      (r : WriteRequest) (t : Transport World Context)
      → (submit system rounds process r t).0 ≡ write_asynchronous
      → IsKept system laws (submit system rounds process r t).1
  unfolding submit
  submit-IsKept r t =
      if_intro Kept (not (writable system rounds process t)) (write_error uv_ebadf, t)
        (submit_prepared system rounds process (prepare r) t) (λ _. failed-Kept uv_ebadf t)
        (λ _. submit_prepared-Kept (prepare r) t)
