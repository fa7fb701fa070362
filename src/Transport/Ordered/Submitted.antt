-- ===== src/Transport/Ordered/Submitted.antt =====
-- submit puts the bytes of a request behind all that was submitted before it.
use eiows.Common.{
  ℕ, ◌+◌, ◌-◌, ◌^◌, ◌≡◌, refl, ◌⊎◌, sym, ◌∙◌, ap, ap₂, inl, inr, Bool, true, false, not, ◌||◌, ◌&&◌,
  Option, none, List, [], ◌∷◌, ◌++◌, ◌==◌, if◌then◌else◌, if_intro, Bytes, length, append_assoc,
  append-nil, All-append, ltb, arith, no_length,
}
use eiows.Transport.Close.{cancel_writes, backpressure_exceeded, terminate_for_backpressure}
use eiows.Transport.Ordered.{
  TcpLaws, consistent_intro, IsRequest, IsOrdered, Extends, ExtendsBy, IsConsistent, stream, unsent,
  total, consistent, unchanged, step, step_by, IsConsistent-by,
}
use eiows.Transport.Ordered.Closes.{terminate_for_backpressure-closing}
use eiows.Transport.Ordered.Deferred.{
  IsAlike, AreAlike, alike-remaining, alike-remaining_bytes, alike-IsRequest, Unretained,
  IsDeferred, defer-IsDeferred, IsQueueDeferred, defer_queued-IsQueueDeferred,
}
use eiows.Transport.Ordered.Requests.{IsPrepared, prepare-IsPrepared}
use eiows.Transport.Ordered.Submits.{flush_writes-Extends, update_poll-Extends}
use eiows.Transport.Submit.{
  defer, queued, submit_behind, defer_queued, watch_waiting, submit_waits, submit_flushed,
  submit_coalesced, submit_prepared, submit, flush_writes, update_poll, is_queued, no_writes,
  writable, is_some, write_owned,
}
use eiows.Transport.System.{
  System, Transport, uv_ecanceled, uv_einval, uv_eio, uv_ebadf, WriteStatus, write_synchronous,
  write_asynchronous, write_not_sent, write_error,
}
use eiows.Transport.WriteRequest.{WriteRequest, new_request, prepare, concat, remaining}

unsent-append : (rs rs' : List WriteRequest) → unsent (rs ++ rs') ≡ unsent rs ++ unsent rs'
unsent-append [] rs' = refl
unsent-append (r ∷ rs) rs' =
    ap (λ (b : Bytes). remaining r ++ b) (unsent-append rs rs')
    ∙ sym (append_assoc (remaining r) (unsent rs) (unsent rs'))

total-append : (rs rs' : List WriteRequest) → total (rs ++ rs') ≡ total rs + total rs'
total-append [] rs' = omega arith
total-append (r ∷ rs) rs' = omega (arith, total-append rs rs')

alike-IsPrepared :
    (ps : List Bytes) (r r' : WriteRequest) → IsAlike r r' → IsPrepared ps r → IsPrepared ps r'
alike-IsPrepared ps r r' a p = record {
  request = alike-IsRequest r r' a p.request;
  all_bytes = alike-remaining r r' a ∙ p.all_bytes;
  nothing_sent = alike-remaining_bytes r r' a ∙ p.nothing_sent ∙ sym a.same_bytes;
}

module _ {World Context : Type 0} (system : System World Context) (output : World → Bytes)
    (laws : TcpLaws output system) (rounds : ℕ)
    (process : Transport World Context → Bool × Transport World Context) where
  -- No byte was added, and no request.
  pub record IsUntouched (t t' : Transport World Context) : Type 0 where
    pub same_queue : t'.queue ≡ t.queue
    pub same_pending : t'.pending_bytes ≡ t.pending_bytes
    pub same_closing : t'.closing ≡ t.closing
    pub same_output : output t'.world ≡ output t.world

  -- The bytes were added and a request is to stay in the queue of the open transport, whose callback
  -- cannot be retained: all requests that wait are cancelled, behind the bytes that the socket has
  -- taken by then.
  pub record IsCancelled (ps : List Bytes) (t t' : Transport World Context) : Type 0 where
    pub unretained : Unretained system output laws
    pub sent : Transport World Context
    pub still_open : sent.closing ≡ false
    pub added : ExtendsBy output (concat ps) t sent
    pub queue : List WriteRequest
    pub world : World
    pub alike_unsent : unsent queue ≡ unsent sent.queue
    pub nothing_sent : output world ≡ output sent.world
    pub cancelled :
        t'
        ≡ cancel_writes system
            (length queue)
            uv_ecanceled
            (record sent { queue = queue; world = world })

  -- What submit does with requests of these parts.
  abbrev pub Accepts :
      List Bytes → Transport World Context → WriteStatus × Transport World Context → Type 0
  Accepts ps t (write_error error, t') =
      (t'.closing ≡ true) ⊎ IsUntouched t t' ⊎ ((error ≡ uv_einval) × IsCancelled ps t t')
  Accepts ps t (write_synchronous, t') = ExtendsBy output (concat ps) t t'
  Accepts ps t (write_asynchronous, t') = ExtendsBy output (concat ps) t t'
  Accepts ps t (write_not_sent, t') = ⊥

  untouched : (t : Transport World Context) → IsUntouched t t
  untouched t = record {
    same_queue = refl;
    same_pending = refl;
    same_closing = refl;
    same_output = refl;
  }

  queued-ExtendsBy :
      (ps : List Bytes) (r : WriteRequest) (world : World) (t : Transport World Context)
      → t.closing ≡ false
      → IsOrdered output t
      → IsPrepared ps r
      → output world ≡ output t.world
      → ExtendsBy output (concat ps) t (queued system rounds process r world t)
  queued-ExtendsBy ps r world t o g p e = inr (record {
    was_open = o;
    ordered = record {
      plain = g.plain;
      requests = All-append IsRequest t.queue (r ∷ []) g.requests (p.request, tt);
      pending = omega (arith, g.pending, p.nothing_sent, total-append t.queue (r ∷ []));
    };
    more = [];
    bytes =
        ap₂ (◌++◌) e (
          unsent-append t.queue (r ∷ [])
          ∙ ap (λ (b : Bytes). unsent t.queue ++ b) (append-nil (remaining r) ∙ p.all_bytes))
        ∙ sym (append_assoc (output t.world) (unsent t.queue) (concat ps))
        ∙ sym (append-nil (stream output t ++ concat ps));
  })

  submit_behind-Accepts :
      (ps : List Bytes) (r : WriteRequest) (t : Transport World Context)
      (deferral : Bool × WriteRequest × World)
      → t.closing ≡ false
      → IsOrdered output t
      → IsPrepared ps r
      → IsDeferred system output laws r t.world deferral
      → Accepts ps t (submit_behind system rounds process deferral t)
  unfolding submit_behind
  submit_behind-Accepts ps r t (false, r', world) o g p d = inr (
      inl (record {
        same_queue = refl;
        same_pending = refl;
        same_closing = refl;
        same_output = d.no_output;
      }))
  submit_behind-Accepts ps r t (true, r', world) o g p d =
      let t' = queued system rounds process r' world t in
      let added : ExtendsBy output (concat ps) t t' =
        queued-ExtendsBy ps r' world t o g (alike-IsPrepared ps r r' d.alike p) d.no_output in
      if_intro (ExtendsBy output (concat ps) t) (backpressure_exceeded system t')
        (terminate_for_backpressure system t') (update_poll system t')
        (λ _. inl (terminate_for_backpressure-closing system laws.closing_laws t'))
        (λ _. step_by output (concat ps) t t' (update_poll system t') added (
          update_poll-Extends system output laws t'
            (IsConsistent-by output (concat ps) t t' added)))

  -- The queue with a request deferred in it.
  requeued-Extends :
      (queue : List WriteRequest) (world : World) (t : Transport World Context)
      → IsConsistent output t
      → AreAlike t.queue queue
      → output world ≡ output t.world
      → Extends output t (record t { queue = queue; world = world })
  requeued-Extends queue world t h a e =
      consistent_intro output
        (λ (t' : Transport World Context).
          AreAlike t'.queue queue
          → output world ≡ output t'.world
          → Extends output t' (record t' { queue = queue; world = world }))
        t h (λ _ _. inl refl)
        (λ g b o. inr (record {
          was_open = refl;
          ordered = record {
            plain = refl;
            requests = b.keeps_requests g.requests;
            pending = g.pending ∙ sym b.same_total;
          };
          more = [];
          bytes = ap₂ (◌++◌) o b.same_unsent ∙ sym (append-nil (output t.world ++ unsent t.queue));
        }))
        a e

  watched-Extends :
      (t : Transport World Context)
      → IsConsistent output t
      → Extends output t (watch_waiting system rounds process t)
  watched-Extends t h =
      let t' = if backpressure_exceeded system t then terminate_for_backpressure system t else t in
      let checked : Extends output t t' =
        if_intro (Extends output t) (backpressure_exceeded system t)
          (terminate_for_backpressure system t) t
          (λ _. inl (terminate_for_backpressure-closing system laws.closing_laws t))
          (λ _. unchanged output t t h refl refl refl refl refl) in
      if_intro (Extends output t) t'.closing t' (update_poll system t') (λ _. checked)
        (λ _.
          step output t t' (update_poll system t') checked
            (update_poll-Extends system output laws t' (consistent output t t' checked)))

  submit_waits-Accepts :
      (ps : List Bytes) (t t' : Transport World Context)
      (deferral : Bool × List WriteRequest × World)
      → t'.closing ≡ false
      → ExtendsBy output (concat ps) t t'
      → IsQueueDeferred system output laws t'.queue t'.world deferral
      → Accepts ps t (submit_waits system rounds process deferral t')
  unfolding submit_waits
  submit_waits-Accepts ps t t' (false, queue, world) o h d = elim d.all_done [
    | inl done ↦ absurd (cc done)
    | inr failed ↦ inr (
        inr (
          refl,
          record {
            unretained = failed;
            sent = t';
            still_open = o;
            added = h;
            queue = queue;
            world = world;
            alike_unsent = d.are_alike.same_unsent;
            nothing_sent = d.nothing_put_out;
            cancelled = refl;
          },
        ))
  ]
  submit_waits-Accepts ps t t' (true, queue, world) o h d =
      let s : Transport World Context = record t' { queue = queue; world = world } in
      let requeued : Extends output t' s =
        requeued-Extends queue world t' (IsConsistent-by output (concat ps) t t' h) d.are_alike
          d.nothing_put_out in
      step_by output (concat ps) t s (watch_waiting system rounds process s)
        (step_by output (concat ps) t t' s h requeued)
        (watched-Extends s (consistent output t' s requeued))

  submit_flushed-Accepts :
      (ps : List Bytes) (address : ℕ) (t t' : Transport World Context)
      → ExtendsBy output (concat ps) t t'
      → Accepts ps t (submit_flushed system rounds process address t')
  unfolding submit_flushed
  submit_flushed-Accepts ps address t t' h =
      if_intro (Accepts ps t) t'.closing (write_error uv_eio, t') _ (λ e. inl e)
        (λ o.
          if_intro (Accepts ps t) (is_queued system rounds process address t'.queue)
            (submit_waits system rounds process (defer_queued system address t'.queue t'.world) t')
            (write_synchronous, t')
            (λ _.
              submit_waits-Accepts ps t t' (defer_queued system address t'.queue t'.world) o h
                (defer_queued-IsQueueDeferred system output laws address t'.queue t'.world))
            (λ _. h))

  submit_coalesced-Accepts :
      (ps : List Bytes) (r : WriteRequest) (t : Transport World Context)
      → t.closing ≡ false
      → IsOrdered output t
      → IsPrepared ps r
      → Accepts ps t (submit_coalesced system rounds process (true, r) t)
  submit_coalesced-Accepts ps r t o g p =
      let t' = queued system rounds process r t.world t in
      let added : ExtendsBy output (concat ps) t t' = queued-ExtendsBy ps r t.world t o g p refl in
      if_intro (Accepts ps t) (not (no_writes t.queue) || t.flushing_writes)
        (submit_behind system rounds process (defer system r t.world) t)
        (submit_flushed system rounds process r.address (flush_writes system rounds process t'))
        (λ _.
          submit_behind-Accepts ps r t (defer system r t.world) o g p
            (defer-IsDeferred system output laws r t.world))
        (λ _. submit_flushed-Accepts ps r.address t (flush_writes system rounds process t') (
          step_by output (concat ps) t t' (flush_writes system rounds process t') added (
            flush_writes-Extends system output laws rounds process t'
              (IsConsistent-by output (concat ps) t t' added))))

  prepared_length :
      (ps : List Bytes) (r : WriteRequest) → IsPrepared ps r → length (concat ps) ≡ r.bytes
  prepared_length ps r p =
      ap (length {A = ℕ}) (sym p.all_bytes) ∙ p.request.counted ∙ p.nothing_sent

  shut : (a b c : Bool) → not (a && false && b && c) ≡ true
  shut true b c = refl
  shut false b c = refl

  forgotten :
      (ps : List Bytes) (t t' : Transport World Context)
      → ExtendsBy output (concat ps) t t'
      → Extends output t t'
  forgotten ps t t' (inl e) = inl e
  forgotten ps t t' (inr k) = inr (record {
    was_open = k.was_open;
    ordered = k.ordered;
    more = concat ps ++ k.more;
    bytes = k.bytes ∙ append_assoc (stream output t) (concat ps) k.more;
  })

  submit_prepared-Accepts :
      (ps : List Bytes) (t : Transport World Context) (prepared : Bool × WriteRequest)
      → t.closing ≡ false
      → IsOrdered output (record t { encrypted = false })
      → (prepared.0 ≡ true → IsPrepared ps prepared.1)
      → Accepts ps
          (record t { encrypted = false })
          (submit_prepared system rounds process prepared (record t { encrypted = false }))
  submit_prepared-Accepts ps t (false, r) o g p =
      let t' : Transport World Context = record t { encrypted = false } in inr (inl (untouched t'))
  submit_prepared-Accepts ps t (true, r) o g p =
      let t' : Transport World Context = record t { encrypted = false } in
      let made : IsPrepared ps r = p refl in
      let overflow = ltb (2 ^ 64 - 1 - r.bytes) t.pending_bytes in
      if_intro (Accepts ps t') (r.bytes == 0) (write_synchronous, t') _
        (λ e. inr (record {
          was_open = o;
          ordered = g;
          more = [];
          bytes = sym (
              append-nil (stream output t' ++ concat ps)
              ∙ ap (λ (b : Bytes). stream output t' ++ b)
                  (no_length (concat ps) (prepared_length ps r made ∙ ground arith))
              ∙ append-nil (stream output t'));
        }))
        (λ _.
          if_intro (Accepts ps t') overflow _ (submit_coalesced system rounds process (true, r) t')
            (λ _. inr (inl (untouched t'))) (λ _. submit_coalesced-Accepts ps r t' o g made))

  -- Without TLS, a request that submit takes has its bytes, whole and in one piece, directly behind
  -- all bytes that were given to the transport before, or else the transport closes. When it answers
  -- an error, the transport closes; or no byte and no request is added; or, with EINVAL, a callback
  -- could not be retained for a request that was queued in its place, and the state is what cancelling
  -- the queue leaves.
  pub submit-Accepts :
      (address : ℕ) (ps : List Bytes) (callback : Option ℕ) (t : Transport World Context)
      → IsConsistent output t
      → Accepts ps t (submit system rounds process (new_request address ps callback) t)
  unfolding submit
  submit-Accepts address ps callback t h =
      let r : WriteRequest = new_request address ps callback in
      let goal =
        λ (t' : Transport World Context). Accepts ps t' (submit system rounds process r t') in
      consistent_intro output goal t h
        (let t' : Transport World Context = record t { closing = true } in
          if_intro (Accepts ps t') (not (writable system rounds process t'))
            (write_error uv_ebadf, t') _ (λ _. inr (inl (untouched t')))
            (λ n. absurd (cc (n, shut t.valid (is_some t.session) t.descriptor))))
        (λ g.
          let t' : Transport World Context = record t { encrypted = false; closing = false } in
          if_intro (Accepts ps t') (not (writable system rounds process t'))
            (write_error uv_ebadf, t') (submit_prepared system rounds process (prepare r) t')
            (λ _. inr (inl (untouched t')))
            (λ _.
              submit_prepared-Accepts ps t' (prepare r) refl g
                (prepare-IsPrepared address ps callback)))

  -- What is accepted extends the stream, if it is not looked at what was added.
  abbrev pub Taken : Transport World Context → WriteStatus × Transport World Context → Type 0
  Taken t (write_error error, t') = Unit
  Taken t (write_synchronous, t') = Extends output t t'
  Taken t (write_asynchronous, t') = Extends output t t'
  Taken t (write_not_sent, t') = Extends output t t'

  accepted-Taken :
      (ps : List Bytes) (t s : Transport World Context)
      (result : WriteStatus × Transport World Context)
      → Extends output t s
      → Accepts ps s result
      → Taken t result
  accepted-Taken ps t s (write_error error, t') before h = tt
  accepted-Taken ps t s (write_synchronous, t') before h =
      step output t s t' before (forgotten ps s t' h)
  accepted-Taken ps t s (write_asynchronous, t') before h =
      step output t s t' before (forgotten ps s t' h)
  accepted-Taken ps t s (write_not_sent, t') before h = absurd h

  pub write_owned-Taken :
      (bytes : Bytes) (t : Transport World Context)
      → IsConsistent output t
      → Taken t (write_owned system rounds process bytes t)
  unfolding write_owned
  write_owned-Taken bytes t h =
      let (address, world) = system.allocate t.world in
      let t' : Transport World Context = record t { world = world } in
      let result = submit system rounds process (new_request address (bytes ∷ []) none) t' in
      let before : Extends output t t' =
        unchanged output t t' h refl refl refl refl (laws.allocate-output t.world) in
      accepted-Taken (bytes ∷ []) t t' result before
        (submit-Accepts address (bytes ∷ []) none t' (consistent output t t' before))
