-- ===== src/Transport/Ordered/Flushes.antt =====
-- The loop of flushWrites keeps the stream in order.
use eiows.Common.{
  ℕ, zero, suc, ◌-◌, min, ◌≤◌, ◌≡◌, refl, sym, ◌∙◌, ap, ap₂, inl, inr, false, ◌||◌, Option, none,
  some, List, [], ◌∷◌, ◌++◌, ◌==◌, if_intro, Bytes, length, take, drop, take-append-drop,
  length-drop, append_assoc, append-nil, arith, no_length,
}
use eiows.Transport.Close.{call_back, invoke_write_callback}
use eiows.Transport.Ordered.{
  TcpLaws, SendLaw, queue_intro, plain_intro, IsRequest, IsOrdered, Extends, IsConsistent, stream,
  unsent, consistent, unchanged, step,
}
use eiows.Transport.Ordered.Requests.{
  advance-IsRequest, take-remaining_iovecs, length-remaining_iovecs,
}
use eiows.Transport.Output.{write_tcp, tcp_attempt}
use eiows.Transport.Submit.{
  Flushed, flushed, write_head, no_writes, complete_head_write, head_written, attempted, flush_loop,
}
use eiows.Transport.System.{
  System, Transport, UvError, on_write, Sent, sent, send_blocked, send_failed,
}
use eiows.Transport.WriteRequest.{
  WriteRequest, advance, remaining, remaining_bytes, remaining_iovecs,
}
use eiows.Transport.WriteRequest.Cursor.{advance-remaining}

module _ {World Context : Type 0} (system : System World Context) (output : World → Bytes)
    (laws : TcpLaws output system) where
  pub invoke_write_callback-Extends :
      (r : WriteRequest) (status : Option UvError) (t : Transport World Context)
      → IsConsistent output t
      → Extends output t (invoke_write_callback system r status t)
  unfolding invoke_write_callback
  invoke_write_callback-Extends r status t h = called r.callback
    where
      called : (callback : Option ℕ) → Extends output t (call_back system callback status t)
      called none = unchanged output t t h refl refl refl refl refl
      called (some id) = laws.call-Extends (on_write id status) t h

  complete_head_write-Extends :
      (r : WriteRequest) (rest : List WriteRequest) (t : Transport World Context)
      → IsConsistent output (record t { queue = rest })
      → Extends output
          (record t { queue = rest })
          (complete_head_write system (record t { queue = r ∷ rest }))
  unfolding complete_head_write
  complete_head_write-Extends r rest t h =
      let t' : Transport World Context = record t { queue = rest } in
      if_intro (Extends output t') r.deferred (invoke_write_callback system r none t') t'
        (λ _. invoke_write_callback-Extends r none t' h)
        (λ _. unchanged output t' t' h refl refl refl refl refl)

  -- The state behind a round that has written `n` bytes of the request at the head.
  abbrev pub advanced :
      ℕ → WriteRequest → List WriteRequest → Transport World Context → Transport World Context
  advanced n r rest t = record t {
    queue = advance n r ∷ rest;
    pending_bytes = t.pending_bytes - min t.pending_bytes n;
    encrypted = false;
  }

  -- Moving a prefix from what remains to what was put out.
  moved :
      (n : ℕ) (r : WriteRequest) (rest : List WriteRequest) (w w' : World)
      → IsRequest r
      → output w' ≡ output w ++ take n (remaining r)
      → output w' ++ (remaining (advance n r) ++ unsent rest)
        ≡ output w ++ (remaining r ++ unsent rest)
  moved n r rest w w' v e =
      let front = take n (remaining r) in
      let back = drop n (remaining r) in
      ap₂ (λ (x y : Bytes). x ++ (y ++ unsent rest)) e (advance-remaining n r v.cursor)
      ∙ append_assoc (output w) front (back ++ unsent rest)
      ∙ ap (λ (x : Bytes). output w ++ x) (sym (append_assoc front back (unsent rest)))
      ∙ ap (λ (x : Bytes). output w ++ (x ++ unsent rest)) (take-append-drop n (remaining r))

  pub advanced-IsOrdered :
      (n : ℕ) (r : WriteRequest) (rest : List WriteRequest) (t : Transport World Context)
      → n ≤ length (remaining r)
      → IsOrdered output (record t { queue = r ∷ rest })
      → IsOrdered output (advanced n r rest t)
  advanced-IsOrdered n r rest t h g =
      let (v, vs) = g.requests in
      let v' = advance-IsRequest n r v in
      record {
        plain = refl;
        requests = (v', vs);
        pending = omega (
          arith,
          g.pending,
          v.counted,
          v'.counted,
          h,
          ap (length {A = ℕ}) (advance-remaining n r v.cursor) ∙ length-drop n (remaining r),
        );
      }

  -- A request with nothing left to write leaves the queue.
  finished-IsOrdered :
      (r : WriteRequest) (rest : List WriteRequest) (t : Transport World Context)
      → remaining_bytes r ≡ 0
      → IsOrdered output (record t { queue = r ∷ rest })
      → IsOrdered output (record t { queue = rest })
  finished-IsOrdered r rest t e g = record {
    plain = g.plain;
    requests = g.requests.1;
    pending = omega (arith, g.pending, e);
  }

  abbrev pub with_head :
      WriteRequest → List WriteRequest → Transport World Context → Transport World Context
  with_head r rest t = record t { queue = r ∷ rest; encrypted = false }

  pub head_written-Extends :
      (n : ℕ) (r : WriteRequest) (rest : List WriteRequest) (t : Transport World Context)
      (world : World)
      → t.closing ≡ false
      → n ≤ length (remaining r)
      → IsOrdered output (with_head r rest t)
      → output world ≡ output t.world ++ take n (remaining r)
      → Extends output
          (with_head r rest t)
          (head_written system n (record (with_head r rest t) { world = world }))
  unfolding head_written
  head_written-Extends n r rest t world open_t h g e =
      let s : Transport World Context = with_head r rest t in
      let s' : Transport World Context = record s { world = world } in
      let t' : Transport World Context = advanced n r rest s' in
      let t'' : Transport World Context = record t' { queue = rest } in
      let v : IsRequest r = g.requests.0 in
      let v' : IsRequest (advance n r) = advance-IsRequest n r v in
      let ordered : IsOrdered output t' =
        advanced-IsOrdered n r rest s' h
          (record { plain = refl; requests = g.requests; pending = g.pending }) in
      let kept : stream output t' ≡ stream output s = moved n r rest t.world world v e in
      let whole : (queue : List WriteRequest)
          → unsent queue ≡ unsent (advance n r ∷ rest)
          → output world ++ unsent queue ≡ stream output s ++ [] =
        λ queue same.
          ap (λ (b : Bytes). output world ++ b) same ∙ kept ∙ sym (append-nil (stream output s)) in
      if_intro (Extends output s) (remaining_bytes (advance n r) == 0)
        (complete_head_write system t') t'
        (λ z.
          let none_left : remaining_bytes (advance n r) ≡ 0 = ground arith in
          step output s t'' (complete_head_write system t')
            (inr (record {
              was_open = open_t;
              ordered = finished-IsOrdered (advance n r) rest t' none_left ordered;
              more = [];
              bytes = whole rest (
                  ap (λ (b : Bytes). b ++ unsent rest)
                    (sym (no_length (remaining (advance n r)) (v'.counted ∙ none_left))));
            }))
            (complete_head_write-Extends (advance n r) rest t'
              (inr (finished-IsOrdered (advance n r) rest t' none_left ordered))))
        (λ _. inr (record {
          was_open = open_t;
          ordered = ordered;
          more = [];
          bytes = whole (advance n r ∷ rest) refl;
        }))

  -- One round of the loop: what the socket took, and the rounds behind it.
  round-Extends :
      (next : Transport World Context → Flushed × Transport World Context)
      → ((t' : Transport World Context) → IsConsistent output t' → Extends output t' (next t').1)
      → (r : WriteRequest) (rest : List WriteRequest) (t : Transport World Context)
      → t.closing ≡ false
      → IsOrdered output (with_head r rest t)
      → (answer : Sent × World)
      → SendLaw output (remaining_iovecs system.max_iovectors r) t.world answer
      → Extends output
          (with_head r rest t)
          (attempted system next
            (tcp_attempt system answer.0, record (with_head r rest t) { world = answer.1 })).1
  unfolding attempted
  round-Extends next ih r rest t o g (sent zero, world) (h, e) =
      let s : Transport World Context = with_head r rest t in
      unchanged output s (record s { world = world }) (inr g) refl refl refl refl
        (e ∙ append-nil (output t.world))
  round-Extends next ih r rest t o g (sent (suc n), world) (h, e) =
      let s : Transport World Context = with_head r rest t in
      let s' = head_written system (suc n) (record s { world = world }) in
      let taken =
        e
        ∙ ap (λ (b : Bytes). output t.world ++ b)
            (take-remaining_iovecs (suc n) system.max_iovectors r h) in
      let written : Extends output s s' =
        head_written-Extends (suc n) r rest t world o
          (omega (arith, h, length-remaining_iovecs system.max_iovectors r)) g taken in
      step output s s' (next s').1 written (ih s' (consistent output s s' written))
  round-Extends next ih r rest t o g (send_blocked, world) e =
      let s : Transport World Context = with_head r rest t in
      unchanged output s (record s { world = world }) (inr g) refl refl refl refl e
  round-Extends next ih r rest t o g (send_failed errno, world) e =
      let s : Transport World Context = with_head r rest t in
      unchanged output s (record s { world = world }) (inr g) refl refl refl refl e

  -- A round with a request at the head, given the rounds behind it.
  abbrev RoundExtends :
      (Transport World Context → Flushed × Transport World Context)
      → Transport World Context
      → Type 0
  RoundExtends next t =
      (no_writes t.queue || t.closing) ≡ false
      → IsOrdered output t
      → Extends output t (attempted system next (write_head system t)).1

  head_round :
      (next : Transport World Context → Flushed × Transport World Context)
      → ((t' : Transport World Context) → IsConsistent output t' → Extends output t' (next t').1)
      → (t : Transport World Context) → RoundExtends next t
  unfolding write_tcp
  head_round next ih t =
      queue_intro (RoundExtends next) t (λ _ n. absurd (cc n))
        (λ r rest _ n g.
          let iovecs = remaining_iovecs system.max_iovectors r in
          plain_intro
            (λ (t' : Transport World Context).
              Extends output t' (attempted system next (write_head system t')).1)
            (record t { queue = r ∷ rest }) g.plain
            (round-Extends next ih r rest t n
              (record { plain = refl; requests = g.requests; pending = g.pending })
              (system.send iovecs t.world) (laws.send_law iovecs t.world)))

  pub flush_loop-Extends :
      (fuel : ℕ) (t : Transport World Context)
      → IsConsistent output t
      → Extends output t (flush_loop system fuel t).1
  unfolding flush_loop
  flush_loop-Extends zero t h = unchanged output t t h refl refl refl refl refl
  flush_loop-Extends (suc fuel) t h =
      if_intro (λ (result : Flushed × Transport World Context). Extends output t result.1)
        (no_writes t.queue || t.closing) (flushed, t)
        (attempted system (flush_loop system fuel) (write_head system t))
        (λ _. unchanged output t t h refl refl refl refl refl)
        (λ n. elim h [
          | inl e ↦ absurd (ground (arith, e, n))
          | inr g ↦ head_round (flush_loop system fuel) (flush_loop-Extends fuel) t n g
        ])
