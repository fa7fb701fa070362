-- ===== src/Transport/Ordered/Rounds.antt =====
-- How many rounds the loop of flushWrites (nodejs/src/native_transport.cpp) takes.
use eiows.Common.{
  ℕ, zero, suc, ◌+◌, ◌<◌, ◌≤◌, ◌≡◌, refl, sym, ◌∙◌, ap, ◌⊎◌, inl, inr, Bool, true, false, ◌||◌,
  Option, none, some, List, ◌∷◌, ◌++◌, ◌==◌, if◌then◌else◌, if_intro, if_true, Bytes, length,
  length-drop, arith,
}
use eiows.Transport.Close.{call_back, invoke_write_callback}
use eiows.Transport.Ordered.{
  TcpLaws, SendLaw, queue_intro, plain_intro, IsRequest, IsOrdered, IsConsistent, total, consistent,
}
use eiows.Transport.Ordered.Flushes.{with_head, advanced, head_written-Extends}
use eiows.Transport.Ordered.Requests.{
  advance-IsRequest, take-remaining_iovecs, length-remaining_iovecs,
}
use eiows.Transport.Output.{write_tcp, tcp_attempt}
use eiows.Transport.Submit.{
  Flushed, flushed, no_writes, write_head, complete_head_write, head_written, attempted, flush_loop,
}
use eiows.Transport.System.{System, Transport, on_write, Sent, sent, send_blocked, send_failed}
use eiows.Transport.WriteRequest.{
  WriteRequest, advance, remaining, remaining_bytes, remaining_iovecs,
}
use eiows.Transport.WriteRequest.Cursor.{advance-remaining}

ap_if :
    {A : Type 0} (b : Bool) (x y y' : A)
    → (b ≡ false → y ≡ y')
    → (if b then x else y) ≡ (if b then x else y')
ap_if true x y y' h = refl
ap_if false x y y' h = h refl

module _ {World Context : Type 0} (system : System World Context) where
  -- The callbacks of written requests close the transport, or leave its queue alone.
  abbrev pub IsQuiet : Type 0
  IsQuiet =
      (id : ℕ) (t : Transport World Context)
      → ((system.call (on_write id none) t).1.closing ≡ true)
        ⊎ ((system.call (on_write id none) t).1.queue ≡ t.queue)

module _ {World Context : Type 0} (system : System World Context) (output : World → Bytes)
    (laws : TcpLaws output system) (quiet : IsQuiet system) where
  -- Less is queued than `n` bytes, or the transport closes.
  abbrev IsLess : ℕ → Transport World Context → Type 0
  IsLess n t = (t.closing ≡ true) ⊎ (total t.queue < n)

  callback-IsLess :
      (n : ℕ) (callback : Option ℕ) (t : Transport World Context)
      → total t.queue < n
      → IsLess n (call_back system callback none t)
  callback-IsLess n none t h = inr h
  callback-IsLess n (some id) t h = elim (quiet id t) [
    | inl e ↦ inl e
    | inr e ↦ inr (omega (arith, h, ap total e))
  ]

  complete_head_write-IsLess :
      (n : ℕ) (r : WriteRequest) (rest : List WriteRequest) (t : Transport World Context)
      → total rest < n
      → IsLess n (complete_head_write system (record t { queue = r ∷ rest }))
  unfolding complete_head_write invoke_write_callback
  complete_head_write-IsLess n r rest t h =
      let t' : Transport World Context = record t { queue = rest } in
      if_intro (IsLess n) r.deferred (call_back system r.callback none t') t'
        (λ _. callback-IsLess n r.callback t' h) (λ _. inr h)

  -- A round that writes some bytes leaves fewer.
  head_written-IsLess :
      (n : ℕ) (r : WriteRequest) (rest : List WriteRequest) (t : Transport World Context)
      → IsRequest r
      → suc n ≤ length (remaining r)
      → IsLess
          (remaining_bytes r + total rest)
          (head_written system (suc n) (with_head system output laws r rest t))
  unfolding head_written
  head_written-IsLess n r rest t v h =
      let all = remaining_bytes r + total rest in
      let t' = advanced system output laws (suc n) r rest t in
      let v' = advance-IsRequest (suc n) r v in
      let shorter =
        ap (length {A = ℕ}) (advance-remaining (suc n) r v.cursor)
        ∙ length-drop (suc n) (remaining r) in
      if_intro (IsLess all) (remaining_bytes (advance (suc n) r) == 0)
        (complete_head_write system t') t'
        (λ _.
          complete_head_write-IsLess all (advance (suc n) r) rest t' (omega (arith, h, v.counted)))
        (λ _. inr (omega (arith, h, v.counted, v'.counted, shorter)))

  -- Rounds that agree on all that they meet agree on a round before them.
  round-same :
      (next next' : Transport World Context → Flushed × Transport World Context) (r : WriteRequest)
      (rest : List WriteRequest)
      → ((t' : Transport World Context)
          → IsConsistent output t'
          → IsLess (remaining_bytes r + total rest) t'
          → next t' ≡ next' t')
      → (t : Transport World Context) → t.closing ≡ false
      → IsOrdered output (with_head system output laws r rest t)
      → (answer : Sent × World)
      → SendLaw output (remaining_iovecs system.max_iovectors r) t.world answer
      → attempted system next (
        tcp_attempt system answer.0,
        record (with_head system output laws r rest t) { world = answer.1 },
      )
        ≡ attempted system next' (
          tcp_attempt system answer.0,
          record (with_head system output laws r rest t) { world = answer.1 },
        )
  unfolding attempted
  round-same next next' r rest agree t o g (sent zero, world) h = refl
  round-same next next' r rest agree t o g (sent (suc n), world) (h, e) =
      let s : Transport World Context = with_head system output laws r rest t in
      let fits : suc n ≤ length (remaining r) =
        omega (arith, h, length-remaining_iovecs system.max_iovectors r) in
      let taken =
        e
        ∙ ap (λ (b : Bytes). output t.world ++ b)
            (take-remaining_iovecs (suc n) system.max_iovectors r h) in
      let s' = head_written system (suc n) (record s { world = world }) in
      agree s'
        (consistent output s s'
          (head_written-Extends system output laws (suc n) r rest t world o fits g taken))
        (head_written-IsLess n r rest (record t { world = world }) g.requests.0 fits)
  round-same next next' r rest agree t o g (send_blocked, world) h = refl
  round-same next next' r rest agree t o g (send_failed errno, world) h = refl

  closing_stops :
      (fuel : ℕ) (t : Transport World Context)
      → t.closing ≡ true
      → flush_loop system fuel t ≡ (flushed, t)
  unfolding flush_loop
  closing_stops zero t e = refl
  closing_stops (suc fuel) t e =
      if_true (no_writes t.queue || t.closing) (flushed, t)
        (attempted system (flush_loop system fuel) (write_head system t)) (ground (arith, e))

  abbrev HeadSame :
      (next next' : Transport World Context → Flushed × Transport World Context)
      → Transport World Context
      → Type 0
  HeadSame next next' t =
      ((t' : Transport World Context)
        → IsConsistent output t'
        → IsLess (total t.queue) t'
        → next t' ≡ next' t')
      → (no_writes t.queue || t.closing) ≡ false
      → IsOrdered output t
      → attempted system next (write_head system t) ≡ attempted system next' (write_head system t)

  head-same :
      (next next' : Transport World Context → Flushed × Transport World Context)
      (t : Transport World Context)
      → HeadSame next next' t
  unfolding write_tcp
  head-same next next' t =
      queue_intro (HeadSame next next') t (λ _ agree n. absurd (cc n))
        (λ r rest _ agree n g.
          let iovecs = remaining_iovecs system.max_iovectors r in
          plain_intro
            (λ (t' : Transport World Context).
              attempted system next (write_head system t')
              ≡ attempted system next' (write_head system t'))
            (record t { queue = r ∷ rest }) g.plain
            (round-same next next' r rest agree t n
              (record { plain = refl; requests = g.requests; pending = g.pending })
              (system.send iovecs t.world) (laws.send_law iovecs t.world)))

  -- Without TLS, the loop of flushWrites ends by itself: when the callbacks of written requests queue
  -- nothing, more rounds than there are bytes in the queue make no difference.
  pub flush_loop-rounds :
      (m n : ℕ) (t : Transport World Context)
      → IsConsistent output t
      → total t.queue < m
      → total t.queue < n
      → flush_loop system m t ≡ flush_loop system n t
  unfolding flush_loop
  flush_loop-rounds zero n t h l k = absurd (omega (arith, l))
  flush_loop-rounds (suc m) zero t h l k = absurd (omega (arith, k))
  flush_loop-rounds (suc m) (suc n) t h l k =
      ap_if (no_writes t.queue || t.closing) (flushed, t)
        (attempted system (flush_loop system m) (write_head system t))
        (attempted system (flush_loop system n) (write_head system t))
        (λ open_t. elim h [
          | inl e ↦ absurd (ground (arith, e, open_t))
          | inr g ↦
              head-same (flush_loop system m) (flush_loop system n) t
                (λ t' h' less. elim less [
                  | inl e ↦ closing_stops m t' e ∙ sym (closing_stops n t' e)
                  | inr s ↦ flush_loop-rounds m n t' h' (omega (arith, s, l)) (omega (arith, s, k))
                ])
                open_t g
        ])
