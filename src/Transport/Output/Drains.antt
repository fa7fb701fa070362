-- ===== src/Transport/Output/Drains.antt =====
-- flushMemoryBIOOutput of nodejs/src/native_transport.cpp: TLS output reaches the socket in the order
-- in which OpenSSL made it, through partial writes.
use eiows.Common.{
  ℕ, zero, suc, ◌+◌, ◌-◌, min, ◌<◌, ◌≤◌, ◌≡◌, refl, sym, ◌∙◌, ap, ap₂, ◌⊎◌, inl, inr, Bool, true,
  false, not, Option, none, some, [], ◌++◌, ltb, ◌==◌, ==_iff, ltb→lt, if_intro, Bytes, length,
  take, drop, drop-drop, length-drop, length-append, take-append-drop, append_assoc, arith,
  no_length, drop_all,
}
use eiows.Transport.Output.{
  Draining, returns, goes_on, advance_ciphertext, flush_ciphertext, stop_if_blocked, read_batch,
  sent_batch, send_batch, drain_round, drain, drain_all, go_on, flush_memory_bio_output,
  tls_output_batch_size,
}
use eiows.Transport.Ordered.{SendLaw}
use eiows.Transport.System.{System, Transport, Sent, sent, send_blocked, send_failed}

-- The bytes on the socket and those in nodeWriteBIO_.
pub record BioLaws {World Context : Type 0} (system : System World Context)
    (output held : World → Bytes) : Type 0 where
  pub pending_law : (world : World) → system.bio_pending world ≡ length (held world)
  pub read_law :
      (size : ℕ) (world : World)
      → (system.bio_read size world).0 ++ held (system.bio_read size world).1 ≡ held world
  pub read-output :
      (size : ℕ) (world : World) → output (system.bio_read size world).1 ≡ output world
  pub send-held : (bytes : Bytes) (world : World) → held (system.send bytes world).1 ≡ held world
  pub send-output :
      (bytes : Bytes) (world : World) → SendLaw output bytes world (system.send bytes world)

module _ {World Context : Type 0} (system : System World Context) (output held : World → Bytes)
    (laws : BioLaws system output held) where
  -- The ciphertext that an earlier call has left.
  abbrev pub buffered : Transport World Context → Bytes
  buffered t = drop t.tls_ciphertext_offset t.tls_ciphertext

  -- All ciphertext that OpenSSL has made, in its order.
  abbrev pub ciphertext : Transport World Context → Bytes
  ciphertext t = output t.world ++ (buffered t ++ held t.world)

  pub record IsDrained (t t' : Transport World Context) : Type 0 where
    pub in_order : ciphertext t' ≡ ciphertext t
    pub settled : (t'.tls_ciphertext_offset < length t'.tls_ciphertext) ⊎ (held t'.world ≡ [])

  -- What a batch that was read from nodeWriteBIO_ holds, behind `batch`.
  abbrev IsRead : Bytes → World → Option Bytes × World → Type 0
  IsRead batch world (none, world') = Unit
  IsRead batch world (some bytes, world') =
      (bytes ++ held world' ≡ batch ++ held world)
      × (output world' ≡ output world)
      × (length batch ≤ length bytes)

  IsRead-on :
      (batch : Bytes) (size : ℕ) (world : World) (result : Option Bytes × World)
      → IsRead (batch ++ (system.bio_read size world).0) (system.bio_read size world).1 result
      → IsRead batch world result
  IsRead-on batch size world (none, world') h = tt
  IsRead-on batch size world (some bytes, world') (e, o, n) =
      let (read, world'') = system.bio_read size world in
      (
        e
            ∙ append_assoc batch read (held world'')
            ∙ ap (λ (b : Bytes). batch ++ b) (laws.read_law size world),
        o ∙ laws.read-output size world,
        omega (arith, n, length-append batch read),
      )

  read_batch-IsRead :
      (fuel size : ℕ) (batch : Bytes) (world : World)
      → IsRead batch world (read_batch system fuel size batch world)
  unfolding read_batch
  read_batch-IsRead zero size batch world = (refl, refl, omega arith)
  read_batch-IsRead (suc fuel) size batch world =
      let (bytes, world') = system.bio_read (size - length batch) world in
      let more = read_batch system fuel size (batch ++ bytes) world' in
      if_intro (IsRead batch world) (not (ltb (length batch) size)) (some batch, world) _
        (λ _. (refl, refl, omega arith))
        (λ _.
          if_intro (IsRead batch world) (length bytes == 0) (none, world') more (λ _. tt)
            (λ _.
              IsRead-on batch (size - length batch) world more
                (read_batch-IsRead fuel size (batch ++ bytes) world')))

  -- A batch that is read has a byte at least.
  abbrev IsSome : Option Bytes × World → Type 0
  IsSome (none, world) = Unit
  IsSome (some bytes, world) = 0 < length bytes

  read-IsSome :
      (batch : Bytes) (world : World) (result : Option Bytes × World)
      → 0 < length batch
      → IsRead batch world result
      → IsSome result
  read-IsSome batch world (none, world') h r = tt
  read-IsSome batch world (some bytes, world') h (e, o, n) = omega (arith, n, h)

  read_batch-IsSome :
      (fuel size : ℕ) (world : World)
      → 0 < fuel
      → 0 < size
      → IsSome (read_batch system fuel size [] world)
  unfolding read_batch
  read_batch-IsSome zero size world f h = absurd (omega (arith, f))
  read_batch-IsSome (suc fuel) size world f h =
      let (bytes, world') = system.bio_read (size - 0) world in
      let more = read_batch system fuel size bytes world' in
      if_intro IsSome (not (ltb 0 size)) (some [], world) _ (λ e. absurd (ground (arith, e, h)))
        (λ _.
          if_intro IsSome (length bytes == 0) (none, world') more (λ _. tt)
            (λ n.
              read-IsSome bytes world' more (ground arith)
                (read_batch-IsRead fuel size bytes world')))

  -- What one part of flushMemoryBIOOutput does to the state `t`.
  abbrev IsRound : Transport World Context → Draining system → Type 0
  IsRound t (returns true t') = IsDrained t t'
  IsRound t (returns false t') = Unit
  IsRound t (goes_on t') =
      (ciphertext t' ≡ ciphertext t)
      × (buffered t' ≡ [])
      × (length (held t'.world) < length (held t.world))

  -- The ciphertext, where nothing was left by an earlier call.
  fresh :
      (t : Transport World Context)
      → buffered t ≡ []
      → ciphertext t ≡ output t.world ++ held t.world
  fresh t e = ap (λ (b : Bytes). output t.world ++ (b ++ held t.world)) e

  -- `batch` was taken from what is held; `sent` of it is now on the socket.
  split_batch :
      (n : ℕ) (batch before held_now held_before after : Bytes)
      → after ≡ before ++ take n batch
      → batch ++ held_now ≡ held_before
      → after ++ (drop n batch ++ held_now) ≡ before ++ held_before
  split_batch n batch before held_now held_before after e h =
      ap (λ (b : Bytes). b ++ (drop n batch ++ held_now)) e
      ∙ append_assoc before (take n batch) (drop n batch ++ held_now)
      ∙ ap (λ (b : Bytes). before ++ b)
          (sym (append_assoc (take n batch) (drop n batch) held_now)
            ∙ ap (λ (b : Bytes). b ++ held_now) (take-append-drop n batch)
            ∙ h)

  sent_batch-IsRound :
      (batch : Bytes) (t : Transport World Context) (answer : Sent × World)
      → buffered t ≡ []
      → 0 < length batch
      → (world : World) → output world ≡ output t.world
      → SendLaw output batch world answer
      → batch ++ held answer.1 ≡ held t.world
      → IsRound t (sent_batch system batch answer.0 (record t { world = answer.1 }))
  unfolding sent_batch
  sent_batch-IsRound batch t (sent n, now) e l world o (h, s) b =
      let whole =
        split_batch n batch (output t.world) (held now) (held t.world) (output now)
          (s ∙ ap (λ (x : Bytes). x ++ take n batch) o) b in
      let t' : Transport World Context = record t { world = now } in
      if_intro (IsRound t) (n == length batch) (goes_on t')
        (returns true (record t' { tls_ciphertext = drop n batch; tls_ciphertext_offset = 0 }))
        (λ q. (
          fresh t' e
              ∙ ap (λ (x : Bytes). output now ++ (x ++ held now))
                  (sym (drop_all n batch (ground arith)))
              ∙ whole
              ∙ sym (fresh t e),
          e,
          omega (arith, l, ap (length {A = ℕ}) b, length-append batch (held now)),
        ))
        (λ q. record {
          in_order = whole ∙ sym (fresh t e);
          settled = inl (ground (arith, length-drop n batch));
        })
  sent_batch-IsRound batch t (send_blocked, now) e l world o s b = record {
    in_order = ap₂ (◌++◌) (s ∙ o) b ∙ sym (fresh t e);
    settled = inl l;
  }
  sent_batch-IsRound batch t (send_failed errno, now) e l world o s b = tt

  send_batch-IsRound :
      (t : Transport World Context) (result : Option Bytes × World)
      → buffered t ≡ []
      → IsRead [] t.world result
      → IsSome result
      → IsRound t (send_batch system result t)
  send_batch-IsRound t (none, world) e r l = tt
  send_batch-IsRound t (some batch, world) e (b, o, n) l =
      sent_batch-IsRound batch t (system.send batch world) e l world o
        (laws.send-output batch world)
        (ap (λ (x : Bytes). batch ++ x) (laws.send-held batch world) ∙ b)

  drain_round-IsRound :
      (t : Transport World Context) → buffered t ≡ [] → IsRound t (drain_round system t)
  unfolding drain_round
  drain_round-IsRound t e =
      let pending = system.bio_pending t.world in
      let size = min pending tls_output_batch_size in
      let result = read_batch system size size [] t.world in
      if_intro (IsRound t) (pending == 0) (returns true t) (send_batch system result t)
        (λ z. record {
          in_order = refl;
          settled = inr (no_length (held t.world) (sym (laws.pending_law t.world) ∙ ground arith));
        })
        (λ z.
          let some_pending : 0 < size = ground arith in
          send_batch-IsRound t result e (read_batch-IsRead size size [] t.world)
            (read_batch-IsSome size size t.world some_pending some_pending))

  IsDrained-behind :
      (t t' t'' : Transport World Context)
      → ciphertext t' ≡ ciphertext t
      → IsDrained t' t''
      → IsDrained t t''
  IsDrained-behind t t' t'' e d = record { in_order = d.in_order ∙ e; settled = d.settled }

  -- One round, and those behind it.
  go_on-IsDrained :
      (next : Transport World Context → Bool × Transport World Context)
      (t : Transport World Context)
      → ((t' : Transport World Context)
          → buffered t' ≡ []
          → length (held t'.world) < length (held t.world)
          → (next t').0 ≡ true
          → IsDrained t' (next t').1)
      → (round : Draining system) → IsRound t round
      → (go_on system next round).0 ≡ true
      → IsDrained t (go_on system next round).1
  go_on-IsDrained next t ih (returns true t') d e = d
  go_on-IsDrained next t ih (returns false t') d e = absurd (cc e)
  go_on-IsDrained next t ih (goes_on t') (c, b, l) e =
      IsDrained-behind t t' (next t').1 c (ih t' b l e)

  drain-IsDrained :
      (fuel : ℕ) (t : Transport World Context)
      → buffered t ≡ []
      → length (held t.world) < fuel
      → (drain system fuel t).0 ≡ true
      → IsDrained t (drain system fuel t).1
  unfolding drain
  drain-IsDrained zero t b l e = absurd (omega (arith, l))
  drain-IsDrained (suc fuel) t b l e =
      go_on-IsDrained (drain system fuel) t
        (λ t' b' l'. drain-IsDrained fuel t' b' (omega (arith, l, l'))) (drain_round system t)
        (drain_round-IsRound t b) e

  -- What the ciphertext of an earlier call leads to.
  abbrev IsStart : Transport World Context → Draining system → Type 0
  IsStart t (returns true t') = IsDrained t t'
  IsStart t (returns false t') = Unit
  IsStart t (goes_on t') = (ciphertext t' ≡ ciphertext t) × (buffered t' ≡ [])

  stop_if_blocked-IsStart :
      (t t' : Transport World Context)
      → ciphertext t' ≡ ciphertext t
      → IsStart t (stop_if_blocked system t')
  stop_if_blocked-IsStart t t' e =
      if_intro (IsStart t) (ltb t'.tls_ciphertext_offset (length t'.tls_ciphertext))
        (returns true t') (goes_on t')
        (λ l. record {
          in_order = e;
          settled = inl (ltb→lt t'.tls_ciphertext_offset (length t'.tls_ciphertext) l);
        })
        (λ l. (e, drop_all t'.tls_ciphertext_offset t'.tls_ciphertext (ground arith)))

  -- The world stays, and the first `n` bytes are no longer buffered.
  abbrev IsAdvanced : ℕ → Transport World Context → Transport World Context → Type 0
  IsAdvanced n t t' = (t'.world ≡ t.world) × (buffered t' ≡ drop n (buffered t))

  advance_ciphertext-IsAdvanced :
      (n : ℕ) (t : Transport World Context) → IsAdvanced n t (advance_ciphertext system n t)
  unfolding advance_ciphertext
  advance_ciphertext-IsAdvanced n t =
      let offset = t.tls_ciphertext_offset in
      let behind = drop-drop n offset t.tls_ciphertext in
      if_intro (IsAdvanced n t) (n == 0) t _
        (λ e. (refl, ap (λ (i : ℕ). drop i (buffered t)) (sym ((==_iff n 0).0 e))))
        (λ _.
          if_intro (IsAdvanced n t) (offset + n == length t.tls_ciphertext)
            (record t { tls_ciphertext = []; tls_ciphertext_offset = 0 })
            (record t { tls_ciphertext_offset = offset + n })
            (λ e. (refl, sym (behind ∙ drop_all (offset + n) t.tls_ciphertext (ground arith))))
            (λ _. (refl, sym behind)))

  advanced_ciphertext :
      (n : ℕ) (t t' t'' : Transport World Context)
      → IsAdvanced n t' t''
      → buffered t' ≡ buffered t
      → held t'.world ≡ held t.world
      → output t'.world ≡ output t.world ++ take n (buffered t)
      → ciphertext t'' ≡ ciphertext t
  advanced_ciphertext n t t' t'' (w, b) e h o =
      ap₂ (λ (v : World) (x : Bytes). output v ++ (x ++ held v)) w (b ∙ ap (drop n) e)
      ∙ split_batch n (buffered t) (output t.world) (held t'.world) (buffered t ++ held t.world)
          (output t'.world) o (ap (λ (x : Bytes). buffered t ++ x) h)

  flush_ciphertext-IsStart :
      (t : Transport World Context) (answer : Sent × World)
      → SendLaw output (buffered t) t.world answer
      → held answer.1 ≡ held t.world
      → IsStart t (flush_ciphertext system answer.0 (record t { world = answer.1 }))
  unfolding flush_ciphertext
  flush_ciphertext-IsStart t (sent n, world) (l, o) h =
      let t' : Transport World Context = record t { world = world } in
      let t'' = advance_ciphertext system n t' in
      stop_if_blocked-IsStart t t''
        (advanced_ciphertext n t t' t'' (advance_ciphertext-IsAdvanced n t') refl h o)
  flush_ciphertext-IsStart t (send_blocked, world) o h =
      stop_if_blocked-IsStart t (record t { world = world })
        (ap₂ (λ (x y : Bytes). x ++ (buffered t ++ y)) o h)
  flush_ciphertext-IsStart t (send_failed errno, world) o h = tt

  drain_all-IsDrained :
      (t : Transport World Context)
      → buffered t ≡ []
      → (drain_all system t).0 ≡ true
      → IsDrained t (drain_all system t).1
  drain_all-IsDrained t b e =
      drain-IsDrained (suc (system.bio_pending t.world)) t b
        (omega (arith, laws.pending_law t.world)) e

  started-IsDrained :
      (t : Transport World Context) (start : Draining system)
      → IsStart t start
      → (go_on system (drain_all system) start).0 ≡ true
      → IsDrained t (go_on system (drain_all system) start).1
  started-IsDrained t (returns true t') d e = d
  started-IsDrained t (returns false t') d e = absurd (cc e)
  started-IsDrained t (goes_on t') (c, b) e =
      IsDrained-behind t t' (drain_all system t').1 c (drain_all-IsDrained t' b e)

  -- When flushMemoryBIOOutput reports no failure, the ciphertext that OpenSSL has made is on the socket,
  -- in the transport's buffer and in the BIO in the same order as before, with nothing lost or sent
  -- twice, and it has stopped for a socket that takes no more, or with the BIO empty.
  pub flush_memory_bio_output-IsDrained :
      (t : Transport World Context)
      → (flush_memory_bio_output system t).0 ≡ true
      → IsDrained t (flush_memory_bio_output system t).1
  unfolding flush_memory_bio_output
  flush_memory_bio_output-IsDrained t =
      let answer = system.send (buffered t) t.world in
      let start = flush_ciphertext system answer.0 (record t { world = answer.1 }) in
      if_intro (λ (r : Bool × Transport World Context). r.0 ≡ true → IsDrained t r.1)
        (ltb t.tls_ciphertext_offset (length t.tls_ciphertext))
        (go_on system (drain_all system) start) (drain_all system t)
        (λ _. started-IsDrained t start (
          flush_ciphertext-IsStart t answer (laws.send-output (buffered t) t.world)
            (laws.send-held (buffered t) t.world)))
        (λ l.
          drain_all-IsDrained t (drop_all t.tls_ciphertext_offset t.tls_ciphertext (ground arith)))
