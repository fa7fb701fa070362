-- ===== src/Transport/Output/Kept.antt =====
-- What OpenSSL is taken to do with plaintext, and what flushMemoryBIOOutput of
-- nodejs/src/native_transport.cpp leaves as it is.
use eiows.Common.{
  ℕ, zero, suc, ◌+◌, ◌-◌, min, ◌≤◌, ◌≡◌, refl, ◌∙◌, Bool, true, false, not, Option, none, some, [],
  ◌++◌, ltb, ◌==◌, if_intro, Bytes, length, take, drop,
}
use eiows.Transport.Output.{
  Draining, returns, goes_on, advance_ciphertext, flush_ciphertext, stop_if_blocked, read_batch,
  sent_batch, send_batch, drain_round, drain, drain_all, go_on, flush_memory_bio_output,
  tls_output_batch_size,
}
use eiows.Transport.System.{
  System, Transport, Sent, sent, send_blocked, send_failed, SslWritten, ssl_accepted,
  ssl_wants_read, ssl_wants_write, ssl_write_failed,
}

module _ {World : Type 0} (accepted : World → Bytes) where
  abbrev pub WriteLaw : Bytes → World → SslWritten × World → Type 0
  WriteLaw bytes world (ssl_accepted n, world') =
      (n ≤ length bytes) × (accepted world' ≡ accepted world ++ take n bytes)
  WriteLaw bytes world (ssl_wants_read, world') = accepted world' ≡ accepted world
  WriteLaw bytes world (ssl_wants_write, world') = accepted world' ≡ accepted world
  WriteLaw bytes world (ssl_write_failed, world') = accepted world' ≡ accepted world

-- `accepted` is the plaintext that OpenSSL has taken.
pub record TlsLaws {World Context : Type 0} (system : System World Context)
    (accepted : World → Bytes) : Type 0 where
  pub write_law :
      (bytes : Bytes) (world : World) → WriteLaw accepted bytes world (system.ssl_write bytes world)
  pub send-accepted :
      (bytes : Bytes) (world : World) → accepted (system.send bytes world).1 ≡ accepted world
  pub read-accepted :
      (size : ℕ) (world : World) → accepted (system.bio_read size world).1 ≡ accepted world

module _ {World Context : Type 0} (system : System World Context) (accepted : World → Bytes)
    (laws : TlsLaws system accepted) where
  -- What the flush of TLS output leaves as it is.
  pub record IsKept (t t' : Transport World Context) : Type 0 where
    pub same_queue : t'.queue ≡ t.queue
    pub same_committed : t'.tls_committed_plaintext ≡ t.tls_committed_plaintext
    pub same_accepted : accepted t'.world ≡ accepted t.world

  IsKept-step : (t t' t'' : Transport World Context) → IsKept t t' → IsKept t' t'' → IsKept t t''
  IsKept-step t t' t'' k l = record {
    same_queue = l.same_queue ∙ k.same_queue;
    same_committed = l.same_committed ∙ k.same_committed;
    same_accepted = l.same_accepted ∙ k.same_accepted;
  }

  same_world :
      (t t' : Transport World Context)
      → t'.queue ≡ t.queue
      → t'.tls_committed_plaintext ≡ t.tls_committed_plaintext
      → accepted t'.world ≡ accepted t.world
      → IsKept t t'
  same_world t t' q c a = record { same_queue = q; same_committed = c; same_accepted = a }

  abbrev IsRound : Transport World Context → Draining system → Type 0
  IsRound t (returns true t') = IsKept t t'
  IsRound t (returns false t') = Unit
  IsRound t (goes_on t') = IsKept t t'

  read_batch-accepted :
      (fuel size : ℕ) (batch : Bytes) (world : World)
      → accepted (read_batch system fuel size batch world).1 ≡ accepted world
  unfolding read_batch
  read_batch-accepted zero size batch world = refl
  read_batch-accepted (suc fuel) size batch world =
      let goal = λ (r : Option Bytes × World). accepted r.1 ≡ accepted world in
      let (bytes, world') = system.bio_read (size - length batch) world in
      let more = read_batch system fuel size (batch ++ bytes) world' in
      if_intro goal (not (ltb (length batch) size)) (some batch, world) _ (λ _. refl)
        (λ _.
          if_intro goal (length bytes == 0) (none, world') more
            (λ _. laws.read-accepted (size - length batch) world)
            (λ _.
              read_batch-accepted fuel size (batch ++ bytes) world'
              ∙ laws.read-accepted (size - length batch) world))

  sent_batch-IsRound :
      (batch : Bytes) (t : Transport World Context) (answer : Sent × World)
      → accepted answer.1 ≡ accepted t.world
      → IsRound t (sent_batch system batch answer.0 (record t { world = answer.1 }))
  unfolding sent_batch
  sent_batch-IsRound batch t (sent n, world) e =
      let t' : Transport World Context = record t { world = world } in
      if_intro (IsRound t) (n == length batch) (goes_on t')
        (returns true (record t' { tls_ciphertext = drop n batch; tls_ciphertext_offset = 0 }))
        (λ _. same_world t t' refl refl e) (λ _. same_world t _ refl refl e)
  sent_batch-IsRound batch t (send_blocked, world) e = same_world t _ refl refl e
  sent_batch-IsRound batch t (send_failed errno, world) e = tt

  send_batch-IsRound :
      (t : Transport World Context) (result : Option Bytes × World)
      → accepted result.1 ≡ accepted t.world
      → IsRound t (send_batch system result t)
  send_batch-IsRound t (none, world) e = tt
  send_batch-IsRound t (some batch, world) e =
      sent_batch-IsRound batch t (system.send batch world) (laws.send-accepted batch world ∙ e)

  drain_round-IsRound : (t : Transport World Context) → IsRound t (drain_round system t)
  unfolding drain_round
  drain_round-IsRound t =
      let size = min (system.bio_pending t.world) tls_output_batch_size in
      let result = read_batch system size size [] t.world in
      if_intro (IsRound t) (system.bio_pending t.world == 0) (returns true t)
        (send_batch system result t) (λ _. same_world t t refl refl refl)
        (λ _. send_batch-IsRound t result (read_batch-accepted size size [] t.world))

  go_on-IsKept :
      (next : Transport World Context → Bool × Transport World Context)
      (t : Transport World Context)
      → ((t' : Transport World Context) → (next t').0 ≡ true → IsKept t' (next t').1)
      → (round : Draining system) → IsRound t round
      → (go_on system next round).0 ≡ true
      → IsKept t (go_on system next round).1
  go_on-IsKept next t ih (returns true t') k e = k
  go_on-IsKept next t ih (returns false t') k e = absurd (cc e)
  go_on-IsKept next t ih (goes_on t') k e = IsKept-step t t' (next t').1 k (ih t' e)

  drain-IsKept :
      (fuel : ℕ) (t : Transport World Context)
      → (drain system fuel t).0 ≡ true
      → IsKept t (drain system fuel t).1
  unfolding drain
  drain-IsKept zero t e = same_world t t refl refl refl
  drain-IsKept (suc fuel) t e =
      go_on-IsKept (drain system fuel) t (drain-IsKept fuel) (drain_round system t)
        (drain_round-IsRound t) e

  advance_ciphertext-IsKept :
      (n : ℕ) (t : Transport World Context) → IsKept t (advance_ciphertext system n t)
  unfolding advance_ciphertext
  advance_ciphertext-IsKept n t =
      if_intro (IsKept t) (n == 0) t _ (λ _. same_world t t refl refl refl)
        (λ _.
          if_intro (IsKept t) (t.tls_ciphertext_offset + n == length t.tls_ciphertext)
            (record t { tls_ciphertext = []; tls_ciphertext_offset = 0 })
            (record t { tls_ciphertext_offset = t.tls_ciphertext_offset + n })
            (λ _. same_world t _ refl refl refl) (λ _. same_world t _ refl refl refl))

  stop_if_blocked-IsRound :
      (t t' : Transport World Context) → IsKept t t' → IsRound t (stop_if_blocked system t')
  stop_if_blocked-IsRound t t' k =
      if_intro (IsRound t) (ltb t'.tls_ciphertext_offset (length t'.tls_ciphertext))
        (returns true t') (goes_on t') (λ _. k) (λ _. k)

  flush_ciphertext-IsRound :
      (t : Transport World Context) (answer : Sent × World)
      → accepted answer.1 ≡ accepted t.world
      → IsRound t (flush_ciphertext system answer.0 (record t { world = answer.1 }))
  unfolding flush_ciphertext
  flush_ciphertext-IsRound t (sent n, world) e =
      let t' : Transport World Context = record t { world = world } in
      let t'' = advance_ciphertext system n t' in
      stop_if_blocked-IsRound t t''
        (IsKept-step t t' t'' (same_world t t' refl refl e) (advance_ciphertext-IsKept n t'))
  flush_ciphertext-IsRound t (send_blocked, world) e =
      stop_if_blocked-IsRound t (record t { world = world }) (same_world t _ refl refl e)
  flush_ciphertext-IsRound t (send_failed errno, world) e = tt

  pub flush-IsKept :
      (t : Transport World Context)
      → (flush_memory_bio_output system t).0 ≡ true
      → IsKept t (flush_memory_bio_output system t).1
  unfolding flush_memory_bio_output
  flush-IsKept t =
      let left = drop t.tls_ciphertext_offset t.tls_ciphertext in
      let answer = system.send left t.world in
      let start = flush_ciphertext system answer.0 (record t { world = answer.1 }) in
      if_intro (λ (r : Bool × Transport World Context). r.0 ≡ true → IsKept t r.1)
        (ltb t.tls_ciphertext_offset (length t.tls_ciphertext))
        (go_on system (drain_all system) start) (drain_all system t)
        (λ _.
          go_on-IsKept (drain_all system) t
            (λ t' e. drain-IsKept (suc (system.bio_pending t'.world)) t' e) start
            (flush_ciphertext-IsRound t answer (laws.send-accepted left t.world)))
        (λ _. drain-IsKept (suc (system.bio_pending t.world)) t)
