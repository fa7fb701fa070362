-- ===== src/Examples/Sockets.antt =====
-- The theorems about the transport at a socket that takes four bytes at a time.
use eiows.Common.{
  ℕ, ◌≡◌, refl, inr, Bool, true, false, none, some, [], ◌∷◌, ◌++◌, take, drop, length, min,
  take-append-drop, arith, Bytes, ◌<◌,
}
use eiows.Examples.{stored, goodbye, ping_read, sample}
use eiows.Protocol.Ascii.{scalar}
use eiows.Stream.Api.{new_stream}
use eiows.Transport.Input.{poll, process_memory_bio}
use eiows.Transport.Ordered.{ClosingLaws, TcpLaws, Extends, total, IsConsistent, unchanged}
use eiows.Transport.Close.{close_now}
use eiows.Transport.Ordered.Closes.{IsClosed, close_now-IsClosed}
use eiows.Transport.Ordered.Coalesced.{IsKeptWhole, prepare-IsWhole, coalesce_prefix-IsWhole}
use eiows.Transport.Ordered.Rounds.{flush_loop-rounds}
use eiows.Transport.Ordered.Polls.{poll-Extends}
use eiows.Transport.Ordered.Submitted.{Accepts, submit-Accepts}
use eiows.Transport.Ordered.Watches.{IsKept, submit-IsKept}
use eiows.Transport.Output.{
  flush_memory_bio_output, flush_ciphertext, advance_ciphertext, drain, drain_round, read_batch,
  sent_batch, write_tls,
}
use eiows.Transport.Output.Kept.{TlsLaws}
use eiows.Transport.Output.Plaintext.{IsStaged, WritesTls, write_tls-WritesTls}
use eiows.Transport.Output.Drains.{BioLaws, IsDrained, flush_memory_bio_output-IsDrained}
use eiows.Transport.Submit.{submit, submit_behind, defer, flush_loop}
use eiows.Transport.TlsContexts.{
  TlsContexts, no_hook, multiplexed, callback, retain_tls_callbacks, release_tls_callbacks,
  release-retain_tls_callbacks,
}
use eiows.Transport.System.{
  System, Transport, uv_ecanceled, sent, received, ssl_read_blocked, ssl_accepted,
  write_asynchronous,
}
use eiows.Transport.WriteRequest.{
  WriteRequest, new_request, remaining, remaining_bytes, prepare, total_bytes, skip_empty_parts,
  flatten, coalesce_prefix,
}

-- The bytes on the socket, those that OpenSSL has ready for it, and the plaintext it has taken.
record Wire : Type 0 where
  out : Bytes
  held : Bytes
  taken : Bytes

-- Each send takes four bytes at most, each recv brings a Ping; JavaScript does nothing.
abbrev four_bytes : System Wire ℕ
four_bytes = record {
  call = λ c t. (true, t);
  send = λ bytes w.
      (sent (min 4 (length bytes)), record w { out = w.out ++ take (min 4 (length bytes)) bytes });
  recv = λ w. (received ping_read, w);
  ssl_write = λ bytes w. (
    ssl_accepted (min 3 (length bytes)),
    record w {
      held = w.held ++ take (min 3 (length bytes)) bytes;
      taken = w.taken ++ take (min 3 (length bytes)) bytes;
    },
  );
  ssl_read = λ w. (ssl_read_blocked, w);
  ssl_has_input = λ w. false;
  ssl_has_bios = λ w. true;
  bio_write = λ bytes w. (length bytes, w);
  bio_pending = λ w. length w.held;
  bio_read = λ size w. (take size w.held, record w { held = drop size w.held });
  ssl_shutdown = λ w. (true, w);
  poll_init = λ w. (none, w);
  poll_start = λ events w. (none, w);
  retain_callback = λ id w. (true, w);
  allocate = λ w. (7, w);
  max_iovectors = 2;
}

four_bytes-ClosingLaws : ClosingLaws four_bytes
four_bytes-ClosingLaws = record { call-closing = λ c t e. e; call-queue = λ c t e. refl }

four_bytes-TcpLaws : TcpLaws (λ (w : Wire). w.out) four_bytes
four_bytes-TcpLaws = record {
  closing_laws = four_bytes-ClosingLaws;
  call-Extends = λ c t h. unchanged (λ (w : Wire). w.out) t t h refl refl refl refl refl;
  send_law = λ bytes w. (omega arith, refl);
  retain-output = λ id w. refl;
  poll-output = λ events w. refl;
  allocate-output = λ w. refl;
  recv-output = λ w. refl;
  init-output = λ w. refl;
}

four_bytes-BioLaws : BioLaws four_bytes (λ (w : Wire). w.out) (λ (w : Wire). w.held)
four_bytes-BioLaws = record {
  pending_law = λ w. refl;
  read_law = λ size w. take-append-drop size w.held;
  read-output = λ size w. refl;
  send-held = λ bytes w. refl;
  send-output = λ bytes w. (omega arith, refl);
}

-- A transport with one write in its queue, of which a byte was sent.
abbrev waiting : WriteRequest
waiting = record (new_request 3 ((104 ∷ 105 ∷ []) ∷ []) none) {
  cursor_offset = 1;
  bytes = 2;
  sent = 1;
  deferred = true;
}

abbrev transport : Transport Wire ℕ
transport = record {
  world = record { out = 1 ∷ []; held = []; taken = [] };
  session = some (new_stream stored scalar 1 15 100 none);
  encrypted = false;
  descriptor = true;
  max_backpressure = 64;
  queue = waiting ∷ [];
  pending_bytes = 1;
  poll_events = 1;
  tls_ciphertext = [];
  tls_ciphertext_offset = 0;
  tls_committed_plaintext = 0;
  pending_close_reason = [];
  pending_close_code = 0;
  valid = true;
  active = true;
  poll_initialized = true;
  poll_closed = false;
  poll_closing = false;
  inside_close_callback = false;
  closing = false;
  destroy_requested = false;
  deleted = false;
  flushing_writes = false;
  reporting_error = false;
  pending_close = false;
  graceful_close_requested = false;
  tls_write_blocked_on_read = false;
  tls_shutdown_pending = false;
  tls_shutdown_generated = false;
  tls_processing_input = false;
  tls_callbacks_retained = false;
  environment_cleaning = false;
}

counted_waiting : length (remaining waiting) ≡ remaining_bytes waiting
unfolding remaining_bytes
counted_waiting = refl

pending_waiting : 1 ≡ total (waiting ∷ [])
unfolding remaining_bytes
pending_waiting = refl

transport-IsConsistent : IsConsistent (λ (w : Wire). w.out) transport
transport-IsConsistent = inr (record {
  plain = refl;
  requests = (record { cursor = omega arith; counted = counted_waiting }, tt);
  pending = pending_waiting;
})

abbrev process : Transport Wire ℕ → Bool × Transport Wire ℕ
process t = process_memory_bio four_bytes stored scalar 8 t

submit-Accepts_example :
    Accepts four_bytes
      (λ (w : Wire). w.out)
      four_bytes-TcpLaws
      8
      process
      (sample ∷ goodbye ∷ [])
      transport
      (submit four_bytes 8 process (new_request 5 (sample ∷ goodbye ∷ []) (some 2)) transport)
submit-Accepts_example =
    submit-Accepts four_bytes (λ (w : Wire). w.out) four_bytes-TcpLaws 8 process 5
      (sample ∷ goodbye ∷ []) (some 2) transport transport-IsConsistent

poll-Extends_example :
    Extends
      (λ (w : Wire). w.out)
      transport
      (poll four_bytes stored scalar 8 none true true transport)
poll-Extends_example =
    poll-Extends four_bytes (λ (w : Wire). w.out) four_bytes-TcpLaws stored scalar 8 none true true
      transport transport-IsConsistent

close_now-IsClosed_example :
    (transport.closing ≡ false → IsClosed (close_now four_bytes uv_ecanceled transport))
    × (transport.closing ≡ true → close_now four_bytes uv_ecanceled transport ≡ transport)
close_now-IsClosed_example =
    close_now-IsClosed four_bytes four_bytes-ClosingLaws uv_ecanceled transport

abbrev closing_transport : Transport Wire ℕ
closing_transport = record transport { closing = true }

-- The same transport with TLS, with output in its buffer and in the BIO.
abbrev encrypted_transport : Transport Wire ℕ
encrypted_transport = record transport {
  encrypted = true;
  tls_ciphertext = 21 ∷ 22 ∷ 23 ∷ [];
  tls_ciphertext_offset = 1;
  world = record { out = 1 ∷ []; held = sample ++ goodbye; taken = [] };
}

flushes : (flush_memory_bio_output four_bytes encrypted_transport).0 ≡ true
unfolding flush_memory_bio_output flush_ciphertext advance_ciphertext drain drain_round read_batch
    sent_batch
flushes = refl

flush_memory_bio_output-IsDrained_example :
    IsDrained four_bytes
      (λ (w : Wire). w.out)
      (λ (w : Wire). w.held)
      four_bytes-BioLaws
      encrypted_transport
      (flush_memory_bio_output four_bytes encrypted_transport).1
flush_memory_bio_output-IsDrained_example =
    flush_memory_bio_output-IsDrained four_bytes (λ (w : Wire). w.out) (λ (w : Wire). w.held)
      four_bytes-BioLaws encrypted_transport flushes

waits :
    (submit four_bytes 8 process (new_request 5 (sample ∷ []) (some 2)) transport).0
    ≡ write_asynchronous
unfolding submit submit_behind prepare total_bytes skip_empty_parts defer
waits = refl

submit-IsKept_example :
    IsKept four_bytes four_bytes-ClosingLaws
      (submit four_bytes 8 process (new_request 5 (sample ∷ []) (some 2)) transport).1
submit-IsKept_example =
    submit-IsKept four_bytes four_bytes-ClosingLaws 8 process (new_request 5 (sample ∷ []) (some 2))
      transport waits

few : total (waiting ∷ []) < 2
unfolding remaining_bytes
few = omega arith

many : total (waiting ∷ []) < 50
unfolding remaining_bytes
many = omega arith

flush_loop-rounds_example : flush_loop four_bytes 2 transport ≡ flush_loop four_bytes 50 transport
flush_loop-rounds_example =
    flush_loop-rounds four_bytes (λ (w : Wire). w.out) four_bytes-TcpLaws (λ id t. inr refl) 2 50
      transport transport-IsConsistent few many

abbrev two_parts : WriteRequest
two_parts = new_request 5 (sample ∷ goodbye ∷ []) none

coalesce_prefix-IsWhole_example :
    IsKeptWhole (sample ++ goodbye) (flatten (prepare two_parts).1)
    × IsKeptWhole (sample ++ goodbye) (coalesce_prefix 2 (prepare two_parts).1)
coalesce_prefix-IsWhole_example =
    coalesce_prefix-IsWhole (sample ++ goodbye) 2 (prepare two_parts).1
      (prepare-IsWhole (sample ++ goodbye) two_parts refl refl (λ e. omega (arith, e))
        (omega arith)).1
      (omega arith)

four_bytes-TlsLaws : TlsLaws four_bytes (λ (w : Wire). w.taken)
four_bytes-TlsLaws = record {
  write_law = λ bytes w. (omega arith, refl);
  send-accepted = λ bytes w. refl;
  read-accepted = λ size w. refl;
}

waiting-IsStaged : IsStaged 0 waiting
unfolding remaining_bytes
waiting-IsStaged = record { cursor = omega arith; counted = refl }

write_tls-WritesTls_example :
    WritesTls four_bytes
      (λ (w : Wire). w.taken)
      four_bytes-TlsLaws
      waiting
      []
      encrypted_transport
      (write_tls four_bytes encrypted_transport)
write_tls-WritesTls_example =
    write_tls-WritesTls four_bytes (λ (w : Wire). w.taken) four_bytes-TlsLaws waiting []
      encrypted_transport refl waiting-IsStaged

-- Context 1 has an owner already, context 2 has none.
abbrev contexts : TlsContexts
contexts = record {
  table =
      (
        1,
        record {
          owners = 1;
          saved = record { new_session = callback 4; get_session = no_hook; keylog = callback 5 };
        },
      )
      ∷ [];
  hooks = λ c. record { new_session = multiplexed; get_session = no_hook; keylog = callback c };
}

release-retain_tls_callbacks_example :
    release_tls_callbacks 1 2 (retain_tls_callbacks 1 2 contexts) ≡ contexts
release-retain_tls_callbacks_example =
    release-retain_tls_callbacks 1 2 contexts (λ e. omega (arith, e), tt)
