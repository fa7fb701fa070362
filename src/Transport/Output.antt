-- ===== src/Transport/Output.antt =====
-- How a transport writes to its socket: flushMemoryBIOOutput, hasTLSOutput, writeTCP and writeTLS of
-- nodejs/src/native_transport.cpp.
pub mod Drains
pub mod Kept
pub mod Plaintext
use eiows.Common.{
  ℕ, zero, suc, ◌+◌, ◌-◌, ◌*◌, min, Bool, true, false, not, ◌&&◌, ◌||◌, Option, none, some, List,
  [], ◌∷◌, ◌++◌, ltb, ◌==◌, if◌then◌else◌, Bytes, length, drop,
}
use eiows.Protocol.Frame.{nonzero}
use eiows.Transport.Close.{fail}
use eiows.Transport.System.{
  System, Transport, Sent, sent, send_blocked, send_failed, SslWritten, ssl_accepted,
  ssl_wants_read, ssl_wants_write, ssl_write_failed, system_error, tls_output_failed,
}
use eiows.Transport.WriteRequest.{
  WriteRequest, remaining_iovecs, remaining_data, remaining_part_bytes, stage_tls, unstaged_bytes,
}

abbrev pub tls_output_batch_size : ℕ
tls_output_batch_size = 64 * 1024

abbrev pub tls_plaintext_batch_size : ℕ
tls_plaintext_batch_size = 60 * 1024

-- EIO
abbrev pub eio : ℕ
eio = 5

-- What writeTCP and writeTLS answer: how much was written, which may be nothing, or errno.
pub data Attempt : Type 0 where
  wrote : ℕ → Attempt
  broken : ℕ → Attempt

-- The request at the head of the queue, changed.
abbrev pub on_head :
    {World Context : Type 0}
    → (WriteRequest → WriteRequest)
    → Transport World Context
    → Transport World Context
on_head f t = elim t.queue [ [] ↦ t | r ∷ rest ↦ record t { queue = f r ∷ rest } ]

module _ {World Context : Type 0} (system : System World Context) where
  pub has_tls_output : Transport World Context → Bool
  has_tls_output t =
      ltb t.tls_ciphertext_offset (length t.tls_ciphertext)
      || t.encrypted && nonzero (system.bio_pending t.world)

  -- A part of flushMemoryBIOOutput returns, or what follows it goes on.
  pub data Draining : Type 0 where
    returns : Bool → Transport World Context → Draining
    goes_on : Transport World Context → Draining

  -- tlsCiphertextOffset_ += written, and the empty string once all is written.
  unfoldable pub advance_ciphertext : ℕ → Transport World Context → Transport World Context
  advance_ciphertext n t =
      if n == 0
      then t
      else if t.tls_ciphertext_offset + n == length t.tls_ciphertext
      then record t { tls_ciphertext = []; tls_ciphertext_offset = 0 }
      else record t { tls_ciphertext_offset = t.tls_ciphertext_offset + n }

  abbrev pub stop_if_blocked : Transport World Context → Draining
  stop_if_blocked t =
      if ltb t.tls_ciphertext_offset (length t.tls_ciphertext) then returns true t else goes_on t

  -- The ciphertext that an earlier call has left.
  unfoldable pub flush_ciphertext : Sent → Transport World Context → Draining
  flush_ciphertext (sent n) t = stop_if_blocked (advance_ciphertext n t)
  flush_ciphertext send_blocked t = stop_if_blocked t
  flush_ciphertext (send_failed errno) t = returns false (fail system (system_error errno) t)

  -- The inner loop: `size` bytes from nodeWriteBIO_. A read takes one byte at least.
  unfoldable pub read_batch : ℕ → (size : ℕ) → Bytes → World → Option Bytes × World
  read_batch zero size batch world = (some batch, world)
  read_batch (suc fuel) size batch world =
      let (bytes, world') = system.bio_read (size - length batch) world in
      let more = read_batch fuel size (batch ++ bytes) world' in
      if not (ltb (length batch) size)
      then (some batch, world)
      else if length bytes == 0
      then (none, world')
      else more

  -- After a batch was handed to send; what it did not take is kept.
  unfoldable pub sent_batch : Bytes → Sent → Transport World Context → Draining
  sent_batch batch (sent n) t =
      if n == length batch
      then goes_on t
      else returns true (record t { tls_ciphertext = drop n batch; tls_ciphertext_offset = 0 })
  sent_batch batch send_blocked t =
      returns true (record t { tls_ciphertext = batch; tls_ciphertext_offset = 0 })
  sent_batch batch (send_failed errno) t = returns false (fail system (system_error errno) t)

  abbrev pub send_batch : Option Bytes × World → Transport World Context → Draining
  send_batch (none, world) t =
      returns false (fail system tls_output_failed (record t { world = world }))
  send_batch (some batch, world) t =
      let (result, world') = system.send batch world in
      sent_batch batch result (record t { world = world' })

  -- One round of the loop over the output that OpenSSL has pending.
  unfoldable pub drain_round : Transport World Context → Draining
  drain_round t =
      let size = min (system.bio_pending t.world) tls_output_batch_size in
      if system.bio_pending t.world == 0
      then returns true t
      else send_batch (read_batch size size [] t.world) t

  abbrev pub go_on :
      (Transport World Context → Bool × Transport World Context)
      → Draining
      → Bool × Transport World Context
  go_on next (returns result t) = (result, t)
  go_on next (goes_on t) = next t

  -- The loop: a round that goes on has taken a byte at least from what is pending.
  unfoldable pub drain : ℕ → Transport World Context → Bool × Transport World Context
  drain zero t = (true, t)
  drain (suc fuel) t = go_on (drain fuel) (drain_round t)

  abbrev pub drain_all : Transport World Context → Bool × Transport World Context
  drain_all t = drain (suc (system.bio_pending t.world)) t

  unfoldable pub flush_memory_bio_output : Transport World Context → Bool × Transport World Context
  flush_memory_bio_output t =
      let (result, world) = system.send (drop t.tls_ciphertext_offset t.tls_ciphertext) t.world in
      if ltb t.tls_ciphertext_offset (length t.tls_ciphertext)
      then go_on drain_all (flush_ciphertext result (record t { world = world }))
      else drain_all t

  abbrev pub tcp_attempt : Sent → Attempt
  tcp_attempt (sent n) = wrote n
  tcp_attempt send_blocked = wrote 0
  tcp_attempt (send_failed errno) = broken errno

  unfoldable pub write_tcp :
      WriteRequest → Transport World Context → Attempt × Transport World Context
  write_tcp r t =
      let (result, world) = system.send (remaining_iovecs system.max_iovectors r) t.world in
      (tcp_attempt result, record t { world = world })

  -- The end of writeTLS: the plaintext counts as written once its ciphertext is on the socket. The
  -- errno of a failed flush is not looked at, since the transport is closing then.
  unfoldable pub commit_plaintext :
      Bool × Transport World Context → Attempt × Transport World Context
  commit_plaintext (false, t) = (broken eio, t)
  commit_plaintext (true, t) =
      if t.tls_committed_plaintext == 0
      then (wrote 0, t)
      else if has_tls_output t
      then (wrote 0, t)
      else (wrote t.tls_committed_plaintext, record t { tls_committed_plaintext = 0 })

  -- OpenSSL has taken `n` bytes of the request at the head of the queue.
  unfoldable pub staged : ℕ → Transport World Context → Transport World Context
  staged n t = on_head (stage_tls n) (record t {
    tls_write_blocked_on_read = false;
    tls_committed_plaintext = t.tls_committed_plaintext + n;
  })

  -- SSL_write_ex has answered; `next` is the loop behind some bytes that it took.
  unfoldable pub answered :
      (ℕ → Transport World Context → Bool × Transport World Context)
      → SslWritten
      → Transport World Context
      → Bool × Transport World Context
  answered next (ssl_accepted zero) t = (false, t)
  answered next (ssl_accepted (suc n)) t = next (suc n) (staged (suc n) t)
  answered next ssl_wants_read t = (true, record t { tls_write_blocked_on_read = true })
  answered next ssl_wants_write t = (true, record t { tls_write_blocked_on_read = false })
  answered next ssl_write_failed t = (false, t)

  -- The loop that hands plaintext to OpenSSL; false is its `return -1`. A round that goes on has
  -- written a byte at least, so it takes no more rounds than `room` has bytes.
  unfoldable pub stage_plaintext :
      ℕ → (room : ℕ) → Transport World Context → Bool × Transport World Context
  stage_plaintext zero room t = (true, t)
  stage_plaintext (suc fuel) room t = elim t.queue [
    | [] ↦ (true, t)
    | r ∷ rest ↦
        let (result, world) =
          system.ssl_write (remaining_data (min (remaining_part_bytes r) room) r) t.world in
        if nonzero (unstaged_bytes t.tls_committed_plaintext r) && nonzero room
        then answered (λ n. stage_plaintext fuel (room - n)) result (record t { world = world })
        else (true, t)
  ]

  abbrev pub stage_then_flush : Bool × Transport World Context → Attempt × Transport World Context
  stage_then_flush (false, t) = (broken eio, t)
  stage_then_flush (true, t) = commit_plaintext (flush_memory_bio_output t)

  -- writeTLS of the request at the head of the queue.
  unfoldable pub write_tls : Transport World Context → Attempt × Transport World Context
  write_tls t =
      if nonzero t.tls_committed_plaintext
      then commit_plaintext (flush_memory_bio_output t)
      else stage_then_flush (stage_plaintext tls_plaintext_batch_size tls_plaintext_batch_size t)
