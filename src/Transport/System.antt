-- ===== src/Transport/System.antt =====
-- The state of a NativeTransport (nodejs/src/native_transport.cpp), and what it calls: the socket,
-- the event loop, OpenSSL and JavaScript.
use eiows.Common.{ℕ, Bool, Option, List, Bytes}
use eiows.Stream.Api.{StreamWebSocket}
use eiows.Transport.WriteRequest.{WriteRequest}

-- The error codes of libuv that the code names.
pub data UvError : Type 0 where
  uv_ecanceled uv_enobufs uv_ebadf uv_einval uv_eio uv_eoverflow : UvError

-- The results of submit and of the write functions: WRITE_SYNCHRONOUS, WRITE_ASYNCHRONOUS,
-- WRITE_NOT_SENT, or an error below zero.
pub data WriteStatus : Type 0 where
  write_synchronous write_asynchronous write_not_sent : WriteStatus
  write_error : UvError → WriteStatus

-- What fail and reportTransportError report.
pub data TransportError : Type 0 where
  system_error : ℕ → TransportError
  write_failed : UvError → TransportError
  tls_input_failed tls_output_failed tls_read_failed : TransportError

-- A call into JavaScript. A write callback has its number and an error, if there was one.
pub data OwnerCall : Type 0 where
  on_message : Bytes → (op_code : ℕ) → OwnerCall
  on_close : ℕ → Bytes → OwnerCall
  on_error : TransportError → OwnerCall
  on_write : ℕ → Option UvError → OwnerCall
  on_backpressure on_closed : OwnerCall

-- What send, sendmsg and recv answer once they are not interrupted.
pub data Sent : Type 0 where
  sent : ℕ → Sent
  send_blocked : Sent
  send_failed : ℕ → Sent

pub data Received : Type 0 where
  received : Bytes → Received
  end_of_input recv_blocked : Received
  recv_failed : ℕ → Received

-- SSL_write_ex, SSL_read_ex and SSL_get_error behind them.
pub data SslWritten : Type 0 where
  ssl_accepted : ℕ → SslWritten
  ssl_wants_read ssl_wants_write ssl_write_failed : SslWritten

pub data SslRead : Type 0 where
  ssl_data : Bytes → SslRead
  ssl_read_blocked ssl_closed ssl_read_failed : SslRead

-- The fields of NativeTransport, but for the handles of other libraries: those are in `world`.
-- `queue` is the list from writeHead_ to writeTail_; `encrypted` tells that there is an ssl_, and with
-- it that tlsState_ is MEMORY_BIO; `descriptor` that descriptor_ is not negative.
pub record Transport (World Context : Type 0) : Type 0 where
  pub world : World
  pub session : Option (StreamWebSocket Context)
  pub encrypted : Bool
  pub descriptor : Bool
  pub max_backpressure : ℕ
  pub queue : List WriteRequest
  pub pending_bytes : ℕ
  pub poll_events : ℕ
  pub tls_ciphertext : Bytes
  pub tls_ciphertext_offset : ℕ
  pub tls_committed_plaintext : ℕ
  pub pending_close_reason : Bytes
  pub pending_close_code : ℕ
  pub valid : Bool
  pub active : Bool
  pub poll_initialized : Bool
  pub poll_closed : Bool
  pub poll_closing : Bool
  pub inside_close_callback : Bool
  pub closing : Bool
  pub destroy_requested : Bool
  pub deleted : Bool
  pub flushing_writes : Bool
  pub reporting_error : Bool
  pub pending_close : Bool
  pub graceful_close_requested : Bool
  pub tls_write_blocked_on_read : Bool
  pub tls_shutdown_pending : Bool
  pub tls_shutdown_generated : Bool
  pub tls_processing_input : Bool
  pub tls_callbacks_retained : Bool
  pub environment_cleaning : Bool

-- The code that the transport calls. `call` is JavaScript, which may call the transport's entry
-- points before it returns; its Boolean tells that it threw no error. `send` takes the bytes of the
-- message's vectors.
pub record System (World Context : Type 0) : Type 0 where
  pub call : OwnerCall → Transport World Context → Bool × Transport World Context
  pub send : Bytes → World → Sent × World
  pub recv : World → Received × World
  pub ssl_write : Bytes → World → SslWritten × World
  pub ssl_read : World → SslRead × World
  -- SSL_has_pending, or bytes in nodeReadBIO_
  pub ssl_has_input : World → Bool
  -- SSL_get_rbio and SSL_get_wbio give BIOs
  pub ssl_has_bios : World → Bool
  -- BIO_write to nodeReadBIO_, and how much of it was taken; zero is a failure.
  pub bio_write : Bytes → World → ℕ × World
  -- BIO_ctrl_pending and BIO_read of nodeWriteBIO_; no bytes are a failure. Before activate has taken
  -- the BIOs nothing is pending.
  pub bio_pending : World → ℕ
  pub bio_read : (size : ℕ) → World → Bytes × World
  -- SSL_shutdown, and that it made its alert or wants to
  pub ssl_shutdown : World → Bool × World
  pub poll_init : World → Option UvError × World
  pub poll_start : (events : ℕ) → World → Option ℕ × World
  -- napi_create_reference on a callback
  pub retain_callback : ℕ → World → Bool × World
  pub allocate : World → ℕ × World
  pub max_iovectors : ℕ
