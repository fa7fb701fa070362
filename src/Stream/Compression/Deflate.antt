-- ===== src/Stream/Compression/Deflate.antt =====
-- CompressionContext::deflateMessage of uWebSockets/src/StreamWebSocket.cpp.
pub mod Returns
use eiows.Common.{
  ℕ, zero, suc, ◌+◌, ◌-◌, Bool, true, false, not, ◌&&◌, ◌||◌, Option, none, some, List, [], ◌∷◌,
  ◌++◌, ltb, ◌==◌, if◌then◌else◌, Bytes, length, take, drop,
}
use mathlib.Core.Option
use eiows.Extensions.Negotiator.{same_bytes}
use eiows.Stream.Compression.{
  Zlib, ZlibStatus, ZlibCall, z_ok, z_buf_error, z_stream_end, z_failed, CompressionContext,
  ensure_deflater, reset_deflater,
}
use eiows.Stream.Compression.Inflate.{zlib_chunk_size, deflate_trailer, uint_limit}

abbrev pub is_ok : ZlibStatus → Bool
is_ok z_ok = true
is_ok _ = false

module _ {Stream : Type 0} (zlib : Zlib Stream) where
  -- The loop: all that deflate writes, or `none` in the middle for its failure, and the context. The
  -- outer `none` is a want of fuel.
  pub deflate_loop :
      ℕ
      → Bytes
      → Bytes
      → Stream
      → ℕ
      → CompressionContext Stream
      → Option (Option Bytes × CompressionContext Stream)
  deflate_loop zero input output stream bits c = none
  deflate_loop (suc fuel) input output stream bits c =
      let call = zlib.deflate input zlib_chunk_size stream in
      let c' : CompressionContext Stream = record c { deflater = some (call.stream, bits) } in
      let more = deflate_loop fuel call.rest (output ++ call.produced) call.stream bits c' in
      if not (is_ok call.status)
      then some (none, (reset_deflater zlib c').1)
      else if length call.produced == zlib_chunk_size
      then more
      else some (some (output ++ call.produced), c')

  -- The trailer must be there; it is cut off.
  pub cut_trailer :
      Bool → Option Bytes × CompressionContext Stream → Option Bytes × CompressionContext Stream
  cut_trailer reset (none, c) = (none, c)
  cut_trailer reset (some output, c) =
      let size = length output - length deflate_trailer in
      let (was_reset, c') = reset_deflater zlib c in
      if ltb (length output) (length deflate_trailer)
        || not (same_bytes (drop size output) deflate_trailer)
      then (none, c')
      else if reset
      then (if was_reset then some (take size output) else none, c')
      else (some (take size output), c)

  -- ensureDeflater answers true only with a deflater in place.
  abbrev pub deflate_with :
      ℕ
      → Bytes
      → Option (Stream × ℕ)
      → CompressionContext Stream
      → Option (Option Bytes × CompressionContext Stream)
  deflate_with fuel bytes none c = some (none, c)
  deflate_with fuel bytes (some (stream, bits)) c =
      if ltb uint_limit (length bytes)
      then some (none, c)
      else deflate_loop fuel bytes [] stream bits c

  abbrev pub start_deflate :
      ℕ
      → Bytes
      → Bool × CompressionContext Stream
      → Option (Option Bytes × CompressionContext Stream)
  start_deflate fuel bytes (false, c) = some (none, c)
  start_deflate fuel bytes (true, c) = deflate_with fuel bytes c.deflater c

  -- `none` in the result's middle is deflateMessage's false.
  pub deflate_message :
      ℕ
      → Bytes
      → (window_bits : ℕ) → (reset : Bool) → CompressionContext Stream
      → Option (Option Bytes × CompressionContext Stream)
  deflate_message fuel bytes window_bits reset c =
      Option.map (cut_trailer reset) (start_deflate fuel bytes (ensure_deflater zlib window_bits c))
