-- ===== src/Stream/Compression.antt =====
-- The streams of CompressionContext (uWebSockets/src/StreamWebSocket.cpp): how they are made, reset
-- and restarted, over the operations of zlib.
pub mod Ready
pub mod Inflate
pub mod Deflate
pub mod Filled
use eiows.Common.{
  ℕ, Bool, true, false, not, ◌==◌, Option, none, some, if◌then◌else◌, List, [], ◌∷◌, Bytes,
}

-- What inflate and deflate answer: Z_OK, Z_BUF_ERROR, Z_STREAM_END, or any other code.
pub data ZlibStatus : Type 0 where
  z_ok z_buf_error z_stream_end z_failed : ZlibStatus

-- A call of inflate or deflate: the input that it has left, the output that it has written, and the
-- stream after it.
pub record ZlibCall (Stream : Type 0) : Type 0 where
  pub status : ZlibStatus
  pub rest : Bytes
  pub produced : Bytes
  pub stream : Stream

-- What is used of zlib. `none` is an answer other than Z_OK; inflateSetDictionary may change the
-- stream whatever it answers.
pub record Zlib (Stream : Type 0) : Type 0 where
  pub inflate_init : Option Stream
  pub inflate_reset : Stream → Option Stream
  pub get_dictionary : Stream → Option Bytes
  pub set_dictionary : Bytes → Stream → Bool × Stream
  pub deflate_init : (window_bits : ℕ) → Option Stream
  pub deflate_reset : Stream → Option Stream
  -- The input, and the room for output, of a call with Z_SYNC_FLUSH.
  pub inflate : Bytes → (room : ℕ) → Stream → ZlibCall Stream
  pub deflate : Bytes → (room : ℕ) → Stream → ZlibCall Stream

-- inflaterInitialized and deflaterInitialized are false where there is `none`; deflaterWindowBits
-- stands beside the deflater. The input still to be read is no part of a stream here.
pub record CompressionContext (Stream : Type 0) : Type 0 where
  pub inflater : Option Stream
  pub deflater : Option (Stream × ℕ)

module _ {Stream : Type 0} (zlib : Zlib Stream) where
  -- An inflater that was asked for, or `return false`.
  abbrev pub with_inflater :
      Option Stream → CompressionContext Stream → Bool × CompressionContext Stream
  with_inflater none c = (false, record c { inflater = none })
  with_inflater (some stream) c = (true, record c { inflater = some stream })

  pub ensure_inflater : CompressionContext Stream → Bool × CompressionContext Stream
  ensure_inflater c = elim c.inflater [
    | some stream ↦ (true, c)
    | none ↦ with_inflater zlib.inflate_init c
  ]

  abbrev with_deflater :
      ℕ → Option Stream → CompressionContext Stream → Bool × CompressionContext Stream
  with_deflater window_bits none c = (false, record c { deflater = none })
  with_deflater window_bits (some stream) c =
      (true, record c { deflater = some (stream, window_bits) })

  -- A deflater with another window is ended, and a new one made.
  pub ensure_deflater_of :
      ℕ → Option (Stream × ℕ) → CompressionContext Stream → Bool × CompressionContext Stream
  ensure_deflater_of window_bits none c =
      with_deflater window_bits (zlib.deflate_init window_bits) c
  ensure_deflater_of window_bits (some (stream, bits)) c =
      if bits == window_bits
      then (true, record c { deflater = some (stream, bits) })
      else with_deflater window_bits (zlib.deflate_init window_bits) c

  pub ensure_deflater : ℕ → CompressionContext Stream → Bool × CompressionContext Stream
  ensure_deflater window_bits c = ensure_deflater_of window_bits c.deflater c

  pub reset_inflater : CompressionContext Stream → Bool × CompressionContext Stream
  reset_inflater c = elim c.inflater [
    | none ↦ (true, c)
    | some stream ↦ with_inflater (zlib.inflate_reset stream) c
  ]

  pub reset_deflater : CompressionContext Stream → Bool × CompressionContext Stream
  reset_deflater c = elim c.deflater [
    | none ↦ (true, c)
    | some (stream, bits) ↦ with_deflater bits (zlib.deflate_reset stream) c
  ]

  -- The dictionary goes back into the stream that was reset, if there is any.
  pub restore_dictionary :
      Bytes → Stream → CompressionContext Stream → Bool × CompressionContext Stream
  restore_dictionary [] stream c = (true, record c { inflater = some stream })
  restore_dictionary (b ∷ dictionary) stream c =
      let (done, stream') = zlib.set_dictionary (b ∷ dictionary) stream in
      (done, record c { inflater = some stream' })

  pub restart_from :
      Bytes → Option Stream → CompressionContext Stream → Bool × CompressionContext Stream
  restart_from dictionary none c = (false, record c { inflater = none })
  restart_from dictionary (some stream) c = restore_dictionary dictionary stream c

  pub restart_with :
      Option Bytes → Stream → CompressionContext Stream → Bool × CompressionContext Stream
  restart_with none stream c = (false, c)
  restart_with (some dictionary) stream c = restart_from dictionary (zlib.inflate_reset stream) c

  pub restart_of : Option Stream → CompressionContext Stream → Bool × CompressionContext Stream
  restart_of none c = (false, c)
  restart_of (some stream) c = restart_with (zlib.get_dictionary stream) stream c

  pub restart_inflater : CompressionContext Stream → Bool × CompressionContext Stream
  restart_inflater c = restart_of c.inflater c
