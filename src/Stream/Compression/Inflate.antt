-- ===== src/Stream/Compression/Inflate.antt =====
-- CompressionContext::inflateMessage of uWebSockets/src/StreamWebSocket.cpp.
pub mod Rounds
pub mod Returns
use eiows.Common.{
  ℕ, zero, suc, ◌+◌, ◌-◌, ◌*◌, Bool, true, false, not, ◌&&◌, ◌||◌, Option, none, some, List, [],
  ◌∷◌, ◌++◌, ltb, ◌==◌, if◌then◌else◌, Bytes, length,
}
use mathlib.Core.Option
use eiows.Protocol.Frame.{nonzero}
use eiows.Stream.Compression.{
  Zlib, ZlibStatus, ZlibCall, z_ok, z_buf_error, z_stream_end, z_failed, CompressionContext,
  ensure_inflater, reset_inflater, restart_inflater,
}
use eiows.Stream.Session.{InflateResult, success, invalid_data, payload_too_large, internal_error}

abbrev pub zlib_chunk_size : ℕ
zlib_chunk_size = 32 * 1024

-- DEFLATE_TRAILER
abbrev pub deflate_trailer : Bytes
deflate_trailer = 0 ∷ 0 ∷ 0xff ∷ 0xff ∷ []

-- numeric_limits<uInt>::max()
abbrev pub uint_limit : ℕ
uint_limit = 0xffff_ffff

-- A round of the loop goes on with the input that is left and the output so far, or the function
-- returns; `done` is the break.
pub data Round (Stream : Type 0) : Type 0 where
  next : Bytes → Bytes → Stream → CompressionContext Stream → Round Stream
  done : Bytes → CompressionContext Stream → Round Stream
  refused : InflateResult → Bytes → CompressionContext Stream → Round Stream

module _ {Stream : Type 0} (zlib : Zlib Stream) where
  -- resetInflater(); return result;
  abbrev pub give_up : InflateResult → Bytes → CompressionContext Stream → Round Stream
  give_up result output c = refused result output (reset_inflater zlib c).1

  abbrev pub go_on : Bytes → Bytes → Option Stream → CompressionContext Stream → Round Stream
  go_on rest output none c = give_up internal_error output c
  go_on rest output (some stream) c = next rest output stream c

  -- After restartInflater, which answers true only with an inflater in place.
  pub after_restart : Bytes → Bytes → Bool × CompressionContext Stream → Round Stream
  after_restart rest output (false, c) = give_up internal_error output c
  after_restart rest output (true, c) = go_on rest output c.inflater c

  -- The tests behind a call that neither failed nor ended the stream; `input` is what the call was
  -- given, and `output` has what it wrote.
  pub went_on : Bytes → Bytes → ZlibCall Stream → CompressionContext Stream → Round Stream
  went_on input output call c =
      if length call.rest == 0 && ltb (length call.produced) zlib_chunk_size
      then done output c
      else if length input == length call.rest && length call.produced == 0
      then give_up invalid_data output c
      else next call.rest output call.stream c

  -- What follows the call, by its result.
  pub after_call :
      ZlibStatus → Bytes → Bytes → ZlibCall Stream → CompressionContext Stream → Round Stream
  after_call z_failed input output call c = give_up invalid_data output c
  after_call z_stream_end input output call c =
      after_restart call.rest output (restart_inflater zlib c)
  after_call z_ok input output call c = went_on input output call c
  after_call z_buf_error input output call c = went_on input output call c

  pub inflate_round :
      (limit : ℕ) → Bytes → Bytes → Stream → CompressionContext Stream → Round Stream
  inflate_round limit input output stream c =
      let call = zlib.inflate input zlib_chunk_size stream in
      let c' : CompressionContext Stream = record c { inflater = some call.stream } in
      if nonzero (length call.produced)
        && nonzero limit
        && ltb limit (length output + length call.produced)
      then give_up payload_too_large output c'
      else after_call call.status input (output ++ call.produced) call c'

  -- The loop; `none` is a want of fuel.
  pub inflate_loop :
      ℕ
      → (limit : ℕ) → Bytes
      → Bytes
      → Stream
      → CompressionContext Stream
      → Option (InflateResult × Bytes × CompressionContext Stream)
  inflate_loop zero limit input output stream c = none
  inflate_loop (suc fuel) limit input output stream c =
      elim (inflate_round limit input output stream c) [
        | next rest output' stream' c' ↦ inflate_loop fuel limit rest output' stream' c'
        | done output' c' ↦ some (success, output', c')
        | refused result output' c' ↦ some (result, output', c')
      ]

  -- if (resetAfter && !resetInflater()) return INTERNAL_ERROR;
  pub reset_after :
      Bool
      → InflateResult × Bytes × CompressionContext Stream
      → InflateResult × Bytes × CompressionContext Stream
  reset_after true (success, output, c) =
      let (reset, c') = reset_inflater zlib c in
      (if reset then success else internal_error, output, c')
  reset_after _ r = r

  -- ensureInflater answers true only with an inflater in place.
  abbrev pub inflate_with :
      ℕ
      → (limit : ℕ) → Bytes
      → Option Stream
      → CompressionContext Stream
      → Option (InflateResult × Bytes × CompressionContext Stream)
  inflate_with fuel limit bytes none c = some (internal_error, [], c)
  inflate_with fuel limit bytes (some stream) c =
      if ltb (uint_limit - length deflate_trailer) (length bytes)
      then some (internal_error, [], c)
      else inflate_loop fuel limit (bytes ++ deflate_trailer) [] stream c

  abbrev pub start_inflate :
      ℕ
      → (limit : ℕ) → Bytes
      → Bool × CompressionContext Stream
      → Option (InflateResult × Bytes × CompressionContext Stream)
  start_inflate fuel limit bytes (false, c) = some (internal_error, [], c)
  start_inflate fuel limit bytes (true, c) = inflate_with fuel limit bytes c.inflater c

  pub inflate_message :
      ℕ
      → Bytes
      → (limit : ℕ) → (reset : Bool) → CompressionContext Stream
      → Option (InflateResult × Bytes × CompressionContext Stream)
  inflate_message fuel bytes limit reset c =
      Option.map (reset_after reset) (start_inflate fuel limit bytes (ensure_inflater zlib c))
