-- ===== src/Stream/Compression/Deflate/Returns.antt =====
-- deflateMessage returns.
use mathlib.Core.Option
use eiows.Common.{
  ℕ, zero, suc, ◌≤◌, ◌<◌, ◌≡◌, ◌≢◌, refl, ap, ◌⊎◌, inl, inr, Bool, true, false, not, Option, none,
  some, [], ◌++◌, arith, ltb, ◌==◌, ==_iff, if◌then◌else◌, if_intro, Bytes, length,
}
use eiows.Stream.Compression.{Zlib, CompressionContext, ensure_deflater, reset_deflater}
use eiows.Stream.Compression.Deflate.{
  is_ok, deflate_loop, cut_trailer, deflate_with, start_deflate, deflate_message,
}
use eiows.Stream.Compression.Inflate.{zlib_chunk_size, uint_limit}

-- What zlib's manual says of deflate's progress: a message has only so much output for a stream, and
-- a call that fills the room uses some of it up.
pub record DeflateLaws {Stream : Type 0} (zlib : Zlib Stream) : Type 0 where
  pub output_left : Stream → Bytes → ℕ
  pub deflate-works :
      (input : Bytes) (stream : Stream)
      → (let call = zlib.deflate input zlib_chunk_size stream in
          (length call.produced ≢ zlib_chunk_size)
          ⊎ (output_left call.stream call.rest < output_left stream input))

module _ {Stream : Type 0} (zlib : Zlib Stream) (laws : DeflateLaws zlib) where
  open laws use {output_left, deflate-works}

  abbrev pub Returns : Option (Option Bytes × CompressionContext Stream) → Type 0
  Returns o = (r : Option Bytes × CompressionContext Stream) × (o ≡ some r)

  deflate_loop-Returns :
      (fuel : ℕ) (input output : Bytes) (stream : Stream) (bits : ℕ) (c : CompressionContext Stream)
      → output_left stream input < fuel
      → Returns (deflate_loop zlib fuel input output stream bits c)
  unfolding deflate_loop
  deflate_loop-Returns zero input output stream bits c h = absurd (omega arith)
  deflate_loop-Returns (suc fuel) input output stream bits c h =
      let call = zlib.deflate input zlib_chunk_size stream in
      let c' : CompressionContext Stream = record c { deflater = some (call.stream, bits) } in
      let whole = output ++ call.produced in
      let more = deflate_loop zlib fuel call.rest whole call.stream bits c' in
      if_intro Returns (not (is_ok call.status)) (some (none, (reset_deflater zlib c').1))
        (if length call.produced == zlib_chunk_size then more else some (some whole, c'))
        (λ _. ((none, (reset_deflater zlib c').1), refl))
        (λ _.
          if_intro Returns (length call.produced == zlib_chunk_size) more (some (some whole, c'))
            (λ full. elim (deflate-works input stream) [
              | inl short ↦ absurd (short ((==_iff _ _).0 full))
              | inr less ↦
                  deflate_loop-Returns fuel call.rest whole call.stream bits c' (omega arith)
            ])
            (λ _. ((some whole, c'), refl)))

  -- The rounds that the loop may take, for the stream that ensureDeflater has put in place.
  abbrev pub deflate_rounds : Option (Stream × ℕ) → Bytes → ℕ
  deflate_rounds none bytes = 1
  deflate_rounds (some (stream, bits)) bytes = suc (output_left stream bytes)

  deflate_with-Returns :
      (fuel : ℕ) (bytes : Bytes) (o : Option (Stream × ℕ)) (c : CompressionContext Stream)
      → deflate_rounds o bytes ≤ fuel
      → Returns (deflate_with zlib fuel bytes o c)
  deflate_with-Returns fuel bytes none c h = ((none, c), refl)
  deflate_with-Returns fuel bytes (some (stream, bits)) c h =
      if_intro Returns (ltb uint_limit (length bytes)) (some (none, c))
        (deflate_loop zlib fuel bytes [] stream bits c) (λ _. ((none, c), refl))
        (λ _. deflate_loop-Returns fuel bytes [] stream bits c (omega arith))

  start_deflate-Returns :
      (fuel : ℕ) (bytes : Bytes) (r : Bool × CompressionContext Stream)
      → deflate_rounds r.1.deflater bytes ≤ fuel
      → Returns (start_deflate zlib fuel bytes r)
  start_deflate-Returns fuel bytes (false, c) h = ((none, c), refl)
  start_deflate-Returns fuel bytes (true, c) h = deflate_with-Returns fuel bytes c.deflater c h

  -- With as many rounds as the message has output for the stream, deflateMessage returns.
  pub deflate_message-Returns :
      (fuel : ℕ) (bytes : Bytes) (window_bits : ℕ) (reset : Bool) (c : CompressionContext Stream)
      → deflate_rounds (ensure_deflater zlib window_bits c).1.deflater bytes ≤ fuel
      → Returns (deflate_message zlib fuel bytes window_bits reset c)
  unfolding deflate_message
  deflate_message-Returns fuel bytes window_bits reset c h =
      let (r, e) = start_deflate-Returns fuel bytes (ensure_deflater zlib window_bits c) h in
      (cut_trailer zlib reset r, ap (Option.map (cut_trailer zlib reset)) e)
