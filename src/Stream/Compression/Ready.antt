-- ===== src/Stream/Compression/Ready.antt =====
-- What ensureDeflater leaves behind.
use eiows.Common.{
  ℕ, ◌≡◌, refl, Bool, true, false, ◌==◌, ==_iff, Option, none, some, if_intro, ap, ◌⊎◌, inl, inr,
  ◌≢◌, arith,
}
use eiows.Stream.Compression.{
  Zlib, CompressionContext, ensure_deflater_of, ensure_deflater, with_deflater,
}

module _ {Stream : Type 0} (zlib : Zlib Stream) (window_bits : ℕ) where
  -- No deflater of that window.
  abbrev pub WithoutWindow : Option (Stream × ℕ) → Type 0
  WithoutWindow none = Unit
  WithoutWindow (some (stream, bits)) = bits ≢ window_bits

  -- The answer is true with a deflater of the window asked for in place, the one that was there with
  -- that window or else one that zlib has made for it; or it is false, without a deflater, when zlib
  -- has made none. The inflater is the one that was there.
  pub data Ready (c : CompressionContext Stream) (r : Bool × CompressionContext Stream)
      : Type 0 where
    ready :
        (stream : Stream)
        → (c.deflater ≡ some (stream, window_bits))
          ⊎ (WithoutWindow c.deflater × (zlib.deflate_init window_bits ≡ some stream))
        → r.0 ≡ true
        → r.1.deflater ≡ some (stream, window_bits)
        → r.1.inflater ≡ c.inflater
        → Ready c r
    unavailable :
        WithoutWindow c.deflater
        → zlib.deflate_init window_bits ≡ none
        → r.0 ≡ false
        → r.1.deflater ≡ none
        → r.1.inflater ≡ c.inflater
        → Ready c r

  with_deflater-Ready :
      (o : Option Stream) (c : CompressionContext Stream)
      → zlib.deflate_init window_bits ≡ o
      → WithoutWindow c.deflater
      → Ready c (with_deflater zlib window_bits o c)
  with_deflater-Ready none c made w = unavailable w made refl refl refl
  with_deflater-Ready (some stream) c made w = ready stream (inr (w, made)) refl refl refl

  ensure_deflater_of-Ready :
      (d : Option (Stream × ℕ)) (inflater : Option Stream)
      → Ready
          (record { inflater = inflater; deflater = d })
          (ensure_deflater_of zlib window_bits d (record { inflater = inflater; deflater = d }))
  unfolding ensure_deflater_of
  ensure_deflater_of-Ready none inflater =
      with_deflater-Ready (zlib.deflate_init window_bits)
        (record { inflater = inflater; deflater = none }) refl tt
  ensure_deflater_of-Ready (some (stream, bits)) inflater =
      let c : CompressionContext Stream = record {
        inflater = inflater;
        deflater = some (stream, bits);
      } in
      if_intro (Ready c) (bits == window_bits) (true, c)
        (with_deflater zlib window_bits (zlib.deflate_init window_bits) c)
        (λ e.
          let same = ap (λ (n : ℕ). some (stream, n)) ((==_iff bits window_bits).0 e) in
          ready stream (inl same) refl same refl)
        (λ e. with_deflater-Ready (zlib.deflate_init window_bits) c refl (λ h. ground arith))

  -- Whatever deflater the context had, ensureDeflater answers true with a deflater of the window
  -- asked for in place: the one that was there, if it has that window, and else one that zlib has
  -- made for that window. It answers false, without a deflater, exactly when none of that window was
  -- there and zlib makes none. It leaves the inflater alone.
  pub ensure_deflater-Ready :
      (c : CompressionContext Stream) → Ready c (ensure_deflater zlib window_bits c)
  unfolding ensure_deflater
  ensure_deflater-Ready c = ensure_deflater_of-Ready c.deflater c.inflater
