-- ===== src/Stream/Compression/Inflate/Returns.antt =====
-- inflateMessage returns, and its output keeps to the limit.
use eiows.Common.{
  ℕ, zero, suc, ◌-◌, ◌≤◌, ◌<◌, ◌≡◌, ◌≢◌, refl, sym, ap, subst, ◌⊎◌, inl, inr, Bool, true, false,
  Option, none, some, [], ◌++◌, arith, ltb, if_intro, Bytes, length,
}
use mathlib.Core.Option
use eiows.Stream.Compression.{Zlib, CompressionContext, ensure_inflater}
use eiows.Stream.Compression.Inflate.{
  deflate_trailer, uint_limit, Round, next, done, refused, inflate_with, start_inflate,
  inflate_round, inflate_loop, reset_after, inflate_message,
}
use eiows.Stream.Session.{InflateResult, success, invalid_data, payload_too_large, internal_error}
use eiows.Stream.Valid.{IsSmall}
use eiows.Stream.Compression.Inflate.Rounds
use eiows.Stream.Compression.Inflate.Rounds.{InflateLaws}

module _ {Stream : Type 0} (zlib : Zlib Stream) (laws : InflateLaws zlib) (limit : ℕ) where
  open laws use {work, ended}

  abbrev pub Fresh : Option Stream → Type 0
  Fresh = Rounds.Fresh zlib laws limit

  abbrev RoundSound : (e : Bool) → ℕ → Round Stream → Type 0
  RoundSound = Rounds.RoundSound zlib laws limit

  abbrev ResultSmall : InflateResult × Bytes × CompressionContext Stream → Type 0
  ResultSmall r = (r.0 ≢ success) ⊎ IsSmall limit r.1

  -- A result, if there is one: with success its output is within the limit.
  abbrev pub OutcomeSmall : Option (InflateResult × Bytes × CompressionContext Stream) → Type 0
  OutcomeSmall none = Unit
  OutcomeSmall (some r) = ResultSmall r

  -- The result of the function: it has one, with success its output is within the limit, and an
  -- inflater that is left has not ended.
  abbrev pub Returns : Option (InflateResult × Bytes × CompressionContext Stream) → Type 0
  Returns o =
      (r : InflateResult × Bytes × CompressionContext Stream) × (o ≡ some r)
      × ((r.0 ≢ success) ⊎ IsSmall limit r.1)
      × Fresh r.2.inflater

  -- The loop after a round.
  abbrev looped : ℕ → Round Stream → Option (InflateResult × Bytes × CompressionContext Stream)
  looped fuel (next rest output stream c) = inflate_loop zlib fuel limit rest output stream c
  looped fuel (done output c) = some (success, output, c)
  looped fuel (refused result output c) = some (result, output, c)

  looped-step :
      (fuel : ℕ) (input output : Bytes) (stream : Stream) (c : CompressionContext Stream)
      → inflate_loop zlib (suc fuel) limit input output stream c
        ≡ looped fuel (inflate_round zlib limit input output stream c)
  unfolding inflate_loop
  looped-step fuel input output stream c = by_round (inflate_round zlib limit input output stream c)
    where
      by_round :
          (round : Round Stream)
          → (elim round [
            | next rest output' stream' c' ↦ inflate_loop zlib fuel limit rest output' stream' c'
            | done output' c' ↦ some (success, output', c')
            | refused result output' c' ↦ some (result, output', c')
          ])
            ≡ looped fuel round
      by_round (next rest output' stream' c') = refl
      by_round (done output' c') = refl
      by_round (refused result output' c') = refl

  -- Given that the rest of the loop returns.
  ended_round :
      (fuel w : ℕ) (round : Round Stream)
      → ((input output : Bytes) (stream : Stream) (c : CompressionContext Stream)
          → IsSmall limit output
          → ended stream ≡ false
          → work stream input < w
          → Returns (inflate_loop zlib fuel limit input output stream c))
      → RoundSound false w round
      → Returns (looped fuel round)
  ended_round fuel w (next rest output' stream' c') more (h, small') =
      more rest output' stream' c' small' (h refl).1 (h refl).0
  ended_round fuel w (done output' c') more (h, small') =
      ((success, output', c'), refl, inr small', h refl)
  ended_round fuel w (refused result output' c') more (h, bad) =
      ((result, output', c'), refl, inl bad, h refl)

  inflate_loop-Returns :
      (fuel : ℕ) (input output : Bytes) (stream : Stream) (c : CompressionContext Stream)
      → IsSmall limit output
      → ended stream ≡ false
      → work stream input < fuel
      → Returns (inflate_loop zlib fuel limit input output stream c)
  inflate_loop-Returns zero input output stream c small f h = absurd (omega arith)
  inflate_loop-Returns (suc fuel) input output stream c small f h =
      subst Returns (sym (looped-step fuel input output stream c)) (
        ended_round fuel (work stream input) (inflate_round zlib limit input output stream c)
          (λ rest output' stream' c' small' f' less.
            inflate_loop-Returns fuel rest output' stream' c' small' f' (omega arith))
          (subst
            (λ (e : Bool).
              RoundSound e (work stream input) (inflate_round zlib limit input output stream c))
            f (Rounds.inflate_round-Sound zlib laws limit input output stream c small)))

  small_round :
      (e : Bool) (fuel w : ℕ) (round : Round Stream)
      → ((input output : Bytes) (stream : Stream) (c : CompressionContext Stream)
          → IsSmall limit output
          → OutcomeSmall (inflate_loop zlib fuel limit input output stream c))
      → RoundSound e w round
      → OutcomeSmall (looped fuel round)
  small_round e fuel w (next rest output' stream' c') more (h, small') =
      more rest output' stream' c' small'
  small_round e fuel w (done output' c') more (h, small') = inr small'
  small_round e fuel w (refused result output' c') more (h, bad) = inl bad

  -- However many rounds there are, and whatever the stream is.
  inflate_loop-Small :
      (fuel : ℕ) (input output : Bytes) (stream : Stream) (c : CompressionContext Stream)
      → IsSmall limit output
      → OutcomeSmall (inflate_loop zlib fuel limit input output stream c)
  unfolding inflate_loop
  inflate_loop-Small zero input output stream c small = tt
  inflate_loop-Small (suc fuel) input output stream c small =
      subst OutcomeSmall (sym (looped-step fuel input output stream c)) (
        small_round (ended stream) fuel (work stream input)
          (inflate_round zlib limit input output stream c)
          (λ rest output' stream' c' small'. inflate_loop-Small fuel rest output' stream' c' small')
          (Rounds.inflate_round-Sound zlib laws limit input output stream c small))

  -- The rounds that the loop may take, for the stream that ensureInflater has put in place.
  abbrev pub inflate_rounds : Option Stream → Bytes → ℕ
  inflate_rounds none bytes = 1
  inflate_rounds (some stream) bytes = suc (work stream (bytes ++ deflate_trailer))

  empty-IsSmall : IsSmall limit []
  empty-IsSmall = inr (omega arith)

  inflate_with-Returns :
      (fuel : ℕ) (bytes : Bytes) (o : Option Stream) (c : CompressionContext Stream)
      → Fresh c.inflater
      → Fresh o
      → inflate_rounds o bytes ≤ fuel
      → Returns (inflate_with zlib fuel limit bytes o c)
  inflate_with-Returns fuel bytes none c f g h =
      ((internal_error, [], c), refl, inr empty-IsSmall, f)
  inflate_with-Returns fuel bytes (some stream) c f g h =
      if_intro Returns (ltb (uint_limit - length deflate_trailer) (length bytes))
        (some (internal_error, [], c))
        (inflate_loop zlib fuel limit (bytes ++ deflate_trailer) [] stream c)
        (λ _. ((internal_error, [], c), refl, inr empty-IsSmall, f))
        (λ _.
          inflate_loop-Returns fuel (bytes ++ deflate_trailer) [] stream c empty-IsSmall g
            (omega arith))

  start_inflate-Returns :
      (fuel : ℕ) (bytes : Bytes) (r : Bool × CompressionContext Stream)
      → Fresh r.1.inflater
      → inflate_rounds r.1.inflater bytes ≤ fuel
      → Returns (start_inflate zlib fuel limit bytes r)
  start_inflate-Returns fuel bytes (false, c) f h =
      ((internal_error, [], c), refl, inr empty-IsSmall, f)
  start_inflate-Returns fuel bytes (true, c) f h =
      inflate_with-Returns fuel bytes c.inflater c f f h

  inflate_with-Small :
      (fuel : ℕ) (bytes : Bytes) (o : Option Stream) (c : CompressionContext Stream)
      → OutcomeSmall (inflate_with zlib fuel limit bytes o c)
  inflate_with-Small fuel bytes none c = inr empty-IsSmall
  inflate_with-Small fuel bytes (some stream) c =
      if_intro OutcomeSmall (ltb (uint_limit - length deflate_trailer) (length bytes))
        (some (internal_error, [], c))
        (inflate_loop zlib fuel limit (bytes ++ deflate_trailer) [] stream c)
        (λ _. inr empty-IsSmall)
        (λ _. inflate_loop-Small fuel (bytes ++ deflate_trailer) [] stream c empty-IsSmall)

  start_inflate-Small :
      (fuel : ℕ) (bytes : Bytes) (r : Bool × CompressionContext Stream)
      → OutcomeSmall (start_inflate zlib fuel limit bytes r)
  start_inflate-Small fuel bytes (false, c) = inr empty-IsSmall
  start_inflate-Small fuel bytes (true, c) = inflate_with-Small fuel bytes c.inflater c

  reset_after-Sound :
      (reset : Bool) (r : InflateResult × Bytes × CompressionContext Stream)
      → ResultSmall r
      → ResultSmall (reset_after zlib reset r)
  unfolding reset_after
  reset_after-Sound true (success, output, c) (inl bad) = absurd (bad refl)
  reset_after-Sound true (success, output, c) (inr small) = inr small
  reset_after-Sound true (invalid_data, output, c) h = h
  reset_after-Sound true (payload_too_large, output, c) h = h
  reset_after-Sound true (internal_error, output, c) h = h
  reset_after-Sound false r h = h

  reset_after-Fresh :
      (reset : Bool) (r : InflateResult × Bytes × CompressionContext Stream)
      → Fresh r.2.inflater
      → Fresh (reset_after zlib reset r).2.inflater
  unfolding reset_after
  reset_after-Fresh true (success, output, c) h = Rounds.reset_inflater-Fresh zlib laws limit c
  reset_after-Fresh true (invalid_data, output, c) h = h
  reset_after-Fresh true (payload_too_large, output, c) h = h
  reset_after-Fresh true (internal_error, output, c) h = h
  reset_after-Fresh false r h = h

  outcome-Small :
      (reset : Bool) (o : Option (InflateResult × Bytes × CompressionContext Stream))
      → OutcomeSmall o
      → OutcomeSmall (Option.map (reset_after zlib reset) o)
  outcome-Small reset none h = tt
  outcome-Small reset (some r) h = reset_after-Sound reset r h

  -- Whatever the rounds and the streams, a result with success is within the limit.
  pub inflate_message-Small :
      (fuel : ℕ) (bytes : Bytes) (reset : Bool) (c : CompressionContext Stream)
      → OutcomeSmall (inflate_message zlib fuel bytes limit reset c)
  unfolding inflate_message
  inflate_message-Small fuel bytes reset c =
      outcome-Small reset (start_inflate zlib fuel limit bytes (ensure_inflater zlib c))
        (start_inflate-Small fuel bytes (ensure_inflater zlib c))

  -- With as many rounds as the input has work for the stream, and an inflater that has not ended, if
  -- there is one, inflateMessage returns; what it yields with success is no longer than the limit, if
  -- there is one, and an inflater that it leaves has not ended.
  pub inflate_message-Returns :
      (fuel : ℕ) (bytes : Bytes) (reset : Bool) (c : CompressionContext Stream)
      → Fresh c.inflater
      → inflate_rounds (ensure_inflater zlib c).1.inflater bytes ≤ fuel
      → Returns (inflate_message zlib fuel bytes limit reset c)
  unfolding inflate_message
  inflate_message-Returns fuel bytes reset c f h =
      let (r, e, small, f') =
        start_inflate-Returns fuel bytes (ensure_inflater zlib c)
          (Rounds.ensure_inflater_of-Fresh zlib laws limit c.inflater c.deflater f) h in
      (
        reset_after zlib reset r,
        ap (Option.map (reset_after zlib reset)) e,
        reset_after-Sound reset r small,
        reset_after-Fresh reset r f',
      )
