-- ===== src/Stream/Compression/Inflate/Rounds.antt =====
-- A round of inflateMessage's loop goes on with less work to do, or ends.
use eiows.Common.{
  ℕ, ◌+◌, ◌≤◌, ◌<◌, ◌≡◌, ◌≢◌, refl, sym, ap, subst, ◌⊎◌, inl, inr, Bool, true, false, ◌&&◌, Option,
  none, some, [], ◌∷◌, ◌++◌, arith, ltb, ◌==◌, if◌then◌else◌, if_intro, Bytes, length,
  length-append,
}
use eiows.Protocol.Frame.{nonzero}
use eiows.Stream.Compression.{
  Zlib, ZlibStatus, ZlibCall, z_ok, z_buf_error, z_stream_end, z_failed, CompressionContext,
  ensure_inflater, reset_inflater, restart_inflater, restart_of, restart_with, restart_from,
  restore_dictionary, with_inflater,
}
use eiows.Stream.Compression.Inflate.{
  zlib_chunk_size, Round, next, done, refused, go_on, after_restart, went_on, after_call,
  inflate_round, give_up,
}
use eiows.Stream.Session.{InflateResult, success, invalid_data, payload_too_large, internal_error}
use eiows.Stream.Valid.{IsSmall}

-- What zlib's manual says of inflate's progress. An input has only so much work for a stream. A call
-- with a stream that has not ended, which fails not, uses some of it up, or else takes no input,
-- writes no output and does not end the stream; only Z_STREAM_END ends a stream. A new stream, one
-- that was reset, and one that was given a dictionary have not ended; a new start and a dictionary
-- add no work. Nothing is said of a call with a stream that has ended.
pub record InflateLaws {Stream : Type 0} (zlib : Zlib Stream) : Type 0 where
  pub work : Stream → Bytes → ℕ
  pub ended : Stream → Bool
  pub inflate-works :
      (input : Bytes) (stream : Stream)
      → ended stream ≡ false
      → (let call = zlib.inflate input zlib_chunk_size stream in
          (call.status ≡ z_failed)
          ⊎ (work call.stream call.rest < work stream input)
          ⊎ ((call.status ≢ z_stream_end) × (call.rest ≡ input) × (call.produced ≡ [])))
  pub inflate-ended :
      (input : Bytes) (stream : Stream)
      → ended stream ≡ false
      → (let call = zlib.inflate input zlib_chunk_size stream in
          (call.status ≡ z_failed) ⊎ (call.status ≡ z_stream_end) ⊎ (ended call.stream ≡ false))
  pub init-ended : (s : Stream) → zlib.inflate_init ≡ some s → ended s ≡ false
  pub reset-ended : (s s' : Stream) → zlib.inflate_reset s ≡ some s' → ended s' ≡ false
  pub set_dictionary-ended :
      (dictionary : Bytes) (s : Stream)
      → ended s ≡ false
      → ended (zlib.set_dictionary dictionary s).1 ≡ false
  pub reset-works :
      (input : Bytes) (s s' : Stream)
      → zlib.inflate_reset s ≡ some s'
      → work s' input ≤ work s input
  pub set_dictionary-works :
      (dictionary input : Bytes) (s : Stream)
      → work (zlib.set_dictionary dictionary s).1 input ≤ work s input

IsSmall-append :
    {limit : ℕ} (output produced : Bytes)
    → IsSmall limit output
    → (nonzero (length produced) && nonzero limit && ltb limit (length output + length produced))
      ≡ false
    → IsSmall limit (output ++ produced)
IsSmall-append output produced small fits = ground (arith, length-append output produced)

module _ {Stream : Type 0} (zlib : Zlib Stream) (laws : InflateLaws zlib) (limit : ℕ) where
  open laws use {
    work, ended, inflate-works, inflate-ended, init-ended, reset-ended, set_dictionary-ended,
    reset-works, set_dictionary-works,
  }

  -- An inflater that has not ended, if there is one.
  abbrev pub Fresh : Option Stream → Type 0
  Fresh none = Unit
  Fresh (some stream) = ended stream ≡ false

  -- What is said of the work is said of a round that starts with a stream that has not ended; `e` is
  -- whether it has. A round goes on with less work to do and such a stream, or ends.
  abbrev pub RoundSound : (e : Bool) → ℕ → Round Stream → Type 0
  RoundSound e w (next rest output stream c) =
      (e ≡ false → (work stream rest < w) × (ended stream ≡ false)) × IsSmall limit output
  RoundSound e w (done output c) = (e ≡ false → Fresh c.inflater) × IsSmall limit output
  RoundSound e w (refused result output c) = (e ≡ false → Fresh c.inflater) × (result ≢ success)

  reset-Fresh :
      (s : Stream) (o : Option Stream) (c : CompressionContext Stream)
      → zlib.inflate_reset s ≡ o
      → Fresh (with_inflater zlib o c).1.inflater
  reset-Fresh s none c made = tt
  reset-Fresh s (some s') c made = reset-ended s s' made

  reset_inflater_of-Fresh :
      (o : Option Stream) (d : Option (Stream × ℕ))
      → Fresh (reset_inflater zlib (record { inflater = o; deflater = d })).1.inflater
  unfolding reset_inflater
  reset_inflater_of-Fresh none d = tt
  reset_inflater_of-Fresh (some s) d =
      reset-Fresh s (zlib.inflate_reset s) (record { inflater = some s; deflater = d }) refl

  pub reset_inflater-Fresh :
      (c : CompressionContext Stream) → Fresh (reset_inflater zlib c).1.inflater
  reset_inflater-Fresh c = reset_inflater_of-Fresh c.inflater c.deflater

  init-Fresh :
      (o : Option Stream) (c : CompressionContext Stream)
      → zlib.inflate_init ≡ o
      → Fresh (with_inflater zlib o c).1.inflater
  init-Fresh none c made = tt
  init-Fresh (some s) c made = init-ended s made

  pub ensure_inflater_of-Fresh :
      (o : Option Stream) (d : Option (Stream × ℕ))
      → Fresh o
      → Fresh (ensure_inflater zlib (record { inflater = o; deflater = d })).1.inflater
  unfolding ensure_inflater
  ensure_inflater_of-Fresh none d f =
      init-Fresh zlib.inflate_init (record { inflater = none; deflater = d }) refl
  ensure_inflater_of-Fresh (some s) d f = f

  -- A round that gives up leaves a new start behind.
  given_up :
      (e : Bool) (w : ℕ) (result : InflateResult) (output : Bytes) (c : CompressionContext Stream)
      → result ≢ success
      → RoundSound e w (give_up zlib result output c)
  given_up e w result output c bad = (λ _. reset_inflater-Fresh c, bad)

  abbrev RestartSound : (e : Bool) → ℕ → Bytes → Bool × CompressionContext Stream → Type 0
  RestartSound e w rest r =
      (r.0 ≡ false)
      ⊎ ((stream : Stream) × (r.1.inflater ≡ some stream)
          × (ended stream ≡ false)
          × (e ≡ false → work stream rest < w))

  restore_dictionary-Sound :
      (e : Bool) (dictionary rest : Bytes) (s : Stream) (c : CompressionContext Stream) (w : ℕ)
      → ended s ≡ false
      → (e ≡ false → work s rest < w)
      → RestartSound e w rest (restore_dictionary zlib dictionary s c)
  unfolding restore_dictionary
  restore_dictionary-Sound e [] rest s c w f h = inr (s, refl, f, h)
  restore_dictionary-Sound e (b ∷ dictionary) rest s c w f h = inr (
    (zlib.set_dictionary (b ∷ dictionary) s).1,
    refl,
    set_dictionary-ended (b ∷ dictionary) s f,
    λ i. omega (arith, set_dictionary-works (b ∷ dictionary) rest s, h i),
  )

  restart_from-Sound :
      (e : Bool) (dictionary rest : Bytes) (s : Stream) (o : Option Stream)
      (c : CompressionContext Stream) (w : ℕ)
      → zlib.inflate_reset s ≡ o
      → (e ≡ false → work s rest < w)
      → RestartSound e w rest (restart_from zlib dictionary o c)
  unfolding restart_from
  restart_from-Sound e dictionary rest s none c w made h = inl refl
  restart_from-Sound e dictionary rest s (some s') c w made h =
      restore_dictionary-Sound e dictionary rest s' c w (reset-ended s s' made)
        (λ i. omega (arith, reset-works rest s s' made, h i))

  restart_with-Sound :
      (e : Bool) (o : Option Bytes) (rest : Bytes) (s : Stream) (c : CompressionContext Stream)
      (w : ℕ)
      → (e ≡ false → work s rest < w)
      → RestartSound e w rest (restart_with zlib o s c)
  unfolding restart_with
  restart_with-Sound e none rest s c w h = inl refl
  restart_with-Sound e (some dictionary) rest s c w h =
      restart_from-Sound e dictionary rest s (zlib.inflate_reset s) c w refl h

  restart_inflater-Sound :
      (e : Bool) (rest : Bytes) (s : Stream) (c : CompressionContext Stream) (w : ℕ)
      → c.inflater ≡ some s
      → (e ≡ false → work s rest < w)
      → RestartSound e w rest (restart_inflater zlib c)
  unfolding restart_inflater restart_of
  restart_inflater-Sound e rest s c w there h =
      subst (λ o. RestartSound e w rest (restart_of zlib o c)) (sym there)
        (restart_with-Sound e (zlib.get_dictionary s) rest s c w h)

  after_restart-Sound :
      (e : Bool) (rest output : Bytes) (r : Bool × CompressionContext Stream) (w : ℕ)
      → IsSmall limit output
      → RestartSound e w rest r
      → RoundSound e w (after_restart zlib rest output r)
  unfolding after_restart
  after_restart-Sound e rest output (false, c) w small h =
      given_up e w internal_error output c (λ i. cc i)
  after_restart-Sound e rest output (true, c) w small (inl bad) = absurd (cc bad)
  after_restart-Sound e rest output (true, c) w small (inr (s, there, f, h)) =
      subst (λ o. RoundSound e w (go_on zlib rest output o c)) (sym there) (λ i. (h i, f), small)

  -- A call has used up work, or found nothing to do.
  abbrev Went : ℕ → Bytes → ZlibCall Stream → Type 0
  Went w input call =
      (work call.stream call.rest < w) ⊎ ((call.rest ≡ input) × (call.produced ≡ []))

  went_on-Sound :
      (e : Bool) (input output : Bytes) (call : ZlibCall Stream) (c : CompressionContext Stream)
      (w : ℕ)
      → IsSmall limit output
      → c.inflater ≡ some call.stream
      → (e ≡ false → Went w input call × (ended call.stream ≡ false))
      → RoundSound e w (went_on zlib input output call c)
  unfolding went_on
  went_on-Sound e input output call c w small there h =
      if_intro (RoundSound e w)
        (length call.rest == 0 && ltb (length call.produced) zlib_chunk_size) (done output c)
        (if length input == length call.rest && length call.produced == 0
          then give_up zlib invalid_data output c
          else next call.rest output call.stream c)
        (λ _. (λ i. subst Fresh (sym there) (h i).1, small))
        (λ _.
          if_intro (RoundSound e w) (length input == length call.rest && length call.produced == 0)
            (give_up zlib invalid_data output c) (next call.rest output call.stream c)
            (λ _. given_up e w invalid_data output c (λ i. cc i))
            (λ moved. (
              λ i. elim (h i).0 [
                | inl less ↦ (less, (h i).1)
                | inr (same, nothing) ↦ absurd (ground (arith, ap length same, ap length nothing))
              ],
              small,
            )))

  -- What the laws say of a call.
  abbrev CallSound : ZlibStatus → ℕ → Bytes → ZlibCall Stream → Type 0
  CallSound status w input call =
      ((status ≡ z_failed)
        ⊎ (work call.stream call.rest < w)
        ⊎ ((status ≢ z_stream_end) × (call.rest ≡ input) × (call.produced ≡ [])))
      × ((status ≡ z_failed) ⊎ (status ≡ z_stream_end) ⊎ (ended call.stream ≡ false))

  -- A call that has neither failed nor ended the stream.
  progress :
      (status : ZlibStatus) (input : Bytes) (call : ZlibCall Stream) (w : ℕ)
      → status ≢ z_failed
      → status ≢ z_stream_end
      → CallSound status w input call
      → Went w input call × (ended call.stream ≡ false)
  progress status input call w ok on (inl bad, f) = absurd (ok bad)
  progress status input call w ok on (g, inl bad) = absurd (ok bad)
  progress status input call w ok on (g, inr (inl bad)) = absurd (on bad)
  progress status input call w ok on (inr (inl a), inr (inr f)) = (inl a, f)
  progress status input call w ok on (inr (inr (_, same, nothing)), inr (inr f)) =
      (inr (same, nothing), f)

  ended_by :
      (input : Bytes) (call : ZlibCall Stream) (w : ℕ)
      → CallSound z_stream_end w input call
      → work call.stream call.rest < w
  ended_by input call w (inl bad, f) = absurd (cc bad)
  ended_by input call w (inr (inl less), f) = less
  ended_by input call w (inr (inr (on, same, nothing)), f) = absurd (on refl)

  after_call-Sound :
      (e : Bool) (status : ZlibStatus) (input output : Bytes) (call : ZlibCall Stream)
      (c : CompressionContext Stream) (w : ℕ)
      → IsSmall limit output
      → c.inflater ≡ some call.stream
      → (e ≡ false → CallSound status w input call)
      → RoundSound e w (after_call zlib status input output call c)
  unfolding after_call
  after_call-Sound e z_failed input output call c w small there h =
      given_up e w invalid_data output c (λ i. cc i)
  after_call-Sound e z_stream_end input output call c w small there h =
      after_restart-Sound e call.rest output (restart_inflater zlib c) w small (
        restart_inflater-Sound e call.rest call.stream c w there (λ i. ended_by input call w (h i)))
  after_call-Sound e z_ok input output call c w small there h =
      went_on-Sound e input output call c w small there
        (λ i. progress z_ok input call w (λ b. cc b) (λ b. cc b) (h i))
  after_call-Sound e z_buf_error input output call c w small there h =
      went_on-Sound e input output call c w small there
        (λ i. progress z_buf_error input call w (λ b. cc b) (λ b. cc b) (h i))

  pub inflate_round-Sound :
      (input output : Bytes) (stream : Stream) (c : CompressionContext Stream)
      → IsSmall limit output
      → RoundSound
          (ended stream)
          (work stream input)
          (inflate_round zlib limit input output stream c)
  unfolding inflate_round
  inflate_round-Sound input output stream c small =
      let call = zlib.inflate input zlib_chunk_size stream in
      let c' : CompressionContext Stream = record c { inflater = some call.stream } in
      let e = ended stream in
      let w = work stream input in
      let too_large =
        nonzero (length call.produced)
        && nonzero limit
        && ltb limit (length output + length call.produced) in
      if_intro (RoundSound e w) too_large (give_up zlib payload_too_large output c')
        (after_call zlib call.status input (output ++ call.produced) call c')
        (λ _. given_up e w payload_too_large output c' (λ i. cc i))
        (λ fits.
          after_call-Sound e call.status input (output ++ call.produced) call c' w
            (IsSmall-append output call.produced small fits) refl
            (λ i. (inflate-works input stream i, inflate-ended input stream i)))
