-- ===== src/Examples/Streams.antt =====
-- The theorems about compression at a zlib that stores its input, in pieces and streams.
use eiows.Common.{
  ℕ, ◌<◌, ◌≡◌, ◌≢◌, refl, ◌⊎◌, inl, inr, true, none, some, [], ◌∷◌, take, drop, length, length-drop,
  arith, false, ◌==◌, if◌then◌else◌, if_intro, Bytes,
}
use eiows.Examples.{goodbye, ping_read, sample}
use eiows.Protocol.Ascii.{scalar}
use eiows.Stream.Api.{new_stream}
use eiows.Stream.Api.Reads.{Reported, reads}
use eiows.Stream.Compression.{
  Zlib, ZlibCall, z_ok, z_buf_error, z_stream_end, z_failed, CompressionContext, ensure_inflater,
  ensure_deflater,
}
use eiows.Stream.Compression.Deflate.{deflate_message}
use eiows.Stream.Compression.Deflate.Returns.{
  DeflateLaws, deflate_rounds, Returns as Deflated, deflate_message-Returns,
}
use eiows.Stream.Compression.Filled.{codec_of, codec_of-CodecLaws, reads-zlib_stream}
use eiows.Stream.Compression.Inflate.{zlib_chunk_size, inflate_message}
use eiows.Stream.Compression.Inflate.Returns.{
  inflate_rounds, Returns as Inflated, inflate_message-Returns,
}
use eiows.Stream.Compression.Inflate.Rounds.{InflateLaws}
use eiows.Stream.Compression.Ready.{Ready, ensure_deflater-Ready}

abbrev ended_call : Bytes → ZlibCall ℕ
ended_call bytes = record { status = z_stream_end; rest = bytes; produced = []; stream = 1 }

abbrev open_call : Bytes → ℕ → ZlibCall ℕ
open_call [] room = record { status = z_buf_error; rest = []; produced = []; stream = 0 }
open_call (b ∷ bs) room = if b == 255 then ended_call bs else record {
  status = z_ok;
  rest = drop room (b ∷ bs);
  produced = take room (b ∷ bs);
  stream = 0;
}

-- Streams that are numbers: the window bits of a deflater; for an inflater 0, or 1 when it has ended.
-- A call takes as much of its input as it has room for, and stores it; the byte 255 ahead of the
-- input of inflate ends the stream, and an ended stream answers so again and takes nothing.
abbrev numbers : Zlib ℕ
numbers = record {
  inflate_init = some 0;
  inflate_reset = λ stream. some 0;
  get_dictionary = λ stream. some [];
  set_dictionary = λ dictionary stream. (true, stream);
  deflate_init = λ window_bits. if window_bits == 8 then none else some window_bits;
  deflate_reset = λ stream. some stream;
  inflate = λ bytes room stream. if stream == 1 then ended_call bytes else open_call bytes room;
  deflate = λ bytes room stream. record {
    status = z_ok;
    rest = drop room bytes;
    produced = take room bytes;
    stream = stream;
  };
}

abbrev Works : Bytes → ZlibCall ℕ → Type 0
Works input call =
    (call.status ≡ z_failed)
    ⊎ (length call.rest < length input)
    ⊎ ((call.status ≢ z_stream_end) × (call.rest ≡ input) × (call.produced ≡ []))

abbrev Ends : ZlibCall ℕ → Type 0
Ends call = (call.status ≡ z_failed) ⊎ (call.status ≡ z_stream_end) ⊎ ((call.stream == 1) ≡ false)

open_call-Works : (input : Bytes) → Works input (open_call input zlib_chunk_size)
open_call-Works [] = inr (inr (λ e. cc e, refl, refl))
open_call-Works (b ∷ bs) =
    if_intro (Works (b ∷ bs)) (b == 255) (ended_call bs) _ (λ _. inr (inl (omega arith)))
      (λ _. inr (inl (omega (arith, length-drop zlib_chunk_size (b ∷ bs)))))

open_call-Ends : (input : Bytes) → Ends (open_call input zlib_chunk_size)
open_call-Ends [] = inr (inr refl)
open_call-Ends (b ∷ bs) =
    if_intro Ends (b == 255) (ended_call bs) _ (λ _. inr (inl refl)) (λ _. inr (inr refl))

stored-InflateLaws : InflateLaws numbers
stored-InflateLaws = record {
  work = λ stream input. length input;
  ended = λ stream. stream == 1;
  inflate-works = λ input stream h.
      if_intro (Works input) (stream == 1) (ended_call input) (open_call input zlib_chunk_size)
        (λ e. absurd (cc (e, h))) (λ _. open_call-Works input);
  inflate-ended = λ input stream h.
      if_intro Ends (stream == 1) (ended_call input) (open_call input zlib_chunk_size)
        (λ e. absurd (cc (e, h))) (λ _. open_call-Ends input);
  init-ended = λ s e. ground arith;
  reset-ended = λ s s' e. ground arith;
  set_dictionary-ended = λ dictionary s h. h;
  reset-works = λ input s s' e. omega arith;
  set_dictionary-works = λ dictionary input s. omega arith;
}

stored_output :
    (input : Bytes)
    → (length (take zlib_chunk_size input) ≢ zlib_chunk_size)
      ⊎ (length (drop zlib_chunk_size input) < length input)
stored_output [] = inl (λ e. omega (arith, e))
stored_output (b ∷ bs) = inr (omega (arith, length-drop zlib_chunk_size (b ∷ bs)))

stored-DeflateLaws : DeflateLaws numbers
stored-DeflateLaws = record {
  output_left = λ stream input. length input;
  deflate-works = λ input stream. stored_output input;
}

abbrev context : CompressionContext ℕ
context = record { inflater = some 0; deflater = some (15, 15) }

ensure_deflater-Ready_example : Ready numbers 10 context (ensure_deflater numbers 10 context)
ensure_deflater-Ready_example = ensure_deflater-Ready numbers 10 context

abbrev inflate_fuel : ℕ
inflate_fuel =
    inflate_rounds numbers stored-InflateLaws 100 (ensure_inflater numbers context).1.inflater
      (255 ∷ sample)

abbrev deflate_fuel : ℕ
deflate_fuel =
    deflate_rounds numbers stored-DeflateLaws (ensure_deflater numbers 10 context).1.deflater sample

inflate_message-Returns_example :
    Inflated numbers stored-InflateLaws 100
      (inflate_message numbers inflate_fuel (255 ∷ sample) 100 true context)
inflate_message-Returns_example =
    inflate_message-Returns numbers stored-InflateLaws 100 inflate_fuel (255 ∷ sample) true context
      (stored-InflateLaws.init-ended 0 refl) (omega arith)

deflate_message-Returns_example :
    Deflated numbers stored-DeflateLaws
      (deflate_message numbers deflate_fuel sample 10 true context)
deflate_message-Returns_example =
    deflate_message-Returns numbers stored-DeflateLaws deflate_fuel sample 10 true context
      (omega arith)

reads-zlib_stream_example :
    (let codec = codec_of numbers stored-InflateLaws stored-DeflateLaws in
      let r =
        reads codec scalar (ping_read ∷ goodbye ∷ []) (new_stream codec scalar 1 15 100 none) in
      Reported codec
        (codec_of-CodecLaws numbers stored-InflateLaws stored-DeflateLaws)
        scalar
        100
        false
        r.0
        r.1.session)
reads-zlib_stream_example =
    reads-zlib_stream numbers stored-InflateLaws stored-DeflateLaws scalar 100
      (ping_read ∷ goodbye ∷ []) 1 15 none
