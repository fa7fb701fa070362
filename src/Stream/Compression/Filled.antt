-- ===== src/Stream/Compression/Filled.antt =====
-- CompressionContext as the codec of a session, and a session over it.
use eiows.Common.{ℕ, ◌≡◌, inl, inr, false, Option, none, some, List, [], Bytes}
use eiows.Protocol.Ascii.{Simd}
use eiows.Stream.Api.{new_stream}
use eiows.Stream.Api.Reads.{Reported, reads, reads-new_stream}
use eiows.Stream.Compression.{Zlib, CompressionContext, ensure_inflater, ensure_deflater}
use eiows.Stream.Compression.Deflate.{deflate_message}
use eiows.Stream.Compression.Deflate.Returns.{DeflateLaws, deflate_rounds}
use eiows.Stream.Compression.Inflate.{inflate_message}
use eiows.Stream.Compression.Inflate.Returns.{OutcomeSmall, inflate_message-Small, inflate_rounds}
use eiows.Stream.Compression.Inflate.Rounds.{InflateLaws}
use eiows.Stream.Hooks.Messages.{CodecLaws}
use eiows.Stream.Session.{InflateResult, internal_error, success, Codec}
use eiows.Stream.Valid.{IsSmall}

-- The value, where there is one.
abbrev or_else {ℓ} : {A : Type ℓ} → A → Option A → A
or_else a none = a
or_else a (some b) = b

module _ {Stream : Type 0} (zlib : Zlib Stream) (inflating : InflateLaws zlib)
    (deflating : DeflateLaws zlib) where
  -- A CompressionContext with the rounds that are enough for an inflater that has not ended.
  pub codec_of : Codec (CompressionContext Stream)
  codec_of = record {
    fresh = record { inflater = none; deflater = none };
    inflate_message = λ bytes limit reset c.
        or_else (internal_error, [], c)
          (inflate_message zlib
            (inflate_rounds zlib inflating limit (ensure_inflater zlib c).1.inflater bytes) bytes
            limit reset c);
    deflate_message = λ bytes window_bits reset c.
        or_else (none, c)
          (deflate_message zlib
            (deflate_rounds zlib deflating (ensure_deflater zlib window_bits c).1.deflater bytes)
            bytes window_bits reset c);
  }

  pub codec_of-CodecLaws : CodecLaws codec_of
  unfolding codec_of
  codec_of-CodecLaws = record {
    inflate_message-IsSmall = λ bytes limit reset c e.
        let rounds =
          inflate_rounds zlib inflating limit (ensure_inflater zlib c).1.inflater bytes in
        kept limit c (inflate_message zlib rounds bytes limit reset c)
          (inflate_message-Small zlib inflating limit rounds bytes reset c) e;
  }
    where
      kept :
          (limit : ℕ) (c : CompressionContext Stream)
          (o : Option (InflateResult × Bytes × CompressionContext Stream))
          → OutcomeSmall zlib inflating limit o
          → (or_else (internal_error, [], c) o).0 ≡ success
          → IsSmall limit (or_else (internal_error, [], c) o).1
      kept limit c none h e = absurd (cc e)
      kept limit c (some r) (inl bad) e = absurd (bad e)
      kept limit c (some r) (inr small) e = small

  -- However the bytes sent to a new stream over zlib are cut into reads, it reports one CLOSE event
  -- in all of them if it is closed in the end, and none if it is not. If it is closed, exactly one of
  -- the frames that it gives out to send has the opcode of a Close, and it stands ahead of the CLOSE
  -- event; if not, none has. Every other event is another frame to send, or a message that keeps to
  -- the payload limit, also where it was inflated, and whose bytes pass isValidUtf8 if it is a text.
  pub reads-zlib_stream :
      (simd : Simd) (limit : ℕ) (inputs : List Bytes) (options window_bits : ℕ)
      (given : Option (CompressionContext Stream))
      → (let r =
            reads codec_of simd inputs (new_stream codec_of simd options window_bits limit given) in
          Reported codec_of codec_of-CodecLaws simd limit false r.0 r.1.session)
  reads-zlib_stream simd limit inputs options window_bits given =
      reads-new_stream codec_of codec_of-CodecLaws simd limit inputs options window_bits given
