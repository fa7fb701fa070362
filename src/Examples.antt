-- ===== src/Examples.antt =====
-- The theorems of the library at concrete inputs: short frames, payloads and reads.
mod Sockets
mod Streams
use eiows.Common.{
  ℕ, ◌-◌, bit_and, ◌≡◌, ◌≢◌, ◌↔◌, inl, refl, true, false, ◌||◌, none, some, [], ◌∷◌, ◌++◌, drop,
  arith, leb, ◌==◌, if◌then◌else◌, Bytes, IsByte, All, length,
}
use eiows.Extensions.Negotiator.{
  literal, same_bytes, window_bits_of, is_window_bits, window_bits_value, is_seen, check_parameter,
  check_parameters, is_compatible_offer, new_negotiator, generate_offer, read_offer,
}
use eiows.Extensions.Negotiator.Agreed.{IsWindow, Distinct, is_compatible_offer-IsWindow}
use eiows.Extensions.Negotiator.Outcome.{Settled, read_offer-Settled}
use eiows.Extensions.Negotiator.Repeat.{agreed, read_offer-generate_offer}
use eiows.Extensions.Offers.{ExtensionOffer}
use eiows.Protocol.Ascii.{scalar, avx2, neon, skip_ascii, skip_ascii_avx2, skip_ascii_neon}
use eiows.Protocol.Ascii.Skip.{skip_ascii_avx2_lem, skip_ascii_neon_lem}
use eiows.Protocol.CloseFrame.{is_valid_code, parse_close_payload, format_close_payload}
use eiows.Protocol.CloseFrame.Laws.{
  Parsed, parse_close_payload-Parsed, parse_close_payload-format_close_payload,
  format_close_payload-parse_close_payload,
}
use eiows.Protocol.Frame.{format_message_header}
use eiows.Protocol.Frame.Header.{Reads, format_message_header-Reads}
use eiows.Protocol.Mask.{Mask, unmask, unmask_remaining, rotate_mask}
use eiows.Protocol.Mask.Masked.{masked, unmask-masked, unmask_remaining-masked}
use eiows.Protocol.Mask.Rotate.{unmask-append}
use eiows.Protocol.Parser
use eiows.Protocol.Parser.Invariant
use eiows.Protocol.Parser.Invariant.{idle, Sound}
use eiows.Protocol.Parser.Loop.{parse_next-fuel, consume-IsValid}
use eiows.Protocol.State.{initial_state}
use eiows.Protocol.Utf8.{is_valid_utf8}
use eiows.Protocol.Utf8.Correct.{is_valid_utf8-iff-WellFormed}
use eiows.Protocol.Utf8.Scalars.{WellFormed, nil, char}
use eiows.Stream.Api.{new_stream, consume, create_frame, create_close_frame}
use eiows.Stream.Api.Reads
use eiows.Stream.Api.Reads.{Reported, reads, reads-new_stream, consume-Sound, consume-closed}
use eiows.Stream.Api.Sends.{create-refused, create_close_frame-once}
use eiows.Stream.Compression.{Zlib, ensure_deflater}
use eiows.Stream.Compression.Ready.{Ready, ensure_deflater-Ready}
use eiows.Stream.Hooks.{protocol_hooks, handle_fragment, set_compressed, force_close}
use eiows.Stream.Hooks.Closing.{set_compressed-after_close}
use eiows.Stream.Hooks.Keep.{protocol_hooks-HookLaws}
use eiows.Stream.Hooks.Messages.{CodecLaws}
use eiows.Stream.Hooks.Parts.{handle_fragment-parts}
use eiows.Stream.Session.{Codec, Session, success, payload_too_large, new_session}
use eiows.Transport.FrameHeader.{frame_header, frame_header-format_message_header}
use eiows.Transport.WriteRequest.{new_request, WriteRequest, remaining, advance}
use eiows.Transport.WriteRequest.Cursor.{advance-remaining}
use eiows.Stream.Valid.{payload_limit, contract, IsValid, still_open}
use eiows.Stream.Farewell.{never_sent}

-- "é" and "h", and bytes of other lengths
abbrev pub sample : Bytes
sample = 0xc3 ∷ 0xa9 ∷ 104 ∷ []

sample-IsByte : All IsByte sample
sample-IsByte = ground arith

sample-WellFormed : WellFormed sample
sample-WellFormed =
    char 0xe9 (omega arith, inl (omega arith)) refl
      (char 104 (omega arith, inl (omega arith)) refl nil)

abbrev key : Mask
key = record { m0 = 1; m1 = 2; m2 = 3; m3 = 4 }

-- A masked Ping with the payload "hi", in one read and in two.
abbrev pub ping_read : Bytes
ping_read = 0x89 ∷ 0x82 ∷ 1 ∷ 2 ∷ 3 ∷ 4 ∷ 105 ∷ 107 ∷ []

-- A masked Close with the code 1000.
abbrev pub goodbye : Bytes
goodbye = 0x88 ∷ 0x82 ∷ 1 ∷ 2 ∷ 3 ∷ 4 ∷ 2 ∷ 234 ∷ []

-- A codec that leaves the bytes as they are.
abbrev pub stored : Codec ℕ
stored = record {
  fresh = 0;
  inflate_message = λ bytes limit reset context.
      if limit == 0 || leb (length bytes) limit
      then (success, bytes, context)
      else (payload_too_large, [], context);
  deflate_message = λ bytes window_bits reset context. (some bytes, context);
}

stored-CodecLaws : CodecLaws stored
stored-CodecLaws = record { inflate_message-IsSmall = λ bytes limit reset context e. ground arith }

abbrev session : Session ℕ
session = new_session stored 1 15 100 none

abbrev leaving : Session ℕ
leaving = record session { close_sent = true }

abbrev closed : Session ℕ
closed = record session { closing = true; close_sent = true }

initial-IsValid : Invariant.IsValid (payload_limit 100) initial_state
initial-IsValid = record { spill_fits = omega arith; place = idle refl refl }

session-IsValid : IsValid scalar 100 false session
session-IsValid = record {
  same_limit = refl;
  acceptable = tt;
  close_state = still_open refl refl;
  sent = never_sent refl refl refl;
  in_order = refl;
  unsent = λ e. refl;
}

is_valid_utf8-iff-WellFormed_example : (is_valid_utf8 neon sample ≡ true) ↔ WellFormed sample
is_valid_utf8-iff-WellFormed_example = is_valid_utf8-iff-WellFormed neon sample sample-IsByte

consume-IsValid_example :
    (let r = Parser.consume (protocol_hooks stored scalar) scalar ping_read initial_state session in
      Sound (contract scalar 100 false) r.0 r.1)
consume-IsValid_example =
    consume-IsValid (protocol_hooks stored scalar) scalar (contract scalar 100 false)
      (protocol_hooks-HookLaws stored stored-CodecLaws scalar 100 false) ping_read initial_state
      session session-IsValid initial-IsValid

parse_next-fuel_example :
    Parser.parse_next (protocol_hooks stored scalar) scalar 8 ping_read initial_state session
    ≡ Parser.parse_next (protocol_hooks stored scalar) scalar 20 ping_read initial_state session
parse_next-fuel_example =
    parse_next-fuel (protocol_hooks stored scalar) scalar 8 20 ping_read initial_state session
      (omega arith) (omega arith)

reads-new_stream_example :
    (let r =
        reads stored scalar
          (ping_read ∷ goodbye ∷ ping_read ∷ [])
          (new_stream stored scalar 1 15 100 none) in
      Reported stored stored-CodecLaws scalar 100 false r.0 r.1.session)
reads-new_stream_example =
    reads-new_stream stored stored-CodecLaws scalar 100 (ping_read ∷ goodbye ∷ ping_read ∷ []) 1 15
      none

consume-Sound_example :
    Reads.Sound stored stored-CodecLaws scalar 100 false
      (consume stored scalar goodbye (record { state = initial_state; session = session }))
consume-Sound_example =
    consume-Sound stored stored-CodecLaws scalar 100 goodbye
      (record { state = initial_state; session = session }) refl refl initial-IsValid

format_message_header-Reads_example :
    Reads
      (format_message_header 2 300 true ++ sample)
      2
      (length (format_message_header 2 300 true))
      300
      true
format_message_header-Reads_example =
    format_message_header-Reads 2 300 true sample (omega arith) (omega arith)

unmask-masked_example : unmask avx2 key ping_read ≡ masked key 0 ping_read
unmask-masked_example = unmask-masked avx2 key ping_read

unmask_remaining-masked_example : unmask_remaining neon key ping_read ≡ masked key 0 ping_read
unmask_remaining-masked_example = unmask_remaining-masked neon key ping_read

unmask-append_example :
    unmask scalar key (sample ++ ping_read)
    ≡ unmask scalar key sample
      ++ unmask scalar (rotate_mask (4 - bit_and (length sample) 3) key) ping_read
unmask-append_example = unmask-append scalar key sample ping_read

parse_close_payload-Parsed_example : Parsed sample (parse_close_payload scalar sample)
parse_close_payload-Parsed_example = parse_close_payload-Parsed scalar sample sample-IsByte

parse_close_payload-format_close_payload_example :
    parse_close_payload scalar (format_close_payload scalar 1000 (some sample))
    ≡ record { code = 1000; message = sample }
parse_close_payload-format_close_payload_example =
    parse_close_payload-format_close_payload scalar 1000 sample
      (inl (omega arith, omega arith, λ e. omega arith, λ e. omega arith, λ e. omega arith))
      sample-IsByte sample-WellFormed

skip_ascii_avx2_lem_example : skip_ascii_avx2 8 ping_read ≡ skip_ascii ping_read
skip_ascii_avx2_lem_example = skip_ascii_avx2_lem 8 ping_read (ground arith)

skip_ascii_neon_lem_example : skip_ascii_neon 8 ping_read ≡ skip_ascii ping_read
skip_ascii_neon_lem_example = skip_ascii_neon_lem 8 ping_read (ground arith)

handle_fragment-parts_example :
    handle_fragment stored scalar sample 0 9 true
      (handle_fragment stored scalar sample 3 9 true session).1
    ≡ handle_fragment stored scalar (sample ++ sample) 0 9 true session
handle_fragment-parts_example =
    handle_fragment-parts stored scalar sample sample 9 session refl refl (inl refl) (omega arith)
      (omega arith) (omega arith)

set_compressed-after_close_example :
    (let first = set_compressed stored scalar leaving in
      let passed = handle_fragment stored scalar sample 0 2 true first.1 in
      (first.0 ≡ true)
      × (passed.0 ≡ false)
      × ((set_compressed stored scalar passed.1).0 ≡ false)
      × ((force_close stored scalar passed.1).closing ≡ true))
set_compressed-after_close_example =
    set_compressed-after_close stored scalar sample 0 2 true leaving refl refl refl (omega arith)

create_close_frame-once_example :
    (let s' = (create_close_frame stored scalar 1000 (some sample) session).1 in
      (create_frame stored scalar sample 1 true s' ≡ (none, s'))
      × (create_close_frame stored scalar 1001 none s' ≡ (none, s')))
create_close_frame-once_example =
    create_close_frame-once stored scalar sample 1 1000 1001 true (some sample) none session

sample-valid : is_valid_utf8 scalar sample ≡ true
sample-valid = (is_valid_utf8-iff-WellFormed scalar sample sample-IsByte).1 sample-WellFormed

abbrev close_payload : Bytes
close_payload = 3 ∷ 232 ∷ sample

close_payload_code : (parse_close_payload scalar close_payload).code ≢ 1006
unfolding parse_close_payload is_valid_code
close_payload_code = rw sample-valid (λ e. omega arith)

format_close_payload-parse_close_payload_example :
    format_close_payload scalar
      (parse_close_payload scalar close_payload).code
      (some (parse_close_payload scalar close_payload).message)
    ≡ close_payload
format_close_payload-parse_close_payload_example =
    format_close_payload-parse_close_payload scalar close_payload (ground arith) close_payload_code

read_offer-Settled_example :
    Settled
      (literal "permessage-deflate; server_max_window_bits=\"12\"")
      7
      (read_offer (literal "permessage-deflate; server_max_window_bits=\"12\"") (new_negotiator 7))
read_offer-Settled_example =
    read_offer-Settled (literal "permessage-deflate; server_max_window_bits=\"12\"") 7 (omega arith)

read_offer-generate_offer_example :
    read_offer (generate_offer (agreed 3 10)) (new_negotiator 3) ≡ agreed 3 10
read_offer-generate_offer_example =
    read_offer-generate_offer 3 10 (omega arith) (omega arith) (omega arith) refl

abbrev ten_bits : ExtensionOffer
ten_bits = record {
  name = literal "permessage-deflate";
  parameters =
      record { name = literal "server_max_window_bits"; value = literal "10"; has_value = true }
      ∷ [];
}

ten_bits_accepted : is_compatible_offer ten_bits 1 ≡ some (record { bits = 10; negotiated = true })
unfolding is_compatible_offer check_parameters check_parameter is_seen same_bytes window_bits_value
    is_window_bits window_bits_of
ten_bits_accepted = refl

is_compatible_offer-IsWindow_example :
    IsWindow (record { bits = 10; negotiated = true }) × Distinct [] ten_bits.parameters
is_compatible_offer-IsWindow_example =
    is_compatible_offer-IsWindow ten_bits 1 (record { bits = 10; negotiated = true })
      ten_bits_accepted

frame_header-format_message_header_example :
    frame_header 70000 2 ≡ format_message_header 2 70000 false
frame_header-format_message_header_example =
    frame_header-format_message_header 70000 2 (omega arith)

-- A write of three parts, of which the cursor stands in the first.
abbrev half_written : WriteRequest
half_written = record (new_request 0 (sample ∷ [] ∷ goodbye ∷ []) none) {
  cursor_offset = 1;
  bytes = 11;
  sent = 1;
}

advance-remaining_example : remaining (advance 4 half_written) ≡ drop 4 (remaining half_written)
advance-remaining_example = advance-remaining 4 half_written (omega arith)
