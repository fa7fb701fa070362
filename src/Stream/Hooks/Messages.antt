-- ===== src/Stream/Hooks/Messages.antt =====
-- A message's way through handleFragment: inflated, tested, delivered.
use eiows.Common.{
  ℕ, ◌≡◌, refl, sym, subst, ◌⊎◌, inl, inr, Bool, true, false, not, ◌&&◌, Option, none, some, arith,
  ◌==◌, Bytes, if_intro,
}
use eiows.Protocol.Ascii.{Simd}
use eiows.Protocol.OpCode
use eiows.Protocol.Parser.Invariant.{IsData}
use eiows.Protocol.Utf8.{is_valid_utf8}
use eiows.Stream.Hooks.{
  Inflated, plain, inflated, broken, inflate_in, inflate_message, inflate_outcome, inflate_payload,
  push_message,
}
use eiows.Stream.Session.{
  message, Event, payload, InflateResult, success, internal_error, invalid_data, payload_too_large,
  CompressionStatus, disabled, enabled, compressed_frame, Codec, Session, has_option,
  client_no_context_takeover, fail_with,
}
use eiows.Stream.Valid.{
  IsSmall, Acceptable, text_message, binary_message, IsValid, push_event-IsValid, fail-closing,
  fail_with-IsValid,
}

-- What inflateMessage promises with success: no more bytes than the limit, if there is one.
pub record CodecLaws {Context : Type 0} (codec : Codec Context) : Type 0 where
  pub inflate_message-IsSmall :
      (bytes : Bytes) (limit : ℕ) (reset : Bool) (context : Context)
      → (codec.inflate_message bytes limit reset context).0 ≡ success
      → IsSmall limit (codec.inflate_message bytes limit reset context).1

module _ {Context : Type 0} (codec : Codec Context) (laws : CodecLaws codec) (simd : Simd) (m : ℕ)
    (before : Bool) where
  abbrev pub StopSound : Bool × Session Context → Type 0
  StopSound r = IsValid simd m before r.1 × ((r.0 ≡ false) ⊎ (r.1.closing ≡ true))

  abbrev ResultSound : InflateResult × Bytes × Session Context → Type 0
  ResultSound r = IsValid simd m before r.2 × (r.0 ≡ success → IsSmall m r.1)

  abbrev pub InflatedSound : Inflated Context → Type 0
  InflatedSound plain = Unit
  InflatedSound (inflated out s) = IsValid simd m before s × IsSmall m out
  InflatedSound (broken s) = IsValid simd m before s × (s.closing ≡ true)

  pub fail_with-StopSound :
      (code : ℕ) (s : Session Context)
      → IsValid simd m before s
      → StopSound (true, fail_with simd code s)
  fail_with-StopSound code s v = (
    fail_with-IsValid simd m before code s v,
    inr (fail-closing simd m before code (record s { failure_code = code })),
  )

  inflate_in-Sound :
      (o : Option Context) (bytes : Bytes) (reset : Bool) (put : Context → Session Context)
      (s : Session Context)
      → IsValid simd m before s
      → ((c : Context) → IsValid simd m before (put c))
      → ResultSound
          (inflate_in codec simd o (codec.inflate_message bytes s.max_payload reset) put s)
  unfolding inflate_in
  inflate_in-Sound none bytes reset put s v h = (v, λ e. absurd (cc e))
  inflate_in-Sound (some c) bytes reset put s v h = (
    h _,
    λ e.
        subst (λ k. IsSmall k (codec.inflate_message bytes s.max_payload reset c).1) v.same_limit
          (laws.inflate_message-IsSmall bytes s.max_payload reset c e),
  )

  inflate_message-Sound :
      (bytes : Bytes) (s : Session Context)
      → IsValid simd m before s
      → ResultSound (inflate_message codec simd bytes s)
  unfolding inflate_message
  inflate_message-Sound bytes s v =
      let no_takeover = has_option s.extension_options client_no_context_takeover in
      let call = codec.inflate_message bytes s.max_payload no_takeover in
      let put : Context → Session Context = λ c. record s { shared_context = some c } in
      let put' : Context → Session Context = λ c. record s { private_context = some c } in
      if_intro ResultSound no_takeover (inflate_in codec simd s.shared_context call put s)
        (inflate_in codec simd s.private_context call put' s)
        (λ e. inflate_in-Sound s.shared_context bytes no_takeover put s v (λ c. record {
          same_limit = v.same_limit;
          acceptable = v.acceptable;
          close_state = v.close_state;
          sent = v.sent;
          in_order = v.in_order;
          unsent = v.unsent;
        }))
        (λ e. inflate_in-Sound s.private_context bytes no_takeover put' s v (λ c. record {
          same_limit = v.same_limit;
          acceptable = v.acceptable;
          close_state = v.close_state;
          sent = v.sent;
          in_order = v.in_order;
          unsent = v.unsent;
        }))

  broken-Sound :
      (code : ℕ) (s : Session Context)
      → IsValid simd m before s
      → InflatedSound (broken (fail_with simd code s))
  broken-Sound code s v = (
    fail_with-IsValid simd m before code s v,
    fail-closing simd m before code (record s { failure_code = code }),
  )

  inflate_outcome-Sound :
      (r : InflateResult × Bytes × Session Context)
      → ResultSound r
      → InflatedSound (inflate_outcome codec simd r.0 r.1 r.2)
  unfolding inflate_outcome
  inflate_outcome-Sound (success, out, s) (v, h) = (v, h refl)
  inflate_outcome-Sound (invalid_data, out, s) (v, h) = broken-Sound _ s v
  inflate_outcome-Sound (payload_too_large, out, s) (v, h) = broken-Sound _ s v
  inflate_outcome-Sound (internal_error, out, s) (v, h) = broken-Sound _ s v

  pub inflate_payload-Sound :
      (status : CompressionStatus) (bytes : Bytes) (s : Session Context)
      → IsValid simd m before s
      → InflatedSound (inflate_payload codec simd status bytes s)
  unfolding inflate_payload
  inflate_payload-Sound disabled bytes s v = tt
  inflate_payload-Sound enabled bytes s v = tt
  inflate_payload-Sound compressed_frame bytes s v =
      let s' : Session Context = record s { compression_status = enabled } in
      inflate_outcome-Sound (inflate_message codec simd bytes s') (
        inflate_message-Sound bytes s' (record {
          same_limit = v.same_limit;
          acceptable = v.acceptable;
          close_state = v.close_state;
          sent = v.sent;
          in_order = v.in_order;
          unsent = v.unsent;
        }))

  message-Acceptable :
      (e : Event)
      → e.type ≡ message
      → IsData e.op_code
      → ((e.op_code == OpCode.text) && not (is_valid_utf8 simd (payload e))) ≡ false
      → IsSmall m (payload e)
      → Acceptable simd m e
  message-Acceptable e t (inl text) h small = text_message t text (ground arith) small
  message-Acceptable e t (inr binary) h small = binary_message t binary small

  pub push_message-Sound :
      (op : ℕ) (owned : Bytes) (view : Option Bytes) (text : Bytes) (s : Session Context)
      → payload (record { type = message; bytes = owned; op_code = op; code = 0; view = view })
        ≡ text
      → IsData op
      → IsSmall m text
      → IsValid simd m before s
      → StopSound (push_message codec simd op text owned view s)
  unfolding push_message
  push_message-Sound op owned view text s p d small v =
      let e : Event = record {
        type = message;
        bytes = owned;
        op_code = op;
        code = 0;
        view = view;
      } in
      if_intro StopSound _ _ _ (λ t. fail_with-StopSound 1007 s v)
        (λ t. (
          push_event-IsValid simd m before e s v
              (message-Acceptable e refl d
                (subst (λ x. ((op == OpCode.text) && not (is_valid_utf8 simd x)) ≡ false) (sym p) t)
                (subst (IsSmall m) (sym p) small))
              refl refl,
          inl refl,
        ))
