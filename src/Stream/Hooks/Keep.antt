-- ===== src/Stream/Hooks/Keep.antt =====
-- The session's hooks keep the contract that the parser is given.
use eiows.Common.{
  ℕ, ◌+◌, ◌-◌, ◌≤◌, ◌<◌, ◌^◌, ◌%◌, ◌≡◌, refl, subst, ◌⊎◌, inl, inr, Bool, true, false, not, ◌&&◌,
  none, some, [], ◌++◌, arith, ltb, ◌==◌, if◌then◌else◌, Bytes, length, length-append, take, drop,
  if_intro, ltb→lt,
}
use eiows.Protocol.Ascii.{Simd}
use eiows.Protocol.CloseFrame.{parse_close_payload}
use eiows.Protocol.OpCode
use eiows.Protocol.Parser.Invariant.{HookLaws, IsData, Fits}
use eiows.Stream.Hooks.{
  too_large, is_empty, Inflated, plain, inflated, broken, refuse_payload_length,
  set_compressed_status, set_compressed, force_close, append_fragment, push_message, single_frame,
  clear_buffer, buffered_frames, after_append, handle_data, receive_close, reply, buffered_control,
  handle_control, handle_fragment, protocol_hooks,
}
use eiows.Stream.Session.{CompressionStatus, disabled, enabled, compressed_frame, Codec, Session}
use eiows.Stream.Farewell.{close_frame-pong}
use eiows.Stream.Valid.{
  payload_limit, IsSmall, IsValid, contract, emit_frame-IsValid, send_close-closing, open-Leaving,
  send_close-Leaving, emit_close-IsValid, fail-closing, fail-IsValid,
}
use eiows.Stream.Hooks.Messages.{
  CodecLaws, StopSound, InflatedSound, fail_with-StopSound, inflate_payload-Sound,
  push_message-Sound,
}

too_large-IsSmall :
    (m n : ℕ) (bytes : Bytes) → length bytes ≤ n → too_large m n ≡ false → IsSmall m bytes
too_large-IsSmall m n bytes h e = ground arith

module _ {Context : Type 0} (codec : Codec Context) (laws : CodecLaws codec) (simd : Simd) (m : ℕ)
    (before : Bool) where
  abbrev Fine : Bool × Session Context → Type 0
  Fine = StopSound codec laws simd m before

  single_frame-case :
      (op : ℕ) (bytes : Bytes) (s : Session Context) (i : Inflated Context)
      → IsData op
      → IsSmall m bytes
      → IsValid simd m before s
      → InflatedSound codec laws simd m before i
      → Fine (elim i [
        | plain ↦ push_message codec simd op bytes [] (some bytes) s
        | inflated out s' ↦ push_message codec simd op out out none s'
        | broken s' ↦ (true, s')
      ])
  single_frame-case op bytes s plain d small v h =
      push_message-Sound codec laws simd m before op [] (some bytes) bytes s refl d small v
  single_frame-case op bytes s (inflated out s') d small v (v', small') =
      push_message-Sound codec laws simd m before op out none out s' refl d small' v'
  single_frame-case op bytes s (broken s') d small v (v', e) = (v', inr e)

  single_frame-Sound :
      (op : ℕ) (bytes : Bytes) (s : Session Context)
      → IsData op
      → IsSmall m bytes
      → IsValid simd m before s
      → Fine (single_frame codec simd op bytes s)
  unfolding single_frame
  single_frame-Sound op bytes s d small v =
      single_frame-case op bytes s _ d small v
        (inflate_payload-Sound codec laws simd m before s.compression_status bytes s v)

  buffered-Sound :
      (r : Bool × Session Context)
      → Fine r
      → Fine (r.0, if r.0 then r.1 else record r.1 { fragment_buffer = [] })
  buffered-Sound (true, s) h = h
  buffered-Sound (false, s) (v, h) = (
    record {
      same_limit = v.same_limit;
      acceptable = v.acceptable;
      close_state = v.close_state;
      sent = v.sent;
      in_order = v.in_order;
      unsent = v.unsent;
    },
    h,
  )

  abbrev AppendSound : Bool × Session Context → Type 0
  AppendSound r =
      ((r.0 ≡ false) × Fine (true, r.1))
      ⊎ ((r.0 ≡ true) × IsValid simd m before r.1 × IsSmall m r.1.fragment_buffer)

  append_fragment-Sound :
      (bytes : Bytes) (remaining : ℕ) (s : Session Context)
      → IsValid simd m before s
      → AppendSound (append_fragment codec simd bytes remaining s)
  unfolding append_fragment
  append_fragment-Sound bytes remaining s v =
      let buffer = s.fragment_buffer ++ bytes in
      let required = length s.fragment_buffer + length bytes + remaining in
      if_intro AppendSound (too_large s.max_payload required) _ _
        (λ e. inl (refl, fail_with-StopSound codec laws simd m before 1009 s v))
        (λ e. inr (
          refl,
          record {
            same_limit = v.same_limit;
            acceptable = v.acceptable;
            close_state = v.close_state;
            sent = v.sent;
            in_order = v.in_order;
            unsent = v.unsent;
          },
          too_large-IsSmall m required buffer (omega (arith, length-append s.fragment_buffer bytes))
              (subst (λ k. too_large k required ≡ false) v.same_limit e),
        ))

  buffered_frames-case :
      (op : ℕ) (s : Session Context) (i : Inflated Context)
      → IsData op
      → IsSmall m s.fragment_buffer
      → IsValid simd m before s
      → InflatedSound codec laws simd m before i
      → Fine (elim i [
        | plain ↦
            clear_buffer codec simd
              (push_message codec simd op s.fragment_buffer s.fragment_buffer none s)
        | inflated out s' ↦ clear_buffer codec simd (push_message codec simd op out out none s')
        | broken s' ↦ (true, s')
      ])
  buffered_frames-case op s plain d small v h =
      buffered-Sound (push_message codec simd op s.fragment_buffer s.fragment_buffer none s) (
        push_message-Sound codec laws simd m before op s.fragment_buffer none s.fragment_buffer s
          refl d small v)
  buffered_frames-case op s (inflated out s') d small v (v', small') =
      buffered-Sound (push_message codec simd op out out none s')
        (push_message-Sound codec laws simd m before op out none out s' refl d small' v')
  buffered_frames-case op s (broken s') d small v (v', e) = (v', inr e)

  buffered_frames-Sound :
      (op : ℕ) (s : Session Context)
      → IsData op
      → IsSmall m s.fragment_buffer
      → IsValid simd m before s
      → Fine (buffered_frames codec simd op s)
  unfolding buffered_frames
  buffered_frames-Sound op s d small v =
      buffered_frames-case op s _ d small v
        (inflate_payload-Sound codec laws simd m before s.compression_status s.fragment_buffer s v)

  after_append-Fine :
      (last : Bool) (op : ℕ) (r : Bool × Session Context)
      → IsData op
      → AppendSound r
      → Fine (after_append codec simd last op r)
  unfolding after_append
  after_append-Fine last op (false, s) d (inl (e, fine)) = fine
  after_append-Fine last op (true, s) d (inl (e, fine)) = absurd (cc e)
  after_append-Fine last op (false, s) d (inr (e, v, small)) = absurd (cc e)
  after_append-Fine last op (true, s) d (inr (e, v, small)) =
      if_intro Fine last (buffered_frames codec simd op s) (false, s)
        (λ _. buffered_frames-Sound op s d small v) (λ _. (v, inl refl))

  handle_data-Fine :
      (bytes : Bytes) (remaining op : ℕ) (fin : Bool) (s : Session Context)
      → IsData op
      → IsSmall m bytes
      → IsValid simd m before s
      → Fine (handle_data codec simd bytes remaining op fin s)
  unfolding handle_data
  handle_data-Fine bytes remaining op fin s d small v =
      let last = remaining == 0 && fin in
      if_intro Fine (last && is_empty s.fragment_buffer) (single_frame codec simd op bytes s)
        (after_append codec simd last op (append_fragment codec simd bytes remaining s))
        (λ e. single_frame-Sound op bytes s d small v)
        (λ e.
          after_append-Fine last op (append_fragment codec simd bytes remaining s) d
            (append_fragment-Sound bytes remaining s v))

  receive_close-Fine :
      (bytes : Bytes) (s : Session Context)
      → IsValid simd m before s
      → s.closing ≡ false
      → Fine (true, receive_close codec simd bytes s)
  unfolding receive_close
  receive_close-Fine bytes s v e =
      let cf = parse_close_payload simd bytes in
      let s' : Session Context = record s { closing = true } in
      let (leaving, sent) =
        send_close-Leaving simd m before cf.code (some cf.message) s'
          (open-Leaving simd m before s v e) in
      if_intro (λ (r : Session Context). Fine (true, r)) (cf.code == 1006) _ _
        (λ t. fail_with-StopSound codec laws simd m before 1002 s v)
        (λ t. (
          emit_close-IsValid simd m before cf.code cf.message _ leaving sent,
          inr (send_close-closing simd m before cf.code (some cf.message) s'),
        ))

  reply-IsValid :
      (op : ℕ) (bytes : Bytes) (s : Session Context)
      → IsValid simd m before s
      → IsValid simd m before (reply codec simd op bytes s)
  unfolding reply
  reply-IsValid op bytes s v =
      if_intro (IsValid simd m before) (op == OpCode.ping) _ _
        (λ e. emit_frame-IsValid simd m before _ s (close_frame-pong bytes) v) (λ e. v)

  buffered_control-Fine :
      (op : ℕ) (s : Session Context)
      → IsValid simd m before s
      → s.closing ≡ false
      → Fine (buffered_control codec simd op s)
  unfolding buffered_control
  buffered_control-Fine op s v e =
      let bytes = drop (length s.fragment_buffer - s.control_tip_length) s.fragment_buffer in
      let v' = reply-IsValid op bytes s v in
      if_intro Fine (op == OpCode.close) (true, receive_close codec simd bytes s)
        (
          false,
          record (reply codec simd op bytes s) {
            fragment_buffer =
                take (length s.fragment_buffer - s.control_tip_length) s.fragment_buffer;
            control_tip_length = 0;
          },
        )
        (λ t. receive_close-Fine bytes s v e)
        (λ t. (
          record {
            same_limit = v'.same_limit;
            acceptable = v'.acceptable;
            close_state = v'.close_state;
            sent = v'.sent;
            in_order = v'.in_order;
            unsent = v'.unsent;
          },
          inl refl,
        ))

  handle_control-Fine :
      (bytes : Bytes) (remaining op : ℕ) (fin : Bool) (s : Session Context)
      → IsValid simd m before s
      → s.closing ≡ false
      → Fine (handle_control codec simd bytes remaining op fin s)
  unfolding handle_control
  handle_control-Fine bytes remaining op fin s v e =
      let s' : Session Context = record s {
        fragment_buffer = s.fragment_buffer ++ bytes;
        control_tip_length = (s.control_tip_length + length bytes) % 2 ^ 8;
      } in
      let v' : IsValid simd m before s' = record {
        same_limit = v.same_limit;
        acceptable = v.acceptable;
        close_state = v.close_state;
        sent = v.sent;
        in_order = v.in_order;
        unsent = v.unsent;
      } in
      let last = remaining == 0 && fin in
      let whole : Bool × Session Context =
        if op == OpCode.close
        then (true, receive_close codec simd bytes s)
        else (false, reply codec simd op bytes s) in
      if_intro Fine (last && s.control_tip_length == 0) whole
        (if last then buffered_control codec simd op s' else (false, s'))
        (λ _.
          if_intro Fine (op == OpCode.close) (true, receive_close codec simd bytes s)
            (false, reply codec simd op bytes s) (λ _. receive_close-Fine bytes s v e)
            (λ _. (reply-IsValid op bytes s v, inl refl)))
        (λ _.
          if_intro Fine last (buffered_control codec simd op s') (false, s')
            (λ _. buffered_control-Fine op s' v' e) (λ _. (v', inl refl)))

  Fits-IsSmall :
      (bytes : Bytes) (remaining op : ℕ) (fin : Bool)
      → op < 3
      → Fits (payload_limit m) (length bytes + remaining) op fin
      → IsData op × IsSmall m bytes
  Fits-IsSmall bytes remaining op fin h (inl (d, k)) = (d, ground arith)
  Fits-IsSmall bytes remaining op fin h (inr (c, f, k)) = absurd (ground arith)

  handle_fragment-Fine :
      (bytes : Bytes) (remaining op : ℕ) (fin : Bool) (s : Session Context)
      → IsValid simd m before s
      → Fits (payload_limit m) (length bytes + remaining) op fin
      → Fine (handle_fragment codec simd bytes remaining op fin s)
  unfolding handle_fragment
  handle_fragment-Fine bytes remaining op fin s v fits =
      if_intro Fine s.closing (true, s)
        (if s.close_sent
            && not (op == OpCode.close)
            && not (op == OpCode.ping)
            && not (op == OpCode.pong)
          then (false, s)
          else if ltb op 3
          then handle_data codec simd bytes remaining op fin s
          else handle_control codec simd bytes remaining op fin s)
        (λ e. (v, inr e))
        (λ e.
          if_intro Fine
            (s.close_sent
              && not (op == OpCode.close)
              && not (op == OpCode.ping)
              && not (op == OpCode.pong))
            (false, s)
            (if ltb op 3
              then handle_data codec simd bytes remaining op fin s
              else handle_control codec simd bytes remaining op fin s)
            (λ _. (v, inl refl))
            (λ _.
              if_intro Fine (ltb op 3) (handle_data codec simd bytes remaining op fin s)
                (handle_control codec simd bytes remaining op fin s)
                (λ k.
                  let (d, small) = Fits-IsSmall bytes remaining op fin (ltb→lt op 3 k) fits in
                  handle_data-Fine bytes remaining op fin s d small v)
                (λ _. handle_control-Fine bytes remaining op fin s v e)))

  refuse_payload_length-fits :
      (n : ℕ) (s : Session Context)
      → IsValid simd m before s
      → (refuse_payload_length codec simd n s).0 ≡ false
      → n ≤ payload_limit m
  unfolding refuse_payload_length
  refuse_payload_length-fits n s v e = ground (arith, v.same_limit)

  refuse_payload_length-IsValid :
      (n : ℕ) (s : Session Context)
      → IsValid simd m before s
      → IsValid simd m before (refuse_payload_length codec simd n s).1
  unfolding refuse_payload_length
  refuse_payload_length-IsValid n s v =
      if_intro (λ (r : Bool × Session Context). IsValid simd m before r.1)
        (too_large s.max_payload n) (true, record s { failure_code = 1009 }) (false, s)
        (λ e. record {
          same_limit = v.same_limit;
          acceptable = v.acceptable;
          close_state = v.close_state;
          sent = v.sent;
          in_order = v.in_order;
          unsent = v.unsent;
        })
        (λ e. v)

  set_compressed-IsValid :
      (status : CompressionStatus) (s : Session Context)
      → IsValid simd m before s
      → IsValid simd m before (set_compressed_status codec simd status s).1
  unfolding set_compressed_status
  set_compressed-IsValid disabled s v = v
  set_compressed-IsValid enabled s v = record {
    same_limit = v.same_limit;
    acceptable = v.acceptable;
    close_state = v.close_state;
    sent = v.sent;
    in_order = v.in_order;
    unsent = v.unsent;
  }
  set_compressed-IsValid compressed_frame s v = v

  stop-closed : (r : Bool × Session Context) → Fine r → r.0 ≡ true → r.1.closing ≡ true
  stop-closed r (v, inl e) h = absurd (cc (e, h))
  stop-closed r (v, inr e) h = e

  -- The session is a client that the parser may have.
  pub protocol_hooks-HookLaws : HookLaws (protocol_hooks codec simd) (contract simd m before)
  unfolding set_compressed force_close
  protocol_hooks-HookLaws = record {
    limit_fits = ground arith;
    force_close-closed = λ s. fail-closing simd m before s.failure_code s;
    force_close-Holds = λ s v. fail-IsValid simd m before s.failure_code s v;
    set_compressed-Holds = λ s v. set_compressed-IsValid s.compression_status s v;
    refuse_payload_length-Holds = λ n s v. refuse_payload_length-IsValid n s v;
    not_refused-fits = λ n s v e. refuse_payload_length-fits n s v e;
    handle_fragment-closed = λ bytes remaining op fin s v fits stop.
        stop-closed (handle_fragment codec simd bytes remaining op fin s)
          (handle_fragment-Fine bytes remaining op fin s v fits) stop;
    handle_fragment-Holds =
        λ bytes remaining op fin s v fits. (handle_fragment-Fine bytes remaining op fin s v fits).0;
  }
