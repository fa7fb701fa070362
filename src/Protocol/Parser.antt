-- ===== src/Protocol/Parser.antt =====
-- The parser of uWebSockets/src/WebSocketProtocol.h: consumeMessage, consumeContinuation, consume.
-- `src` and `length` are one list, what is left of the buffer. The parser unmasks in place, over
-- bytes that it has read; what it writes is what it hands to its owner.
pub mod Invariant
pub mod Preserve
pub mod Loop
use eiows.Common.{
  ℕ, zero, suc, ◌+◌, ◌-◌, ◌*◌, ◌%◌, ◌^◌, bit_and, Bool, true, false, not, ◌&&◌, ◌||◌, List, [], ◌∷◌,
  ◌++◌, leb, ltb, ◌==◌, if◌then◌else◌, Bytes, length, take, drop,
}
use eiows.Protocol.Ascii.{Simd}
use eiows.Protocol.Frame.{
  byte_at, is_fin, is_masked, get_op_code, payload_length, rsv23, rsv1, read_uint16_be,
  read_uint64_be, nonzero, short_message_header, medium_message_header, long_message_header,
}
use eiows.Protocol.Mask.{Mask, unmask, unmask_remaining, rotate_mask}
use eiows.Protocol.OpCode
use eiows.Protocol.State.{
  WebSocketState, current_op_code, push_op_code, pop_op_code, store_spill, Hooks,
}

-- What consumeMessage returns: true, or false with the bytes behind the message. For
-- consumeContinuation it is the other way round.
pub data Outcome (C : Type 0) : Type 0 where
  finished : WebSocketState → C → Outcome C
  more : Bytes → WebSocketState → C → Outcome C

-- A guard of consumeMessage: the state so far, and whether the parser goes on with it.
pub record Guard : Type 0 where
  pub go : Bool
  pub state : WebSocketState

abbrev pass : WebSocketState → Guard
pass w = record { go = true; state = w }

abbrev fault : WebSocketState → Guard
fault w = record { go = false; state = w }

-- A message must not begin inside another one, nor be continued where none has begun.
pub check_fragmentation : ℕ → Bool → WebSocketState → Guard
check_fragmentation op_code fin w =
    if op_code == OpCode.text || op_code == OpCode.binary
    then if w.fragmented_message then fault w else pass (record w { fragmented_message = not fin })
    else if op_code == OpCode.continuation
    then if not w.fragmented_message
      then fault w
      else pass (if fin then record w { fragmented_message = false } else w)
    else pass w

pub check_op_stack : ℕ → WebSocketState → Guard
check_op_stack op_code w =
    if nonzero op_code
    then if w.op_stack == 2 then fault w else pass (push_op_code op_code w)
    else if w.op_stack == 0
    then fault w
    else pass w

-- memcpy of the four bytes of the mask
abbrev pub read_mask : Bytes → Mask
read_mask src = record {
  m0 = byte_at src 0;
  m1 = byte_at src 1;
  m2 = byte_at src 2;
  m3 = byte_at src 3;
}

-- The other tests on the first two bytes.
pub invalid_header : Bytes → Bool
invalid_header src =
    let op_code = get_op_code src in
    rsv23 src
    || (ltb 2 op_code && ltb op_code 8)
    || ltb 10 op_code
    || (ltb 2 op_code && (not (is_fin src) || ltb 125 (payload_length src)))

-- if (length & 3) rotateMask(...), which the early return for `stop` skips.
abbrev pub next_mask : Bool → ℕ → Mask → Mask
next_mask stop n mask =
    if not stop && nonzero (bit_and n 3) then rotate_mask (4 - bit_and n 3) mask else mask

module _ {C : Type 0} (hooks : Hooks C) (simd : Simd) where
  open hooks use {refuse_payload_length, set_compressed, force_close, handle_fragment}

  -- opCode <= BINARY && refusePayloadLength(...)
  pub refuses : ℕ → ℕ → C → Bool × C
  refuses op_code pay_length c =
      if leb op_code OpCode.binary then refuse_payload_length pay_length c else (false, c)

  -- The frame lies in the buffer whole.
  pub whole_message : ℕ → ℕ → Bool → Bytes → WebSocketState → C → Outcome C
  whole_message pay_length header fin src w c =
      let mask = read_mask (drop (header - 4) src) in
      let payload = unmask simd mask (take pay_length (drop header src)) in
      let (stop, c') = handle_fragment payload 0 (current_op_code w) fin c in
      if stop
      then finished w c'
      else more (drop (pay_length + header) src)
          (record (if fin then pop_op_code w else w) { spill_length = 0 }) c'

  -- The buffer ends inside the payload.
  pub first_part : ℕ → ℕ → Bool → Bytes → WebSocketState → C → Outcome C
  first_part pay_length header fin src w c =
      let mask = read_mask (drop (header - 4) src) in
      let payload = unmask simd mask (drop header src) in
      let remaining = (pay_length + header - length src) % 2 ^ 32 in
      let (_, c') = handle_fragment payload remaining (current_op_code w) fin c in
      finished
        (record w {
          spill_length = 0;
          wants_head = false;
          remaining_bytes = remaining;
          mask = rotate_mask (4 - bit_and (length src - header) 3) mask;
        })
        c'

  pub consume_message : ℕ → ℕ → Bytes → WebSocketState → C → Outcome C
  consume_message pay_length header src w c =
      let op_code = get_op_code src in
      let fin = is_fin src in
      let begun = check_fragmentation op_code fin w in
      let stacked = check_op_stack op_code begun.state in
      let w' = record stacked.state { last_fin = fin } in
      let (refused, c') = refuses op_code pay_length c in
      if not begun.go
      then finished begun.state (force_close c)
      else if not stacked.go
      then finished stacked.state (force_close c)
      else if refused
      then finished w' (force_close c')
      else if leb (pay_length + header) (length src)
      then whole_message pay_length header fin src w' c'
      else first_part pay_length header fin src w' c'

  -- The rest of the payload lies in the buffer whole.
  pub last_part : Bytes → WebSocketState → C → Outcome C
  last_part src w c =
      let payload = unmask_remaining simd w.mask (take w.remaining_bytes src) in
      let (stop, c') = handle_fragment payload 0 (current_op_code w) w.last_fin c in
      if stop
      then finished w c'
      else more (drop w.remaining_bytes src)
          (record (if w.last_fin then pop_op_code w else w) { wants_head = true }) c'

  -- The buffer ends inside the payload again.
  pub middle_part : Bytes → WebSocketState → C → Outcome C
  middle_part src w c =
      let payload = unmask simd w.mask src in
      let rest = w.remaining_bytes - length src in
      let (stop, c') = handle_fragment payload rest (current_op_code w) w.last_fin c in
      finished (record w { remaining_bytes = rest; mask = next_mask stop (length src) w.mask }) c'

  pub consume_continuation : Bytes → WebSocketState → C → Outcome C
  consume_continuation src w c =
      if leb w.remaining_bytes (length src) then last_part src w c else middle_part src w c

  -- rsv1(src) && (opCode == 0 || opCode > 2 || !setCompressed(...))
  pub invalid_compressed_frame : Bytes → C → Bool × C
  invalid_compressed_frame src c =
      let op_code = get_op_code src in
      let (set, c') = set_compressed c in
      if rsv1 src
      then if op_code == 0 || ltb 2 op_code then (true, c) else (not set, c')
      else (false, c)

  -- The payload's length, by the length field.
  pub consume_by_length : Bytes → WebSocketState → C → Outcome C
  consume_by_length src w c =
      let medium = read_uint16_be (drop 2 src) in
      let long = read_uint64_be (drop 2 src) in
      if ltb (payload_length src) 126
      then consume_message (payload_length src) short_message_header src w c
      else if payload_length src == 126
      then if ltb medium 126
        then finished w (force_close c)
        else consume_message medium medium_message_header src w c
      else if nonzero (bit_and long (2 ^ 63)) || leb long 0xffff
      then finished w (force_close c)
      else consume_message long long_message_header src w c

  -- One round of the loop, once the header is there whole.
  pub consume_frame : Bytes → WebSocketState → C → Outcome C
  consume_frame src w c =
      let (invalid, c') = invalid_compressed_frame src c in
      if not (is_masked src) || invalid || invalid_header src
      then finished w (force_close c')
      else consume_by_length src w c'

-- headerLength
pub header_length : Bytes → ℕ
header_length src =
    if ltb (payload_length src) 126
    then short_message_header
    else if payload_length src == 126
    then medium_message_header
    else long_message_header

-- The loop's test, and the break out of it.
pub has_header : Bytes → Bool
has_header src = leb short_message_header (length src) && leb (header_length src) (length src)

module _ {C : Type 0} (hooks : Hooks C) (simd : Simd) where
  -- parseNext. A round takes six bytes at least, so `length src` rounds are enough.
  pub parse_next : ℕ → Bytes → WebSocketState → C → WebSocketState × C
  parse_next zero src w c = (store_spill src w, c)
  parse_next (suc fuel) src w c = elim (has_header src) [
    | false ↦ (store_spill src w, c)
    | true ↦ elim (consume_frame hooks simd src w c) [
      | finished w' c' ↦ (w', c')
      | more src' w' c' ↦ parse_next fuel src' w' c'
    ]
  ]

  -- goto parseNext, where the frame has been read to its end.
  pub continue_with : Outcome C → WebSocketState × C
  continue_with (finished w c) = (w, c)
  continue_with (more src w c) = parse_next (length src) src w c

  pub consume : Bytes → WebSocketState → C → WebSocketState × C
  consume src w c =
      let src' = if nonzero w.spill_length then take w.spill_length w.spill ++ src else src in
      if w.wants_head
      then parse_next (length src') src' w c
      else continue_with (consume_continuation hooks simd src' w c)
