-- ===== src/Protocol/Parser/Invariant.antt =====
-- What the parser's state is between two reads, and that every read keeps it so until the owner
-- closes the connection.
use eiows.Common.{
  ℕ, ◌+◌, ◌^◌, ◌≤◌, ◌<◌, ◌≡◌, ◌⊎◌, inl, inr, Bool, true, false, not, ◌||◌, arith, ltb, ◌==◌,
  if◌then◌else◌, Bool-cases, Bytes, length,
}
use eiows.Protocol.Frame.{is_fin, get_op_code, payload_length}
use eiows.Protocol.Parser.{
  Outcome, finished, more, check_fragmentation, check_op_stack, invalid_header, has_header,
  header_length,
}
use eiows.Protocol.State.{WebSocketState, current_op_code, push_op_code, pop_op_code, Hooks}

abbrev pub IsData : ℕ → Type 0
IsData op = (op ≡ 1) ⊎ (op ≡ 2)

abbrev pub IsControl : ℕ → Type 0
IsControl op = (op ≡ 8) ⊎ (op ≡ 9) ⊎ (op ≡ 10)

-- Between two frames: no message has begun, or a data message waits for its next frame.
pub data Between (w : WebSocketState) : Type 0 where
  idle : w.op_stack ≡ 0 → w.fragmented_message ≡ false → Between w
  fragmented : w.op_stack ≡ 1 → w.fragmented_message ≡ true → IsData w.op_code0 → Between w

-- Inside a payload: of a data frame, of a control frame, or of a control frame inside a message.
pub data Inside (w : WebSocketState) : Type 0 where
  in_data : w.op_stack ≡ 1 → w.fragmented_message ≡ not w.last_fin → IsData w.op_code0 → Inside w
  in_control :
      w.op_stack ≡ 1
      → w.fragmented_message ≡ false
      → w.last_fin ≡ true
      → IsControl w.op_code0
      → Inside w
  in_nested :
      w.op_stack ≡ 2
      → w.fragmented_message ≡ true
      → w.last_fin ≡ true
      → IsData w.op_code0
      → IsControl w.op_code1
      → Inside w

-- A payload of so many bytes may be handed over: a data message has at most `limit`, a control
-- frame is whole and has at most 125.
abbrev pub Fits : ℕ → ℕ → ℕ → Bool → Type 0
Fits limit size op_code fin =
    (IsData op_code × (size ≤ limit)) ⊎ (IsControl op_code × (fin ≡ true) × (size ≤ 125))

abbrev pub Place : ℕ → Bool → WebSocketState → Type 0
Place limit true w = Between w
Place limit false w =
    Inside w
    × (w.spill_length ≡ 0)
    × (0 < w.remaining_bytes)
    × Fits limit w.remaining_bytes (current_op_code w) w.last_fin

pub record IsValid (limit : ℕ) (w : WebSocketState) : Type 0 where
  pub spill_fits : w.spill_length ≤ 13
  pub place : Place limit w.wants_head w

-- What the parser and its owner promise each other: the owner's state is `closed` once it was told
-- to close the connection or has asked the parser to stop, its invariant `Holds` at all times, and
-- it accepts payloads of data frames up to `limit`.
pub record Contract (C : Type 0) : Type 1 where
  pub closed : C → Bool
  pub Holds : C → Type 0
  pub limit : ℕ

pub record HookLaws {C : Type 0} (hooks : Hooks C) (k : Contract C) : Type 0 where
  pub limit_fits : k.limit < 2 ^ 32
  pub force_close-closed : (c : C) → k.closed (hooks.force_close c) ≡ true
  pub force_close-Holds : (c : C) → k.Holds c → k.Holds (hooks.force_close c)
  pub set_compressed-Holds : (c : C) → k.Holds c → k.Holds (hooks.set_compressed c).1
  pub refuse_payload_length-Holds :
      (n : ℕ) (c : C) → k.Holds c → k.Holds (hooks.refuse_payload_length n c).1
  pub not_refused-fits :
      (n : ℕ) (c : C) → k.Holds c → (hooks.refuse_payload_length n c).0 ≡ false → n ≤ k.limit
  pub handle_fragment-closed :
      (payload : Bytes) (remaining op_code : ℕ) (fin : Bool) (c : C)
      → k.Holds c
      → Fits k.limit (length payload + remaining) op_code fin
      → (hooks.handle_fragment payload remaining op_code fin c).0 ≡ true
      → k.closed (hooks.handle_fragment payload remaining op_code fin c).1 ≡ true
  pub handle_fragment-Holds :
      (payload : Bytes) (remaining op_code : ℕ) (fin : Bool) (c : C)
      → k.Holds c
      → Fits k.limit (length payload + remaining) op_code fin
      → k.Holds (hooks.handle_fragment payload remaining op_code fin c).1

-- The header tests leave these opcodes, and control frames whole and short.
pub data Opens (op : ℕ) (fin : Bool) : Type 0 where
  opens_data : (op ≡ 0) ⊎ IsData op → Opens op fin
  opens_control : IsControl op → fin ≡ true → Opens op fin

pub invalid_header-Opens :
    (src : Bytes) → invalid_header src ≡ false → Opens (get_op_code src) (is_fin src)
unfolding invalid_header
invalid_header-Opens src h = elim (Bool-cases (ltb 2 (get_op_code src))) [
  | inl control ↦ opens_control (ground arith) (ground arith)
  | inr not_control ↦ opens_data (ground arith)
]

pub control-short :
    (src : Bytes) → invalid_header src ≡ false → 2 < get_op_code src → payload_length src ≤ 125
unfolding invalid_header
control-short src h k = ground arith

pub has_header-le :
    (src : Bytes)
    → has_header src ≡ true
    → (if ltb (payload_length src) 126 then 6 else if payload_length src == 126 then 8 else 14)
      ≤ length src
unfolding has_header header_length
has_header-le src h = ground arith

pub invalid_parts : (a b d : Bool) → (a || b || d) ≡ false → d ≡ false
invalid_parts a b d h = ground arith

-- The state behind both guards: the frame's message is on top of the stack.
pub guards-Inside :
    (op : ℕ) (fin : Bool) (w : WebSocketState)
    → Between w
    → Opens op fin
    → (check_fragmentation op fin w).go ≡ true
    → (check_op_stack op (check_fragmentation op fin w).state).go ≡ true
    → Inside
        (record (check_op_stack op (check_fragmentation op fin w).state).state { last_fin = fin })
unfolding check_fragmentation check_op_stack push_op_code
guards-Inside op fin w (idle s f) (opens_data (inl e)) g k = absurd (ground arith)
guards-Inside op fin w (idle s f) (opens_data (inr e)) g k =
    in_data (ground arith) (ground arith) (ground arith)
guards-Inside op fin w (idle s f) (opens_control e l) g k =
    in_control (ground arith) (ground arith) (ground arith) (ground arith)
guards-Inside op fin w (fragmented s f d) (opens_data (inl e)) g k =
    in_data (ground arith) (ground arith) (ground arith)
guards-Inside op fin w (fragmented s f d) (opens_data (inr e)) g k = absurd (ground arith)
guards-Inside op fin w (fragmented s f d) (opens_control e l) g k =
    in_nested (ground arith) (ground arith) (ground arith) (ground arith) (ground arith)

-- The payload of the frame that passed both guards fits, as its length was tested.
pub guards-Fits :
    (limit n op : ℕ) (fin : Bool) (w : WebSocketState)
    → Between w
    → Opens op fin
    → (check_fragmentation op fin w).go ≡ true
    → (check_op_stack op (check_fragmentation op fin w).state).go ≡ true
    → (op ≤ 2 → n ≤ limit)
    → (2 < op → n ≤ 125)
    → Fits limit n
        (current_op_code (record (check_op_stack op (check_fragmentation op fin w).state).state {
          last_fin = fin;
        }))
        fin
unfolding check_fragmentation check_op_stack push_op_code current_op_code
guards-Fits limit n op fin w (idle s f) (opens_data (inl e)) g k d c = absurd (ground arith)
guards-Fits limit n op fin w (idle s f) (opens_data (inr e)) g k d c =
    inl (ground arith, ground arith)
guards-Fits limit n op fin w (idle s f) (opens_control e l) g k d c =
    inr (ground arith, l, ground arith)
guards-Fits limit n op fin w (fragmented s f t) (opens_data (inl e)) g k d c =
    inl (ground arith, ground arith)
guards-Fits limit n op fin w (fragmented s f t) (opens_data (inr e)) g k d c = absurd (ground arith)
guards-Fits limit n op fin w (fragmented s f t) (opens_control e l) g k d c =
    inr (ground arith, l, ground arith)

pub guards_head :
    (op : ℕ) (fin : Bool) (w : WebSocketState)
    → (check_op_stack op (check_fragmentation op fin w).state).state.wants_head ≡ w.wants_head
unfolding check_fragmentation check_op_stack push_op_code
guards_head op fin w = ground arith

-- At the end of a frame's payload.
pub pop_op_code-Between :
    (w : WebSocketState) → Inside w → Between (if w.last_fin then pop_op_code w else w)
unfolding pop_op_code
pop_op_code-Between w (in_data s f d) = elim (Bool-cases w.last_fin) [
  | inl fin ↦ rw fin (idle (ground arith) (ground arith))
  | inr more' ↦ rw more' (fragmented s (ground arith) d)
]
pop_op_code-Between w (in_control s f l d) = rw l (idle (ground arith) (ground arith))
pop_op_code-Between w (in_nested s f l d c) =
    rw l (fragmented (ground arith) (ground arith) (ground arith))

-- The states after any part of the parser: the owner's invariant holds, and the parser's state is
-- valid, unless the owner has closed.
abbrev pub Sound : {C : Type 0} → Contract C → WebSocketState → C → Type 0
Sound k w c = k.Holds c × ((k.closed c ≡ true) ⊎ IsValid k.limit w)

abbrev pub SoundOutcome : {C : Type 0} → Contract C → Outcome C → Type 0
SoundOutcome k (finished w c) = Sound k w c
SoundOutcome k (more src w c) =
    k.Holds c × Between w × (w.wants_head ≡ true) × (w.spill_length ≤ 13)

pub Between-ext :
    (w : WebSocketState) (n : ℕ) (b : Bool)
    → Between w
    → Between (record w { spill_length = n; wants_head = b })
Between-ext w n b (idle s f) = idle s f
Between-ext w n b (fragmented s f d) = fragmented s f d

pub pop_op_code_head :
    (w : WebSocketState) → (if w.last_fin then pop_op_code w else w).wants_head ≡ w.wants_head
unfolding pop_op_code
pop_op_code_head w = ground arith

pub pop_op_code_spill :
    (w : WebSocketState) → (if w.last_fin then pop_op_code w else w).spill_length ≡ w.spill_length
unfolding pop_op_code
pop_op_code_spill w = ground arith

pub Inside-ext :
    (w v : WebSocketState)
    → w.op_stack ≡ v.op_stack
    → w.fragmented_message ≡ v.fragmented_message
    → w.last_fin ≡ v.last_fin
    → w.op_code0 ≡ v.op_code0
    → w.op_code1 ≡ v.op_code1
    → Inside w
    → Inside v
Inside-ext w v s f l p q (in_data a b d) = in_data (ground arith) (ground arith) (ground arith)
Inside-ext w v s f l p q (in_control a b k d) =
    in_control (ground arith) (ground arith) (ground arith) (ground arith)
Inside-ext w v s f l p q (in_nested a b k d e) =
    in_nested (ground arith) (ground arith) (ground arith) (ground arith) (ground arith)
