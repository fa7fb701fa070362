-- ===== src/Protocol/State.antt =====
-- WebSocketState of uWebSockets/src/WebSocketProtocol.h, and WebSocketProtocolHooks, through which
-- the parser calls its owner.
use eiows.Common.{
  ℕ, ◌+◌, ◌%◌, Bool, true, false, [], ◌++◌, ◌==◌, if◌then◌else◌, Bytes, length, drop,
}
use eiows.Protocol.Mask.{Mask}

-- `op_stack` is opStack + 1 modulo 4, for the signed field of two bits: 0 stands for -1, 1 and 2
-- for the places of the array opCode, and 3 for -2. `op_code0` and `op_code1` are that array.
-- `spill` is the array of 13 bytes, of which the first `spill_length` count.
pub record WebSocketState : Type 0 where
  pub wants_head : Bool
  pub spill_length : ℕ
  pub op_stack : ℕ
  pub last_fin : Bool
  pub fragmented_message : Bool
  pub spill : Bytes
  pub op_code0 : ℕ
  pub op_code1 : ℕ
  pub remaining_bytes : ℕ
  pub mask : Mask

abbrev pub initial_state : WebSocketState
initial_state = record {
  wants_head = true;
  spill_length = 0;
  op_stack = 0;
  last_fin = true;
  fragmented_message = false;
  spill = [];
  op_code0 = 0;
  op_code1 = 0;
  remaining_bytes = 0;
  mask = record { m0 = 0; m1 = 0; m2 = 0; m3 = 0 };
}

-- opCode[opStack]; out of the array where the stack is empty.
unfoldable pub current_op_code : WebSocketState → ℕ
current_op_code w =
    if w.op_stack == 1 then w.op_code0 else if w.op_stack == 2 then w.op_code1 else 0

-- opCode[++opStack] = op_code
unfoldable pub push_op_code : ℕ → WebSocketState → WebSocketState
push_op_code op_code w =
    if w.op_stack == 0
    then record w { op_stack = 1; op_code0 = op_code }
    else if w.op_stack == 1
    then record w { op_stack = 2; op_code1 = op_code }
    else record w { op_stack = (w.op_stack + 1) % 4 }

-- opStack--
unfoldable pub pop_op_code : WebSocketState → WebSocketState
pop_op_code w = record w { op_stack = (w.op_stack + 3) % 4 }

-- memcpy(spill, src, length); spillLength = length; the field has four bits.
unfoldable pub store_spill : Bytes → WebSocketState → WebSocketState
store_spill src w =
    if length src == 0
    then w
    else record w { spill = src ++ drop (length src) w.spill; spill_length = length src % 16 }

-- The owner's state is of the type C. The parser hands over the payload bytes, the number of bytes
-- of the frame still to come, the opcode of the message and whether the frame is the last.
pub record Hooks (C : Type 0) : Type 0 where
  pub refuse_payload_length : ℕ → C → Bool × C
  pub set_compressed : C → Bool × C
  pub force_close : C → C
  pub handle_fragment : Bytes → ℕ → ℕ → Bool → C → Bool × C
