-- ===== src/Protocol/OpCode.antt =====
-- OpCode of uWebSockets/src/WebSocketProtocol.h. The parser keeps the four bits of the wire and
-- casts them, so an opcode is a number.
use eiows.Common.{ℕ}

-- NONE
abbrev pub continuation : ℕ
continuation = 0

abbrev pub text : ℕ
text = 1

abbrev pub binary : ℕ
binary = 2

abbrev pub close : ℕ
close = 8

abbrev pub ping : ℕ
ping = 9

abbrev pub pong : ℕ
pong = 10
