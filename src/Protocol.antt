-- ===== src/Protocol.antt =====
-- uWebSockets/src/WebSocketProtocol.h: the parts of the frame parser and formatter.
pub mod Ascii
pub mod Utf8
pub mod Mask
pub mod OpCode
pub mod Frame
pub mod CloseFrame
pub mod State
pub mod Parser
