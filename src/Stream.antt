-- ===== src/Stream.antt =====
-- uWebSockets/src/StreamWebSocket.h and StreamWebSocket.cpp: the socket-independent session.
pub mod Session
pub mod Hooks
pub mod Api
pub mod Farewell
pub mod Valid
pub mod Compression
