-- ===== src/Transport.antt =====
-- nodejs/src/native_transport.cpp: the frame headers that it writes, its write requests, and the
-- transport.
pub mod FrameHeader
pub mod WriteRequest
pub mod System
pub mod Close
pub mod Output
pub mod Submit
pub mod Input
pub mod Api
pub mod Ordered
pub mod TlsContexts
