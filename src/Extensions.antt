-- ===== src/Extensions.antt =====
-- uWebSockets/src/Extensions.h and Extensions.cpp: the negotiation of permessage-deflate.
pub mod Offers
pub mod Negotiator
