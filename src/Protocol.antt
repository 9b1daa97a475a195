-- ===== src/Protocol.antt =====
-- The envelope of the client protocol, crates/protocol/src.
pub mod Message
