-- ===== src/Wan.antt =====
-- Geo replication, crates/wan/src: the record and message formats, and the durable queue of one
-- sender.
pub mod Record
pub mod Wire
pub mod Queue
