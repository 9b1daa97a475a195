-- ===== src/Raft.antt =====
-- crates/raft/src: the log, one consensus node, the group of nodes, and the replicated objects.
pub mod Log
pub mod Node
pub mod Cluster
pub mod Durable
