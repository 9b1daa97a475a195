-- ===== src/Persistence.antt =====
-- Local durability, crates/persistence/src: the records of the write-ahead log, the snapshots, and
-- what a restart applies to the store. Files are their bytes; the store is whatever `S` the caller
-- has, changed by StoreOp.
use bonsaigrid.Base.{ℕ, List, Bool}
use bonsaigrid.Base.Bytes.{Bytes}
pub mod Record
pub mod Snapshot
pub mod Recovery
pub mod Thread

-- The calls that recovery makes of the store: `put_merge`, `remove` and `install_aux`.
pub data StoreOp : Type 0 where
  put_merge : (map key value : Bytes) (ttl_ms stamp : ℕ) → StoreOp
  remove : (map key : Bytes) → StoreOp
  install_aux : (kind : ℕ) (name state : Bytes) → StoreOp
