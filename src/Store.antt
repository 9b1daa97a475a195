-- ===== src/Store.antt =====
-- One shard of the store, crates/store/src: the slab allocator that holds the bytes of the entries,
-- and the open-addressing table over it.
pub mod Entry
pub mod Probe
pub mod Slab
pub mod Inner
pub mod Stamp
