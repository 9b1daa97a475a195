-- ===== src/Cp.antt =====
-- The replicated objects of crates/raft/src: one module for each state machine, the registry that
-- dispatches to them, and the group member that drives them.
pub mod Wire
pub mod AtomicLong
pub mod FencedLock
pub mod CountDownLatch
pub mod Semaphore
pub mod Session
pub mod AtomicRef
pub mod CpMap
pub mod Machine
pub mod Group
pub mod Messages
