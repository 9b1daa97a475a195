-- ===== src/Lib.antt =====
-- Models and theorems of BonsaiGrid's consensus subsystem, crates/raft (the Raft log and node, a group
-- of members that exchange messages, and the replicated objects that a group applies its committed
-- commands to), of the ring that its threads share, crates/spsc, of its geo replication, crates/wan,
-- of its local durability, crates/persistence, of its clients' messages, crates/protocol, and of the
-- stores of its maps, crates/store.
--
-- How the parts interact. A RaftNode owns a RaftLog. `step` handles a message of another member and
-- `tick` the passing of time; both may send messages. `propose` appends a client's command on the
-- leader, `advance_commit` moves the commit index, and `take_committed` hands the committed commands,
-- in order, to the state machines of the CP objects. `maybe_compact` then drops what they hold. A
-- durable log keeps its entries, its term and its vote in two files. Geo replication takes records off
-- a ring, keeps them in a durable queue with a cursor for each target, and sends each target what it
-- has not acknowledged. Local durability logs each change of the store in segments, rolls to a new
-- segment with a snapshot, and applies the newest snapshot and the later segments at a restart. The store keeps the
-- entries of the maps in shards. A shard is a table of records with open addressing over a slab that
-- holds the bytes; `find` and `put` probe the table, `put` lets it grow first and may evict an entry
-- afterwards. Every write has a stamp of the member's hybrid clock, by which merges choose.
--
-- Which file models which part:
--   Base           shared types and lemmas: lists and options over the native numbers, 64-bit words
--                  (Base/Words), little-endian bytes and UTF-8 (Base/Bytes, Base/Lossy), length-prefixed strings
--                  (Base/Blobs), i64 and i32 (Base/Int),
--                  HashMap as a function from keys (Base/Maps).
--   Frames         the streams of frames `[length][checksum][body]` that crates/raft/src/log.rs and
--                  crates/wan/src/record.rs write and read, and the loop over them.
--   Spsc           crates/spsc/src/lib.rs: the shared indices and slots, and a step for each access that
--                  `push` and `pop` make to them.
--   Raft/Log       crates/raft/src/log.rs: Entry and RaftLog, with the operations under their names.
--   Raft/Durable   the files of a durable log, crates/raft/src/log.rs: `open_durable`, `append`,
--                  `truncate_from` and `persist_term_vote` with the bytes that they read and write.
--   Raft/Node      crates/raft/src/lib.rs: RaftMsg, Role and RaftNode. Raft/Node/Timers has `new`, the
--                  random numbers and the timeouts; Raft/Node/Elections the votes and the append
--                  messages that a leader sends; Raft/Node/Replication proposals, `on_append`, its
--                  replies, the commit rule, the drain and compaction; Raft/Node/Handlers `step` and
--                  `tick`. The other modules below Raft/Node are proofs.
--   Raft/Cluster   a group: the members, every message ever sent, and the step relation. A message may
--                  be delivered late, twice or never; a restart keeps the term and the vote that were
--                  persisted, with any entries.
--   Cp/Wire        what the command codecs share, with CpReply of crates/raft/src/cp.rs.
--   Cp/AtomicLong  crates/raft/src/atomiclong.rs.
--   Cp/FencedLock  crates/raft/src/fencedlock.rs.
--   Cp/CountDownLatch, Cp/Semaphore, Cp/AtomicRef, Cp/CpMap, Cp/Session
--                  countdownlatch.rs, semaphore.rs, atomicref.rs, cpmap.rs and session.rs there. Maps
--                  that the source walks or counts are association lists, the others functions.
--   Cp/Machine     CpSm of crates/raft/src/cp.rs: the commands by the kind of object, and the locks
--                  that the end of a session frees.
--   Cp/Group       CpGroup there: a member with its node, its machine and its clients' operations.
--   Cp/Messages    the wire format of CpMsg there.
--   Wan/Record, Wan/Wire
--                  crates/wan/src/record.rs and wire.rs.
--   Wan/Queue      crates/wan/src/queue.rs: WanQueue with its files. `open` is `open_queue` and `len` is
--                  `unconfirmed` here; `reclaim` is split at the rename of the log into `compact_log` and
--                  `move_base`.
--   Persistence/Record
--                  crates/persistence/src/record.rs and the reader of wal.rs.
--   Persistence/Snapshot, Persistence/Recovery
--                  snapshot.rs and lib.rs there. The store is seen by the calls made of it, StoreOp.
--   Persistence/Thread
--                  the disk state of crates/server/src/persist_thread.rs.
--   Protocol/Message
--                  crates/protocol/src/frame.rs.
--   Store/Entry, Store/Probe
--                  the records of a shard's table and the probe loops over it, crates/store/src/lib.rs.
--   Store/Slab     crates/store/src/slab.rs.
--   Store/Inner    the shard, Inner of crates/store/src/lib.rs, with the operations under their names:
--                  Store/Inner has the lookup, the growth and the eviction, Store/Inner/Writes the
--                  writes. A step of a loop or a branch is a definition of its own (`find_at`, `fill`,
--                  `overwrite`, `bury`).
--                  Store/Inner/Contents sees a shard as a map from keys to values; the other modules
--                  below Store/Inner are proofs.
--   Store/Stamp    the clock of the stamps there.
--   Tests          the theorems and the code at concrete states.
--
-- Conventions. A HashMap that the source walks is a list here, walked in the list's order, which the
-- source does not fix: Cp/Machine/Order compares two machines whose sessions stand in different
-- orders. usize and u64 are natural numbers below 2^64. A sum, difference or product that the source
-- computes with `+`, `-` or `*` wraps as in a release build (add64, sub64, mul64), and `wrapping_` and
-- `saturating_` operations are what they say. An index out of a vector's range is a panic in the
-- source; here a read gives a default and a write changes nothing. The members of a group are 0 up to
-- its size, so that the indices of its vectors are in range. Strings are the bytes of their UTF-8. A
-- handler returns the messages that the source pushes to `out`, in that order. The field `leader` of
-- RaftNode is `leader_id` here, since `leader` is a Role. Loops are structural recursions over the
-- lists that the source walks, or over the distance between two indices, except for the loop over the
-- frames of a file or the entries of the cursors file: its fuel is one more than the file has bytes,
-- which is enough since none is empty (Frames.read_all_recovers), and for the two readers of client
-- messages, which have no bound in the source: their fuel is an argument. The checksum of the crate
-- crc32fast is the parameter `crc`, of which only its width is assumed.
--
-- The store. The probe loops have no bound in the source; here they make as many rounds as the table
-- has slots, which is enough (Store.Inner.Runs.run_returns), and an operation that would need more is
-- `none`. `put` takes each of its three readings of the clock as a number of its own; `find` reads the
-- clock once, where the source reads it again for `last_access_ms`. The seeds that the counter of
-- `rand_idx` gives to an eviction are an argument. The lengths of keys and values, the slots of the
-- slab and the ids of maps are u32 and wrap. A free list is kept with its last element first. The
-- index of a map belongs to the query engine: the calls of `update_indexes` are recorded. A shard's
-- lock makes its operations a sequence.
--
-- The ring. A load of the other side's index may see any value from the one that the side saw last up
-- to the present one, as acquire and release allow; the indices wrap at 2^64, and the slot `i & mask`
-- of a capacity that is a power of two is `i % cap`.
--
-- Not modelled. I/O errors, and an unfinished write other than a torn tail of a log. The
-- destructor of the ring. debug_assert! lines. Of the stores the scans of a shard, the
-- queues, lists, sets and other structures, and the sinks. The other crates: the queries, the
-- codecs of the client protocol and its fragments, serialization, security, streaming, and the
-- server with its other threads and its sockets.
pub mod Base
pub mod Spsc
pub mod Frames
pub mod Raft
pub mod Cp
pub mod Wan
pub mod Persistence
pub mod Protocol
pub mod Store
pub mod Tests
