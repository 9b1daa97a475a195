-- ===== src/Persistence/Thread.antt =====
-- The disk state of the persistence thread, crates/server/src/persist_thread.rs: it appends records
-- to the current segment, and rolls to a new one with a snapshot. Results of writes are ignored
-- there, so a roll is given what became of the snapshot: its bytes, or `none` where it failed.
use bonsaigrid.Base.{
  ℕ, suc, ◌≤◌, ◌<◌, ◌≡◌, refl, ap, ◌∙◌, Bool, true, false, Option, none, some, List, [], ◌∷◌, ◌++◌,
  ltb, if◌then◌else◌, All, arith,
}
use bonsaigrid.Base.Bytes.{Bytes}
use bonsaigrid.Base.Blobs.{◌>>=◌}
use bonsaigrid.Persistence.Record.{Mutation, encode, read_segment, next_record, decode_record, past}
use bonsaigrid.Frames.{read_all}
use bonsaigrid.Persistence.Recovery.{
  Files, prune_below, last_gen, load_newest, replay, replay_segments, recover, latest_generation,
}
pub mod Rolls

-- The files behind the current segment, and the current segment.
pub record Disk : Type 0 where
  pub snapshots : Files
  pub segments : Files
  pub generation : ℕ
  pub current : Bytes

unfoldable pub all_segments : Disk → Files
all_segments d = d.segments ++ (d.generation, d.current) ∷ []

-- A start on the files that recovery has read.
unfoldable pub spawn : Files → Files → Disk
spawn snapshots segments = record {
  snapshots = snapshots;
  segments = segments;
  generation = suc (latest_generation segments snapshots);
  current = [];
}

-- One turn of the drain: `rx.pop()` gave a framed record.
unfoldable pub append_job : Disk → Bytes → Disk
append_job d bytes = record d { current = d.current ++ bytes }

unfoldable pub install : Files → ℕ → Option Bytes → Files
install fs gen none = fs
install fs gen (some snap) = fs ++ (gen, snap) ∷ []

-- The snapshot branch: roll, snapshot, remove the old segment, prune.
unfoldable pub roll : Disk → Option Bytes → Disk
roll d written = record {
  snapshots = prune_below (suc d.generation) (install d.snapshots (suc d.generation) written);
  segments = prune_below (suc d.generation) d.segments;
  generation = suc d.generation;
  current = [];
}

-- The drain of a list of mutations, which the sink has encoded.
unfoldable pub drain : (Bytes → ℕ) → Disk → List Mutation → Disk
drain crc d [] = d
drain crc d (m ∷ ms) = drain crc (append_job d (encode crc m)) ms
