-- ===== src/Raft/Durable.antt =====
-- The files of a durable log in crates/raft/src/log.rs: `entries.log` and `meta`. The checksum of
-- the crate crc32fast is the parameter `crc`. An I/O error is a panic in the source and is left out.
use bonsaigrid.Base.{
  ℕ, suc, ◌+◌, ◌-◌, ◌%◌, ◌^◌, ◌≡◌, Bool, true, false, ◌||◌, Option, none, some, List, [], ◌∷◌, ◌++◌,
  length, take, drop, get_or, ltb, ◌==◌, not, if◌then◌else◌,
}
use bonsaigrid.Base.Bytes.{Bytes, le_bytes, from_le}
use bonsaigrid.Frames.{read_all, write_all, frame}
use bonsaigrid.Raft.Log
use bonsaigrid.Raft.Log.{Entry, RaftLog}
pub mod Format
pub mod Recovery

-- `write_meta` and `read_meta`.
unfoldable pub has_vote : Option ℕ → ℕ
has_vote none = 0
has_vote (some v) = 1

unfoldable pub vote_or_zero : Option ℕ → ℕ
vote_or_zero none = 0
vote_or_zero (some v) = v

unfoldable pub write_meta : ℕ → Option ℕ → Bytes
write_meta term vote = le_bytes 8 term ++ (has_vote vote ∷ le_bytes 8 (vote_or_zero vote))

-- A file that is absent is read as one that is empty.
unfoldable pub read_meta : Bytes → ℕ × Option ℕ
read_meta buf = if ltb (length buf) 17 then (0, none) else (
  from_le (take 8 buf),
  (if not (get_or buf 8 0 == 0) then some (from_le (take 8 (drop 9 buf))) else none),
)

unfoldable pub entry_body : Entry → Bytes
entry_body e = le_bytes 8 e.term ++ (le_bytes 8 e.index ++ e.command)

-- The entry of a body that is long enough.
unfoldable pub body_entry : Bytes → Entry
body_entry body = record {
  term = from_le (take 8 body);
  index = from_le (take 8 (drop 8 body));
  command = drop 16 body;
}

-- A log with its two files.
pub record DurableLog : Type 0 where
  pub log : RaftLog
  pub seg : Bytes
  pub meta : Bytes

-- What changes the files.
pub data DurableOp : Type 0 where
  appends : Entry → DurableOp
  truncates : ℕ → DurableOp
  persists : (term : ℕ) (vote : Option ℕ) → DurableOp

module _ (crc : Bytes → ℕ) where
  unfoldable pub frame_entry : Entry → Bytes
  frame_entry e = frame crc (entry_body e)

  -- One round of the loop of `read_log`: `none` is a `break`, or the end of the loop.
  unfoldable pub next_entry : Bytes → Option (Entry × Bytes)
  next_entry buf =
      let len = from_le (take 4 buf) in
      let body = take (len - 4) (drop 8 buf) in
      if ltb (length buf) 8
      then none
      else if ltb len 20 || ltb (length buf) (4 + len)
      then none
      else if crc body == from_le (take 4 (drop 4 buf))
      then some (body_entry body, drop (4 + len) buf)
      else none

  unfoldable pub read_log : Bytes → List Entry
  read_log buf = read_all next_entry (suc (length buf)) buf

  unfoldable pub rewrite_log : List Entry → Bytes
  rewrite_log es = write_all frame_entry es

  unfoldable pub open_durable : Bytes → Bytes → DurableLog
  open_durable seg meta = record {
    log = record {
      entries = read_log seg;
      term = (read_meta meta).0;
      vote = (read_meta meta).1;
      durable = true;
      snapshot_index = 0;
      snapshot_term = 0;
    };
    seg = seg;
    meta = meta;
  }

  unfoldable pub append : DurableLog → Entry → DurableLog
  append d e = record d { log = Log.append d.log e; seg = d.seg ++ frame_entry e }

  unfoldable pub truncate_from : DurableLog → ℕ → DurableLog
  truncate_from d index =
      let l = Log.truncate_from d.log index in record d { log = l; seg = rewrite_log l.entries }

  unfoldable pub persist_term_vote : DurableLog → ℕ → Option ℕ → DurableLog
  persist_term_vote d term vote = record d {
    log = Log.persist_term_vote d.log term vote;
    meta = write_meta term vote;
  }

  unfoldable pub run_op : DurableLog → DurableOp → DurableLog
  run_op d (appends e) = append d e
  run_op d (truncates index) = truncate_from d index
  run_op d (persists term vote) = persist_term_vote d term vote

  unfoldable pub run_ops : DurableLog → List DurableOp → DurableLog
  run_ops d [] = d
  run_ops d (op ∷ ops) = run_ops (run_op d op) ops
