-- ===== src/Wan/Queue/Starts.antt =====
-- A queue of crates/wan/src/queue.rs that starts with its targets and runs.
use bonsaigrid.Base.{ℕ, suc, ◌<◌, refl, List, [], length, add64, u64_mod, Elem, All, arith}
use bonsaigrid.Base.Bytes.{Bytes}
use bonsaigrid.Frames.{read_all, unread, write_all}
use bonsaigrid.Wan.Record.{decode, next_record, read_records}
use bonsaigrid.Wan.Queue.{
  find_cursor, acked_in, or_zero, number_from, last_seq, read_u64, WanQueue, QueueOp, next_cursor,
  insert_all, read_cursors, set_targets, open_queue, run_ops, appended,
}
use bonsaigrid.Wan.Queue.Cursors.{find_cursor-add_targets_known}
use bonsaigrid.Wan.Queue.Runs.{run_ops-IsSender}
use bonsaigrid.Wan.Queue.Sender.{IsSender}
use bonsaigrid.Wan.Queue.Files.{NameFits}
use bonsaigrid.Wan.Queue.Saved.{
  OpFits, IsSaved, set_targets-IsSaved, run_ops-IsSaved, no_file-IsSaved,
}

module _ (crc : Bytes → ℕ) where
  -- A queue that is opened with no files, and its configured targets.
  abbrev pub fresh : List Bytes → WanQueue
  fresh ts = set_targets (open_queue crc [] [] []) ts

  fresh-IsSender : (ts : List Bytes) (t : Bytes) → Elem t ts → IsSender crc t [] (fresh ts)
  unfolding set_targets open_queue read_cursors insert_all read_records read_all unread next_record
      decode read_u64 number_from last_seq write_all add64 next_cursor
  fresh-IsSender ts t h = record {
    retained = refl;
    next = refl;
    known = record {
      at = acked_in [] t;
      found = find_cursor-add_targets_known ts [] t h;
      retained = omega arith;
      capped = unfold acked_in find_cursor or_zero in omega arith;
    };
    small = omega arith;
    seg = refl;
    base_file = refl;
    bytes = refl;
  }

  pub sent-IsSender :
      (ts : List Bytes) (t : Bytes) (ops : List QueueOp)
      → Elem t ts
      → suc (length (appended ops)) < u64_mod
      → IsSender crc t (appended ops) (run_ops crc (fresh ts) ops)
  sent-IsSender ts t ops h small =
      run_ops-IsSender crc t ops [] (fresh ts) (fresh-IsSender ts t h) (omega arith)

  fresh-IsSaved : (ts : List Bytes) → All NameFits ts → IsSaved (fresh ts)
  unfolding open_queue read_cursors insert_all read_records read_all next_record decode read_u64
      last_seq add64 next_cursor
  fresh-IsSaved ts names =
      set_targets-IsSaved (open_queue crc [] [] []) ts
        (no_file-IsSaved (open_queue crc [] [] []) refl refl (omega arith)) names

  pub sent-IsSaved :
      (ts : List Bytes) (ops : List QueueOp)
      → All NameFits ts
      → All OpFits ops
      → IsSaved (run_ops crc (fresh ts) ops)
  sent-IsSaved ts ops names fits = run_ops-IsSaved crc ops (fresh ts) (fresh-IsSaved ts names) fits
