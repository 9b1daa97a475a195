-- ===== src/Tests/DurableRuns.antt =====
-- The theorems about the files of a durable log, crates/raft/src/log.rs, at concrete files.
use bonsaigrid.Base.{ℕ, ◌%◌, ◌^◌, ◌<◌, ◌≡◌, some, List, [], ◌∷◌, ◌++◌, arith}
use bonsaigrid.Base.Bytes.{Bytes, from_le}
use bonsaigrid.Raft.Log.{Entry}
use bonsaigrid.Raft.Durable.{
  DurableLog, DurableOp, appends, truncates, persists, vote_or_zero, rewrite_log, open_durable,
  append, run_ops,
}
use bonsaigrid.Raft.Durable.Format.{EntryFits}
use bonsaigrid.Raft.Durable.Recovery.{restart_recovers, append_behind_torn_lost}

-- A checksum of 32 bits.
abbrev crc : Bytes → ℕ
crc body = from_le body % 2 ^ 32

crc-lt : (body : Bytes) → crc body < 2 ^ 32
crc-lt body = omega arith

abbrev entry : ℕ → Bytes → Entry
entry i command = record { term = 3; index = i; command = command }

entry-fits : (i c : ℕ) → i < 100 → EntryFits (entry i (c ∷ []))
entry-fits i c h = record { term = omega arith; index = omega arith; size = omega arith }

abbrev history : List DurableOp
history =
    persists 3 (some 1)
    ∷ appends (entry 1 (7 ∷ []))
    ∷ appends (entry 2 (8 ∷ []))
    ∷ truncates 2
    ∷ appends (entry 2 (9 ∷ []))
    ∷ []

abbrev written : DurableLog
written = run_ops crc (open_durable crc [] []) history

restart_recovers_example :
    (open_durable crc (written.seg ++ 25 ∷ 0 ∷ []) written.meta).log ≡ written.log
unfolding vote_or_zero
restart_recovers_example =
    restart_recovers crc history (25 ∷ 0 ∷ []) crc-lt
      (
        (omega arith, omega arith),
        (
          entry-fits 1 7 (omega arith),
          (entry-fits 2 8 (omega arith), (tt, (entry-fits 2 9 (omega arith), tt))),
        ),
      )
      (omega arith)

abbrev zeros : Bytes
zeros = 0 ∷ 0 ∷ 0 ∷ 0 ∷ 0 ∷ 0 ∷ 0 ∷ 0 ∷ []

abbrev behind : DurableLog
behind =
    append crc (open_durable crc (rewrite_log crc (entry 1 (7 ∷ []) ∷ []) ++ zeros) [])
      (entry 2 (8 ∷ []))

append_behind_torn_lost_example :
    (behind.log.entries ≡ entry 1 (7 ∷ []) ∷ entry 2 (8 ∷ []) ∷ [])
    × ((open_durable crc behind.seg behind.meta).log.entries ≡ entry 1 (7 ∷ []) ∷ [])
append_behind_torn_lost_example =
    append_behind_torn_lost crc (entry 1 (7 ∷ []) ∷ []) zeros [] (entry 2 (8 ∷ [])) crc-lt
      (entry-fits 1 7 (omega arith), tt) (omega arith) (unfold from_le in omega arith)
