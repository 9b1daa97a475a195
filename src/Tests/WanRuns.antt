-- ===== src/Tests/WanRuns.antt =====
-- The theorems about geo replication, crates/wan/src, at concrete records and runs.
use bonsaigrid.Base.{
  ℕ, ◌-◌, ◌%◌, ◌^◌, ◌≤◌, ◌<◌, ◌≡◌, refl, inl, inr, All, some, List, [], ◌∷◌, ◌++◌, length, drop,
  take, add64, arith,
}
use bonsaigrid.Base.Bytes.{Bytes, le_bytes, from_le, first_byte, valid_utf8}
use bonsaigrid.Base.Lossy.{from_utf8_lossy}
use bonsaigrid.Base.Maps.{bytes_beq}
use bonsaigrid.Frames.{read_all, write_all}
use bonsaigrid.Wan.Record.{WanRecord, put, aux, encode, decode, next_record, past, read_records}
use bonsaigrid.Wan.Record.Format.{RecordFits, encode_least}
use bonsaigrid.Wan.Wire
use bonsaigrid.Wan.Wire.{WanMsg, batch}
use bonsaigrid.Wan.Wire.RoundTrip.{decode_msg-encode_wan}
use bonsaigrid.Wan.Queue.{
  WanQueue, QueueOp, appends, acks, number_from, min_acked, target_acked, unacked_for, open_queue,
  compact_log, run_ops, appended, read_u64, last_seq, set_targets, add_targets, or_insert,
  encode_cursor, cursor_bytes, read_cursors, next_cursor, insert_all, find_cursor, put_cursor,
  acked_in, or_zero, ack_target, append, run_op,
}
use bonsaigrid.Wan.Queue.Files.{NameFits}
use bonsaigrid.Wan.Queue.Saved.{OpFits}
use bonsaigrid.Wan.Queue.Starts.{fresh}
use bonsaigrid.Wan.Queue.Delivery.{unacked_in_order, reopen_recovers, crashed_reclaim_skips}

-- A checksum of 32 bits.
abbrev crc : Bytes → ℕ
crc body = from_le body % 2 ^ 32

crc-lt : (body : Bytes) → crc body < 2 ^ 32
crc-lt body = omega arith

-- The record of a put into the map "m".
abbrev put_m : ℕ → WanRecord
put_m v = record { op = put; stamp = v; ttl_ms = 0; map = 109 ∷ []; key = 1 ∷ []; value = v ∷ [] }

put_m-fits : (v : ℕ) → v < 100 → RecordFits (put_m v)
unfolding valid_utf8
put_m-fits v h = record {
  stamp = omega arith;
  ttl_ms = omega arith;
  name = refl;
  size = omega arith;
}

abbrev aux_m : WanRecord
aux_m = record (put_m 5) { op = aux 7 }

aux_m-fits : RecordFits aux_m
aux_m-fits =
    let f = put_m-fits 5 (omega arith) in
    record { stamp = f.stamp; ttl_ms = f.ttl_ms; name = f.name; size = f.size }

decode_msg-encode_wan_example :
    Wire.decode_msg crc (Wire.encode_msg crc (batch 9 (put_m 1 ∷ aux_m ∷ [])))
    ≡ some (batch 9 (put_m 1 ∷ aux_m ∷ []))
decode_msg-encode_wan_example =
    decode_msg-encode_wan crc crc-lt (batch 9 (put_m 1 ∷ aux_m ∷ []))
      (omega arith, omega arith, (put_m-fits 1 (omega arith), (aux_m-fits, tt)))

abbrev here : Bytes
here = 104 ∷ []

abbrev there : Bytes
there = 116 ∷ []

-- Three records; one target has acknowledged two, the other one.
abbrev history : List QueueOp
history =
    appends (put_m 1) ∷ appends (put_m 2) ∷ acks here 2 ∷ appends (put_m 3) ∷ acks there 1 ∷ []

abbrev queue : WanQueue
queue = run_ops crc (fresh crc (here ∷ there ∷ [])) history

history-fits : All RecordFits (appended history)
unfolding appended
history-fits =
    (put_m-fits 1 (omega arith), (put_m-fits 2 (omega arith), (put_m-fits 3 (omega arith), tt)))

unacked_in_order_example :
    (unacked_for queue there
      ≡ number_from (target_acked queue there) (drop (target_acked queue there) (appended history)))
    × (target_acked queue there ≤ length (appended history))
unfolding appended
unacked_in_order_example =
    unacked_in_order crc (here ∷ there ∷ []) there history (inr (inl refl)) (omega arith)

targets-fit : All NameFits (here ∷ there ∷ [])
unfolding valid_utf8
targets-fit =
    (record { utf8 = refl; short = omega arith }, (record { utf8 = refl; short = omega arith }, tt))

history-OpFits : All OpFits history
history-OpFits = (tt, (tt, (targets-fit.0, (tt, (targets-fit.1.0, tt)))))

-- A file with the cursors of both targets, and one that was torn in the second.
two_cursors :
    read_cursors (cursor_bytes ((here, 2) ∷ (there, 1) ∷ [])) ≡ (here, 2) ∷ (there, 1) ∷ []
unfolding read_cursors read_all next_cursor insert_all put_cursor bytes_beq cursor_bytes write_all
    encode_cursor le_bytes from_le from_utf8_lossy first_byte
two_cursors = refl

torn_cursor : read_cursors (take 20 (cursor_bytes ((here, 2) ∷ (there, 1) ∷ []))) ≡ (here, 2) ∷ []
unfolding read_cursors read_all next_cursor insert_all put_cursor bytes_beq cursor_bytes write_all
    encode_cursor le_bytes from_le from_utf8_lossy first_byte
torn_cursor = refl

reopen_recovers_example :
    let o =
      open_queue crc (queue.seg ++ take 9 (encode crc aux_m)) queue.base_file queue.cursor_file in
    (o.records ≡ queue.records)
    × (o.base_seq ≡ queue.base_seq)
    × (o.next_seq ≡ queue.next_seq)
    × (o.bytes ≡ queue.bytes)
    × ((s : Bytes) → target_acked o s ≡ target_acked queue s)
reopen_recovers_example =
    reopen_recovers crc (here ∷ there ∷ []) there history aux_m 9 crc-lt (inr (inl refl))
      (unfold appended in omega arith) history-fits targets-fit history-OpFits aux_m-fits
      (omega (arith, encode_least crc aux_m))

queue-base : queue.base_seq ≡ 0
unfolding run_ops run_op append ack_target set_targets add_targets open_queue read_u64 read_records
    read_all next_record past decode last_seq add64 or_insert put_cursor find_cursor acked_in
    or_zero bytes_beq read_cursors insert_all next_cursor
queue-base = refl

crashed_reclaim_skips_example :
    unacked_for
      (open_queue crc
        (compact_log crc queue (min_acked queue)).seg
        queue.base_file
        queue.cursor_file)
      there
    ≡ number_from (target_acked queue there) (
        drop
          (target_acked queue there - queue.base_seq)
          (drop (min_acked queue) (appended history)))
crashed_reclaim_skips_example =
    crashed_reclaim_skips crc (here ∷ there ∷ []) there history crc-lt (inr (inl refl))
      (unfold appended in omega arith) history-fits targets-fit history-OpFits
      (omega (arith, queue-base))
