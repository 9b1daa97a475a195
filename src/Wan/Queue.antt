-- ===== src/Wan/Queue.antt =====
-- crates/wan/src/queue.rs: the durable queue of one sender, with a cursor for each target. A queue
-- has the bytes of its three files, `records.log`, `base` and `cursors`. An I/O error ends the
-- operation in the source and is left out.
use bonsaigrid.Base.{
  ℕ, suc, ◌+◌, ◌-◌, ◌%◌, ◌^◌, Bool, Option, none, some, List, [], ◌∷◌, ◌++◌, map, length, take,
  drop, min, ltb, leb, add64, u64_mod, if◌then◌else◌,
}
use bonsaigrid.Base.Bytes.{Bytes, le_bytes, from_le}
use bonsaigrid.Base.Lossy.{from_utf8_lossy}
use bonsaigrid.Base.Maps.{bytes_beq}
use bonsaigrid.Frames.{read_all, write_all, unread}
use bonsaigrid.Wan.Record.{WanRecord, encode, next_record, read_records}
pub mod Cursors
pub mod Numbering
pub mod Sender
pub mod Files
pub mod Saved
pub mod Runs
pub mod Starts
pub mod Delivery

abbrev pub Cursors : Type 0
Cursors = List (Bytes × ℕ)

-- `cursors.get(target)`, `insert` and `entry(target).or_insert(0)`.
unfoldable pub find_cursor : Cursors → Bytes → Option ℕ
find_cursor [] target = none
find_cursor (c ∷ cs) target = if bytes_beq c.0 target then some c.1 else find_cursor cs target

unfoldable pub put_cursor : Cursors → Bytes → ℕ → Cursors
put_cursor [] target seq = (target, seq) ∷ []
put_cursor (c ∷ cs) target seq =
    let rest = put_cursor cs target seq in
    if bytes_beq c.0 target then (target, seq) ∷ cs else c ∷ rest

unfoldable pub or_insert : Cursors → Bytes → Cursors
or_insert cs target = elim (find_cursor cs target) [ none ↦ put_cursor cs target 0 | some c ↦ cs ]

unfoldable pub or_zero : Option ℕ → ℕ
or_zero none = 0
or_zero (some c) = c

unfoldable pub acked_in : Cursors → Bytes → ℕ
unfolding or_zero
acked_in cs target = or_zero (find_cursor cs target)

unfoldable pub least : ℕ → Cursors → ℕ
least m [] = m
least m (c ∷ cs) = least (min m c.1) cs

unfoldable pub min_cursor : Cursors → ℕ
min_cursor [] = 0
min_cursor (c ∷ cs) = least c.1 cs

-- The numbers that `open` gives to the records behind `seq`, and the last of them.
unfoldable pub number_from : ℕ → List WanRecord → List (ℕ × WanRecord)
number_from seq [] = []
number_from seq (r ∷ rs) = (add64 seq 1, r) ∷ number_from (add64 seq 1) rs

unfoldable pub last_seq : ℕ → List WanRecord → ℕ
last_seq seq [] = seq
last_seq seq (r ∷ rs) = last_seq (add64 seq 1) rs

-- `filter(|(s, _)| *s > c)`.
unfoldable pub above : ℕ → List (ℕ × WanRecord) → List (ℕ × WanRecord)
above c [] = []
above c (p ∷ ps) = let rest = above c ps in if ltb c p.0 then p ∷ rest else rest

-- `write_u64` and `read_u64`; an absent file is read as an empty one.
unfoldable pub write_u64 : ℕ → Bytes
write_u64 v = le_bytes 8 v

unfoldable pub read_u64 : Bytes → ℕ
read_u64 b = if leb 8 (length b) then from_le (take 8 b) else 0

-- An entry of the cursors file.
unfoldable pub encode_cursor : Bytes × ℕ → Bytes
encode_cursor c = le_bytes 4 (length c.0 % 2 ^ 32) ++ (c.0 ++ le_bytes 8 c.1)

-- `persist_cursors`: the bytes that it writes.
unfoldable pub cursor_bytes : Cursors → Bytes
cursor_bytes cs = write_all encode_cursor cs

-- One round of `read_cursors`: it stops where fewer bytes are left than an entry needs.
unfoldable pub next_cursor : Bytes → Option ((Bytes × ℕ) × Bytes)
next_cursor b =
    let n = from_le (take 4 b) in
    let rest = drop 4 b in
    let after = drop n rest in
    if leb 4 (length b)
    then if leb (n + 8) (length rest)
      then some ((from_utf8_lossy (take n rest), from_le (take 8 after)), drop 8 after)
      else none
    else none

unfoldable pub insert_all : Cursors → Cursors → Cursors
insert_all cs [] = cs
insert_all cs (c ∷ rest) = insert_all (put_cursor cs c.0 c.1) rest

-- An absent file is read as an empty one.
unfoldable pub read_cursors : Bytes → Cursors
read_cursors b = insert_all [] (read_all next_cursor (suc (length b)) b)

pub record WanQueue : Type 0 where
  pub records : List (ℕ × WanRecord)
  pub base_seq : ℕ
  pub next_seq : ℕ
  pub cursors : Cursors
  pub bytes : ℕ
  pub seg : Bytes
  pub base_file : Bytes
  pub cursor_file : Bytes

pub data QueueOp : Type 0 where
  appends : WanRecord → QueueOp
  acks : (target : Bytes) (up_to_seq : ℕ) → QueueOp
  targets : List Bytes → QueueOp
  reclaims : QueueOp

unfoldable pub add_targets : Cursors → List Bytes → Cursors
add_targets cs [] = cs
add_targets cs (t ∷ ts) = add_targets (or_insert cs t) ts

unfoldable pub set_targets : WanQueue → List Bytes → WanQueue
set_targets q ts = record q { cursors = add_targets q.cursors ts }

unfoldable pub target_acked : WanQueue → Bytes → ℕ
target_acked q target = acked_in q.cursors target

unfoldable pub unacked_for : WanQueue → Bytes → List (ℕ × WanRecord)
unacked_for q target = above (target_acked q target) q.records

unfoldable pub ack_target : WanQueue → Bytes → ℕ → WanQueue
ack_target q target up_to_seq =
    let capped = min up_to_seq (q.next_seq - 1) in
    let cs = or_insert q.cursors target in
    let moved = put_cursor cs target capped in
    if ltb (acked_in cs target) capped
    then record q { cursors = moved; cursor_file = cursor_bytes moved }
    else record q { cursors = cs }

unfoldable pub min_acked : WanQueue → ℕ
min_acked q = min_cursor q.cursors

-- `len`, the records that some target has not confirmed.
unfoldable pub unconfirmed : WanQueue → ℕ
unconfirmed q = length (above (min_acked q) q.records)

unfoldable pub would_exceed : WanQueue → ℕ → Bool
would_exceed q max_bytes = leb max_bytes q.bytes

-- `reclaim` behind the rename of the rewritten log.
unfoldable pub move_base : WanQueue → ℕ → WanQueue
move_base q floor = record q {
  base_seq = floor;
  base_file = write_u64 floor;
  bytes = length q.seg % u64_mod;
}

module _ (crc : Bytes → ℕ) where
  unfoldable pub open_queue : Bytes → Bytes → Bytes → WanQueue
  open_queue buf base_file cursor_file =
      let base = read_u64 base_file in
      let rs = read_records crc buf in
      record {
        records = number_from base rs;
        base_seq = base;
        next_seq = add64 (last_seq base rs) 1;
        cursors = read_cursors cursor_file;
        bytes = (length buf - length (unread (next_record crc) (suc (length buf)) buf)) % u64_mod;
        seg = buf;
        base_file = base_file;
        cursor_file = cursor_file;
      }

  unfoldable pub append : WanQueue → WanRecord → WanQueue
  append q r = record q {
    seg = q.seg ++ encode crc r;
    bytes = add64 q.bytes (length (encode crc r));
    next_seq = add64 q.next_seq 1;
    records = q.records ++ (q.next_seq, r) ∷ [];
  }

  -- `reclaim` up to the rename of the rewritten log.
  unfoldable pub compact_log : WanQueue → ℕ → WanQueue
  compact_log q floor =
      let kept = above floor q.records in
      record q { records = kept; seg = write_all (encode crc) (map (λ p. p.1) kept) }

  -- The queue, and how many records were reclaimed.
  unfoldable pub reclaim : WanQueue → WanQueue × ℕ
  unfolding compact_log move_base
  reclaim q =
      let floor = min_acked q in
      let compacted = compact_log q floor in
      if leb floor q.base_seq
      then (q, 0)
      else (move_base compacted floor, length q.records - length compacted.records)

  unfoldable pub run_op : WanQueue → QueueOp → WanQueue
  run_op q (appends r) = append q r
  run_op q (acks target up_to_seq) = ack_target q target up_to_seq
  run_op q (targets ts) = set_targets q ts
  run_op q reclaims = (reclaim q).0

  unfoldable pub run_ops : WanQueue → List QueueOp → WanQueue
  run_ops q [] = q
  run_ops q (op ∷ ops) = run_ops (run_op q op) ops

-- The records that a run appends.
unfoldable pub appended : List QueueOp → List WanRecord
appended [] = []
appended (appends r ∷ ops) = r ∷ appended ops
appended (acks target up_to_seq ∷ ops) = appended ops
appended (targets ts ∷ ops) = appended ops
appended (reclaims ∷ ops) = appended ops
