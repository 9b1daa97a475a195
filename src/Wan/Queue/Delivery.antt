-- ===== src/Wan/Queue/Delivery.antt =====
-- What the queue of crates/wan/src/queue.rs promises to each of its targets, across restarts and
-- crashes.
use bonsaigrid.Base.{
  ℕ, suc, ◌+◌, ◌-◌, ◌%◌, ◌^◌, ◌≤◌, ◌<◌, ◌≡◌, refl, sym, ap, ◌∙◌, none, List, [], ◌++◌, append-nil,
  map, length, length-append, length-drop, drop, take, add64, add64-eq_of_lt, u64_mod, Elem, All,
  All-drop, arith,
}
use bonsaigrid.Base.Bytes.{Bytes}
use bonsaigrid.Frames.{read_all_recovers, unread, unread_recovers, write_all}
use bonsaigrid.Wan.Record.{WanRecord, encode, decode, next_record, past, read_records}
use bonsaigrid.Wan.Record.Format.{RecordFits, encode-IsFormat, next_record-prefix}
use bonsaigrid.Wan.Queue.{
  acked_in, number_from, last_seq, above, read_u64, WanQueue, QueueOp, target_acked, unacked_for,
  min_acked, open_queue, compact_log, run_ops, appended,
}
use bonsaigrid.Wan.Queue.Cursors.{acked_in-find}
use bonsaigrid.Wan.Queue.Numbering.{map-number_from, above-number_from, last_seq-length}
use bonsaigrid.Wan.Queue.Sender.{IsSender, kept-records}
use bonsaigrid.Wan.Queue.Files.{NameFits}
use bonsaigrid.Wan.Queue.Saved.{OpFits, IsSaved, saved_cursors}
use bonsaigrid.Wan.Queue.Starts.{fresh, sent-IsSender, sent-IsSaved}

module _ (crc : Bytes → ℕ) where
  target_acked-Known :
      {t : Bytes} {all : List WanRecord} {q : WanQueue} (v : IsSender crc t all q)
      → target_acked q t ≡ v.known.at
  unfolding target_acked
  target_acked-Known {t} {q} v = acked_in-find q.cursors t v.known.at v.known.found

  -- Whatever a new queue appends, acknowledges, registers and reclaims, the records that a target
  -- of its configuration has still to be sent are exactly the appended ones behind those that it
  -- has acknowledged, in order and under their numbers, for fewer than 2^64 - 1 records.
  pub unacked_in_order :
      (ts : List Bytes) (t : Bytes) (ops : List QueueOp)
      → Elem t ts
      → suc (length (appended ops)) < u64_mod
      → let q = run_ops crc (fresh crc ts) ops in
        let acked = target_acked q t in
        (unacked_for q t ≡ number_from acked (drop acked (appended ops)))
        × (acked ≤ length (appended ops))
  unfolding unacked_for
  unacked_in_order ts t ops h small =
      let q = run_ops crc (fresh crc ts) ops in
      let v = sent-IsSender crc ts t ops h small in
      let e = target_acked-Known v in
      (
        kept-records crc t (appended ops) q (target_acked q t) v
            (omega (arith, e, v.known.retained)),
        omega (arith, e, v.known.capped),
      )

  reads_back :
      {t : Bytes} {all : List WanRecord} {q : WanQueue} (torn : Bytes)
      → ((body : Bytes) → crc body < 2 ^ 32)
      → IsSender crc t all q
      → All RecordFits all
      → next_record crc torn ≡ none
      → (read_records crc (q.seg ++ torn) ≡ drop q.base_seq all)
        × (unread (next_record crc) (suc (length (q.seg ++ torn))) (q.seg ++ torn) ≡ torn)
  unfolding read_records
  reads_back {all} {q} torn small v fits stop =
      let rs = drop q.base_seq all in
      let f = encode-IsFormat crc small in
      let ok = All-drop RecordFits q.base_seq all fits in
      (
        ap (λ s. read_records crc (s ++ torn)) v.seg ∙ read_all_recovers f rs torn ok stop,
        ap (λ s. unread (next_record crc) (suc (length (s ++ torn))) (s ++ torn)) v.seg
            ∙ unread_recovers f rs torn ok stop,
      )

  reopened :
      {t : Bytes} {all : List WanRecord} {q : WanQueue} (torn : Bytes)
      → ((body : Bytes) → crc body < 2 ^ 32)
      → IsSender crc t all q
      → IsSaved q
      → All RecordFits all
      → next_record crc torn ≡ none
      → let o = open_queue crc (q.seg ++ torn) q.base_file q.cursor_file in
        (o.records ≡ q.records)
        × (o.base_seq ≡ q.base_seq)
        × (o.next_seq ≡ q.next_seq)
        × (o.bytes ≡ q.bytes)
        × ((s : Bytes) → target_acked o s ≡ target_acked q s)
  unfolding open_queue target_acked
  reopened {all} {q} torn small v w fits stop =
      let (rs, rest) = reads_back torn small v fits stop in
      let b = q.base_seq in
      let total : b + length (drop b all) ≡ length all =
        omega (arith, length-drop b all, v.known.retained, v.known.capped) in
      let last : last_seq b (drop b all) ≡ length all =
        omega (arith, last_seq-length b (drop b all) (omega (arith, total, v.small)), total) in
      (
        ap (λ n. number_from n (read_records crc (q.seg ++ torn))) v.base_file
            ∙ ap (number_from b) rs
            ∙ sym v.retained,
        v.base_file,
        ap (λ n. add64 (last_seq n (read_records crc (q.seg ++ torn))) 1) v.base_file
            ∙ ap (λ xs. add64 (last_seq b xs) 1) rs
            ∙ ap (λ n. add64 n 1) last
            ∙ omega (arith, add64-eq_of_lt (length all) 1 (omega (arith, v.small)), v.next),
        ap (λ bs. (length (q.seg ++ torn) - length bs) % u64_mod) rest
            ∙ ap (λ n. n % u64_mod) (omega (arith, length-append q.seg torn))
            ∙ sym v.bytes,
        λ s. saved_cursors q s w,
      )

  -- A restart, also after a crash that left an incomplete frame of a further record, finds the
  -- records, the base, the next number and the size of the queue as they were, and the number that
  -- each target has acknowledged (0 for a target with no cursor). This is for a queue that was started
  -- with its targets and has run any operations, for fewer than 2^64 - 1 records that fit their
  -- frames, names of targets that are UTF-8 and shorter than 2^32 bytes, and a checksum that is a u32.
  pub reopen_recovers :
      (ts : List Bytes) (t : Bytes) (ops : List QueueOp) (r : WanRecord) (n : ℕ)
      → ((body : Bytes) → crc body < 2 ^ 32)
      → Elem t ts
      → suc (length (appended ops)) < u64_mod
      → All RecordFits (appended ops)
      → All NameFits ts
      → All OpFits ops
      → RecordFits r
      → n < length (encode crc r)
      → let q = run_ops crc (fresh crc ts) ops in
        let o = open_queue crc (q.seg ++ take n (encode crc r)) q.base_file q.cursor_file in
        (o.records ≡ q.records)
        × (o.base_seq ≡ q.base_seq)
        × (o.next_seq ≡ q.next_seq)
        × (o.bytes ≡ q.bytes)
        × ((s : Bytes) → target_acked o s ≡ target_acked q s)
  reopen_recovers ts t ops r n small h few fits names ops_fit fit cut =
      reopened (take n (encode crc r)) small (sent-IsSender crc ts t ops h few)
        (sent-IsSaved crc ts ops names ops_fit) fits (next_record-prefix crc r n small fit cut)

  next_record-nil : next_record crc [] ≡ none
  unfolding next_record decode past
  next_record-nil = refl

  compacted_reads :
      {t : Bytes} {all : List WanRecord} {q : WanQueue} (floor : ℕ)
      → ((body : Bytes) → crc body < 2 ^ 32)
      → IsSender crc t all q
      → All RecordFits all
      → q.base_seq ≤ floor
      → read_records crc (compact_log crc q floor).seg ≡ drop floor all
  unfolding compact_log read_records
  compacted_reads {t} {all} {q} floor small v fits h =
      let rs = drop floor all in
      let kept = kept-records crc t all q floor v h in
      let seg : write_all (encode crc) (map (λ p. p.1) (above floor q.records))
          ≡ write_all (encode crc) rs ++ [] =
        ap (λ ps. write_all (encode crc) (map (λ p. p.1) ps)) kept
        ∙ ap (write_all (encode crc)) (map-number_from floor rs)
        ∙ sym (append-nil (write_all (encode crc) rs)) in
      ap (read_records crc) seg
      ∙ read_all_recovers (encode-IsFormat crc small) rs [] (All-drop RecordFits floor all fits)
          next_record-nil

  -- A crash inside a reclaim, behind the rename of the log and before the new base is written,
  -- makes the next start number the retained records from the old base. A target is then not sent
  -- the first `acked - base` of them, of which it has acknowledged only `acked - floor`, and the
  -- others come under numbers that are too low.
  pub crashed_reclaim_skips :
      (ts : List Bytes) (t : Bytes) (ops : List QueueOp)
      → ((body : Bytes) → crc body < 2 ^ 32)
      → Elem t ts
      → suc (length (appended ops)) < u64_mod
      → All RecordFits (appended ops)
      → All NameFits ts
      → All OpFits ops
      → (run_ops crc (fresh crc ts) ops).base_seq ≤ min_acked (run_ops crc (fresh crc ts) ops)
      → let q = run_ops crc (fresh crc ts) ops in
        let floor = min_acked q in
        let acked = target_acked q t in
        let o = open_queue crc (compact_log crc q floor).seg q.base_file q.cursor_file in
        unacked_for o t ≡ number_from acked (drop (acked - q.base_seq) (drop floor (appended ops)))
  unfolding unacked_for open_queue target_acked
  crashed_reclaim_skips ts t ops small h few fits names ops_fit low =
      let all = appended ops in
      let q = run_ops crc (fresh crc ts) ops in
      let v = sent-IsSender crc ts t ops h few in
      let floor = min_acked q in
      let acked = acked_in q.cursors t in
      let rs = drop floor all in
      let bound : q.base_seq + length rs < u64_mod =
        omega (arith, length-drop floor all, low, few, v.known.retained, v.known.capped) in
      ap
        (λ n.
          above n
            (number_from (read_u64 q.base_file) (read_records crc (compact_log crc q floor).seg)))
        (saved_cursors q t (sent-IsSaved crc ts ops names ops_fit))
      ∙ ap (λ n. above acked (number_from n (read_records crc (compact_log crc q floor).seg)))
          v.base_file
      ∙ ap (λ xs. above acked (number_from q.base_seq xs)) (compacted_reads floor small v fits low)
      ∙ above-number_from acked q.base_seq rs
          (omega (arith, v.known.retained, acked_in-find q.cursors t v.known.at v.known.found))
          bound
