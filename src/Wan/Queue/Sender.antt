-- ===== src/Wan/Queue/Sender.antt =====
-- What holds of a queue of crates/wan/src/queue.rs through every operation.
use bonsaigrid.Base.{
  ℕ, suc, ◌+◌, ◌-◌, ◌%◌, ◌≤◌, ◌<◌, ◌≡◌, refl, sym, ap, subst, ◌∙◌, true, Bool-cases, inl, inr, some,
  List, [], ◌∷◌, ◌++◌, map, length, length-append, length-drop, append-nil, drop, drop-drop, take,
  take-all, drop-append_left, min, ltb, leb, add64, add64-eq_of_lt, u64_mod, arith,
}
use bonsaigrid.Base.Bytes.{Bytes, le_bytes, length-le_bytes, from_le-le_bytes}
use bonsaigrid.Base.Maps.{bytes_beq, bytes_beq_iff}
use bonsaigrid.Frames.{write_all, write_all-append}
use bonsaigrid.Wan.Record.{WanRecord, encode}
use bonsaigrid.Wan.Queue.{
  Cursors, find_cursor, put_cursor, or_insert, acked_in, min_cursor, number_from, above, write_u64,
  read_u64, cursor_bytes, WanQueue, add_targets, set_targets, ack_target, min_acked, append,
  compact_log, move_base, reclaim,
}
use bonsaigrid.Wan.Queue.Cursors.{
  find_cursor-put_cursor, find_cursor-put_cursor_ne, find_cursor-or_insert, acked_in-find,
  find_cursor-add_targets, min_cursor_le,
}
use bonsaigrid.Wan.Queue.Numbering.{map-number_from, number_from-append, above-number_from}

-- Where a target's cursor stands: at or behind the base, within the records appended so far.
pub record Known (t : Bytes) (base total : ℕ) (cs : Cursors) : Type 0 where
  pub at : ℕ
  pub found : find_cursor cs t ≡ some at
  pub retained : base ≤ at
  pub capped : at ≤ total

module _ (crc : Bytes → ℕ) where
  -- The queue that has been given the records `all`, in that order, and knows the target `t`.
  pub record IsSender (t : Bytes) (all : List WanRecord) (q : WanQueue) : Type 0 where
    pub retained : q.records ≡ number_from q.base_seq (drop q.base_seq all)
    pub next : q.next_seq ≡ suc (length all)
    pub known : Known t q.base_seq (length all) q.cursors
    pub small : suc (length all) < u64_mod
    pub seg : q.seg ≡ write_all (encode crc) (drop q.base_seq all)
    pub base_file : read_u64 q.base_file ≡ q.base_seq
    pub bytes : q.bytes ≡ length q.seg % u64_mod

  base_le :
      {t : Bytes} {all : List WanRecord} {q : WanQueue} → IsSender t all q → q.base_seq ≤ length all
  base_le v = omega (arith, v.known.retained, v.known.capped)

  bytes_add : (q : WanQueue) (n m : ℕ) → q.bytes ≡ n % u64_mod → add64 q.bytes m ≡ (n + m) % u64_mod
  unfolding add64
  bytes_add q n m h = omega (arith, h)

  pub append-IsSender :
      (t : Bytes) (all : List WanRecord) (q : WanQueue) (r : WanRecord)
      → IsSender t all q
      → suc (suc (length all)) < u64_mod
      → IsSender t (all ++ r ∷ []) (append crc q r)
  unfolding append write_all
  append-IsSender t all q r v h =
      let b = q.base_seq in
      let le = base_le v in
      let past = drop-append_left b all (r ∷ []) le in
      let total = length-append all (r ∷ []) in
      let last : b + length (drop b all) ≡ length all = omega (arith, length-drop b all) in
      record {
        retained =
            ap (λ ps. ps ++ (q.next_seq, r) ∷ []) v.retained
            ∙ ap (λ n. number_from b (drop b all) ++ (n, r) ∷ []) (v.next ∙ ap suc (sym last))
            ∙ sym (number_from-append b (drop b all) r (omega (arith, last)))
            ∙ ap (number_from b) (sym past);
        next = omega (arith, v.next, total, add64-eq_of_lt q.next_seq 1 (omega (arith, v.next)));
        known = record {
          at = v.known.at;
          found = v.known.found;
          retained = v.known.retained;
          capped = omega (arith, v.known.capped, total);
        };
        small = omega (arith, total);
        seg =
            ap (λ s. s ++ encode crc r) v.seg
            ∙ ap (λ s. write_all (encode crc) (drop b all) ++ s) (sym (append-nil (encode crc r)))
            ∙ sym (write_all-append (encode crc) (drop b all) (r ∷ []))
            ∙ ap (write_all (encode crc)) (sym past);
        base_file = v.base_file;
        bytes =
            bytes_add q (length q.seg) (length (encode crc r)) v.bytes
            ∙ ap (λ n. n % u64_mod) (sym (length-append q.seg (encode crc r)));
      }

  with_cursors :
      (t : Bytes) (all : List WanRecord) (q : WanQueue) (cs : Cursors) (file : Bytes)
      → IsSender t all q
      → Known t q.base_seq (length all) cs
      → IsSender t all (record q { cursors = cs; cursor_file = file })
  with_cursors t all q cs file v k = record {
    retained = v.retained;
    next = v.next;
    known = k;
    small = v.small;
    seg = v.seg;
    base_file = v.base_file;
    bytes = v.bytes;
  }

  pub set_targets-IsSender :
      (t : Bytes) (all : List WanRecord) (q : WanQueue) (ts : List Bytes)
      → IsSender t all q
      → IsSender t all (set_targets q ts)
  unfolding set_targets
  set_targets-IsSender t all q ts v =
      with_cursors t all q (add_targets q.cursors ts) q.cursor_file v (record {
        at = v.known.at;
        found = find_cursor-add_targets ts q.cursors t v.known.at v.known.found;
        retained = v.known.retained;
        capped = v.known.capped;
      })

  moved-Known :
      (t s : Bytes) (base total capped : ℕ) (cs : Cursors)
      → Known t base total cs
      → capped ≤ total
      → acked_in cs s < capped
      → Known t base total (put_cursor cs s capped)
  moved-Known t s base total capped cs k h less = elim (Bool-cases (bytes_beq s t)) [
    | inl e ↦
        let same : s ≡ t = (bytes_beq_iff s t).0 e in
        record {
          at = capped;
          found =
              subst (λ u. find_cursor (put_cursor cs s capped) u ≡ some capped) same
                (find_cursor-put_cursor cs s capped);
          retained =
              omega
                (arith, k.retained, less, ap (acked_in cs) same, acked_in-find cs t k.at k.found);
          capped = h;
        }
    | inr ne ↦ record {
      at = k.at;
      found = find_cursor-put_cursor_ne cs s t capped ne ∙ k.found;
      retained = k.retained;
      capped = k.capped;
    }
  ]

  pub ack_target-IsSender :
      (t : Bytes) (all : List WanRecord) (q : WanQueue) (s : Bytes) (n : ℕ)
      → IsSender t all q
      → IsSender t all (ack_target q s n)
  unfolding ack_target
  ack_target-IsSender t all q s n v =
      let cs = or_insert q.cursors s in
      let capped = min n (q.next_seq - 1) in
      let moved = put_cursor cs s capped in
      let k : Known t q.base_seq (length all) cs = record {
        at = v.known.at;
        found = find_cursor-or_insert q.cursors s t v.known.at v.known.found;
        retained = v.known.retained;
        capped = v.known.capped;
      } in
      elim (Bool-cases (ltb (acked_in cs s) capped)) [
        | inl less ↦ rw less (
            with_cursors t all q moved (cursor_bytes moved) v (
              moved-Known t s q.base_seq (length all) capped cs k (omega (arith, v.next))
                (ground (arith, less))))
        | inr same ↦ rw same (with_cursors t all q cs q.cursor_file v k)
      ]

  read_u64-write_u64 : (v : ℕ) → v < u64_mod → read_u64 (write_u64 v) ≡ v
  unfolding read_u64 write_u64
  read_u64-write_u64 v h =
      let full : leb 8 (length (le_bytes 8 v)) ≡ true = ground (arith, length-le_bytes 8 v) in
      let same : take 8 (le_bytes 8 v) ≡ le_bytes 8 v =
        take-all 8 (le_bytes 8 v) (omega (arith, length-le_bytes 8 v)) in
      rw (full, same) (from_le-le_bytes 8 v h)

  -- What a reclaim keeps, up to the rename of the log.
  pub kept-records :
      (t : Bytes) (all : List WanRecord) (q : WanQueue) (floor : ℕ)
      → IsSender t all q
      → q.base_seq ≤ floor
      → above floor q.records ≡ number_from floor (drop floor all)
  kept-records t all q floor v h =
      let b = q.base_seq in
      let fits : b + length (drop b all) < u64_mod =
        omega (arith, length-drop b all, base_le v, v.small) in
      let there : drop (floor - b) (drop b all) ≡ drop floor all =
        sym (drop-drop b (floor - b) all)
        ∙ ap (λ n. drop n all) (let e : b + (floor - b) ≡ floor = omega arith in e) in
      ap (above floor) v.retained
      ∙ above-number_from floor b (drop b all) h fits
      ∙ ap (number_from floor) there

  moved-IsSender :
      (t : Bytes) (all : List WanRecord) (q : WanQueue) (floor : ℕ) (v : IsSender t all q)
      → q.base_seq ≤ floor
      → floor ≤ v.known.at
      → IsSender t all (move_base (compact_log crc q floor) floor)
  unfolding compact_log move_base
  moved-IsSender t all q floor v h k =
      let kept = kept-records t all q floor v h in
      record {
        retained = kept;
        next = v.next;
        known = record {
          at = v.known.at;
          found = v.known.found;
          retained = k;
          capped = v.known.capped;
        };
        small = v.small;
        seg =
            ap (λ ps. write_all (encode crc) (map (λ p. p.1) ps)) kept
            ∙ ap (write_all (encode crc)) (map-number_from floor (drop floor all));
        base_file = read_u64-write_u64 floor (omega (arith, k, v.known.capped, v.small));
        bytes = refl;
      }

  pub reclaim-IsSender :
      (t : Bytes) (all : List WanRecord) (q : WanQueue)
      → IsSender t all q
      → IsSender t all (reclaim crc q).0
  unfolding reclaim min_acked
  reclaim-IsSender t all q v = elim (Bool-cases (leb (min_cursor q.cursors) q.base_seq)) [
    | inl low ↦ rw low v
    | inr high ↦ rw high (
        moved-IsSender t all q (min_cursor q.cursors) v (ground (arith, high))
          (min_cursor_le q.cursors t v.known.at v.known.found))
  ]
