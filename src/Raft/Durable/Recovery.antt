-- ===== src/Raft/Durable/Recovery.antt =====
-- What a restart finds in the files of a durable log, crates/raft/src/log.rs.
use bonsaigrid.Base.{
  ℕ, zero, suc, ◌^◌, ◌≤◌, ◌<◌, ◌≡◌, refl, sym, ap, ◌∙◌, true, Option, List, [], ◌∷◌, ◌++◌, length,
  append_assoc, append-nil, take, u64_mod, All, All-append, arith, take-append_left,
}
use bonsaigrid.Base.Bytes.{Bytes, from_le}
use bonsaigrid.Frames.{read_all, write_all, write_all-append, read_all_recovers}
use bonsaigrid.Raft.Log
use bonsaigrid.Raft.Log.{Entry, RaftLog}
use bonsaigrid.Raft.Durable.{
  frame_entry, next_entry, read_log, rewrite_log, DurableLog, open_durable, append, truncate_from,
  persist_term_vote, DurableOp, appends, truncates, persists, run_op, run_ops, read_meta,
  vote_or_zero,
}
use bonsaigrid.Raft.Durable.Format.{
  EntryFits, frame_entry-IsFormat, next_entry-short, next_entry-blocked, read_meta-write_meta,
}

module _ (crc : Bytes → ℕ) where
  -- The files hold what the log in memory holds.
  pub record IsOnDisk (d : DurableLog) : Type 0 where
    pub seg : d.seg ≡ rewrite_log crc d.log.entries
    pub meta : read_meta d.meta ≡ (d.log.term, d.log.vote)
    pub durable : d.log.durable ≡ true
    pub whole : d.log.snapshot_index ≡ 0
    pub fresh : d.log.snapshot_term ≡ 0
    pub fits : All EntryFits d.log.entries

  rewrite_log-append :
      (es : List Entry) (e : Entry)
      → rewrite_log crc (es ++ e ∷ []) ≡ rewrite_log crc es ++ frame_entry crc e
  unfolding rewrite_log write_all
  rewrite_log-append es e =
      write_all-append (frame_entry crc) es (e ∷ [])
      ∙ ap (λ x. rewrite_log crc es ++ x) (append-nil (frame_entry crc e))

  pub append-IsOnDisk :
      (d : DurableLog) (e : Entry) → IsOnDisk d → EntryFits e → IsOnDisk (append crc d e)
  unfolding append Log.append
  append-IsOnDisk d e v f = record {
    seg = ap (λ s. s ++ frame_entry crc e) v.seg ∙ sym (rewrite_log-append d.log.entries e);
    meta = v.meta;
    durable = v.durable;
    whole = v.whole;
    fresh = v.fresh;
    fits = All-append EntryFits d.log.entries (e ∷ []) v.fits (f, tt);
  }

  All-take : (n : ℕ) (es : List Entry) → All EntryFits es → All EntryFits (take n es)
  All-take zero es h = tt
  All-take (suc n) [] h = tt
  All-take (suc n) (e ∷ es) h = (h.0, All-take n es h.1)

  pub truncate_from-IsOnDisk :
      (d : DurableLog) (index : ℕ) → IsOnDisk d → IsOnDisk (truncate_from crc d index)
  unfolding truncate_from Log.truncate_from
  truncate_from-IsOnDisk d index v = record {
    seg = refl;
    meta = v.meta;
    durable = v.durable;
    whole = v.whole;
    fresh = v.fresh;
    fits = All-take _ d.log.entries v.fits;
  }

  pub persist_term_vote-IsOnDisk :
      (d : DurableLog) (term : ℕ) (vote : Option ℕ)
      → IsOnDisk d
      → term < u64_mod
      → vote_or_zero vote < u64_mod
      → IsOnDisk (persist_term_vote crc d term vote)
  unfolding persist_term_vote Log.persist_term_vote
  persist_term_vote-IsOnDisk d term vote v ht hv = record {
    seg = v.seg;
    meta = read_meta-write_meta term vote ht hv;
    durable = v.durable;
    whole = v.whole;
    fresh = v.fresh;
    fits = v.fits;
  }

  -- A restart rebuilds the log: from files that hold it, opening finds the entries, the term and
  -- the vote that were in memory, also when a crash left fewer than 8 bytes of a further frame.
  pub open_durable_recovers :
      (d : DurableLog) (torn : Bytes)
      → ((body : Bytes) → crc body < 2 ^ 32)
      → IsOnDisk d
      → length torn < 8
      → (open_durable crc (d.seg ++ torn) d.meta).log ≡ d.log
  unfolding open_durable read_log rewrite_log
  open_durable_recovers d torn small v h =
      let stop = next_entry-short crc torn h in
      let read : read_log crc (d.seg ++ torn) ≡ d.log.entries =
        ap (λ s. read_log crc (s ++ torn)) v.seg
        ∙ read_all_recovers (frame_entry-IsFormat crc small) d.log.entries torn v.fits stop in
      let l : RaftLog = record d.log { durable = true; snapshot_index = 0; snapshot_term = 0 } in
      ap
        (λ (es : List Entry). record l {
          entries = es;
          term = (read_meta d.meta).0;
          vote = (read_meta d.meta).1;
        })
        read
      ∙ ap (λ (m : ℕ × Option ℕ). record l { term = m.0; vote = m.1 }) v.meta
      ∙ ground (arith, v.durable, v.whole, v.fresh)

  abbrev pub OpFits : DurableOp → Type 0
  OpFits (appends e) = EntryFits e
  OpFits (truncates index) = Unit {0}
  OpFits (persists term vote) = (term < u64_mod) × (vote_or_zero vote < u64_mod)

  run_ops-IsOnDisk :
      (ops : List DurableOp) (d : DurableLog)
      → IsOnDisk d
      → All OpFits ops
      → IsOnDisk (run_ops crc d ops)
  unfolding run_ops run_op
  run_ops-IsOnDisk [] d v f = v
  run_ops-IsOnDisk (appends e ∷ ops) d v (f, fs) =
      run_ops-IsOnDisk ops (append crc d e) (append-IsOnDisk d e v f) fs
  run_ops-IsOnDisk (truncates index ∷ ops) d v (f, fs) =
      run_ops-IsOnDisk ops (truncate_from crc d index) (truncate_from-IsOnDisk d index v) fs
  run_ops-IsOnDisk (persists term vote ∷ ops) d v (f, fs) =
      run_ops-IsOnDisk ops (persist_term_vote crc d term vote)
        (persist_term_vote-IsOnDisk d term vote v f.0 f.1) fs

  new-IsOnDisk : IsOnDisk (open_durable crc [] [])
  unfolding open_durable read_log next_entry read_all rewrite_log write_all read_meta
  new-IsOnDisk = record {
    seg = refl;
    meta = refl;
    durable = refl;
    whole = refl;
    fresh = refl;
    fits = tt;
  }

  -- Whatever appends, truncations and persisted votes a new durable log has seen, a restart from
  -- its files finds the log that was in memory, also when a crash left fewer than 8 bytes of a
  -- further frame, for entries and votes that fit their fields and a checksum that is a u32.
  pub restart_recovers :
      (ops : List DurableOp) (torn : Bytes)
      → ((body : Bytes) → crc body < 2 ^ 32)
      → All OpFits ops
      → length torn < 8
      → let d = run_ops crc (open_durable crc [] []) ops in
        (open_durable crc (d.seg ++ torn) d.meta).log ≡ d.log
  restart_recovers ops torn small f h =
      open_durable_recovers (run_ops crc (open_durable crc [] []) ops) torn small
        (run_ops-IsOnDisk ops (open_durable crc [] []) new-IsOnDisk f) h

  read_past_blocked :
      (es : List Entry) (torn more : Bytes)
      → ((body : Bytes) → crc body < 2 ^ 32)
      → All EntryFits es
      → 8 ≤ length torn
      → from_le (take 4 torn) < 20
      → read_log crc (rewrite_log crc es ++ (torn ++ more)) ≡ es
  unfolding read_log rewrite_log
  read_past_blocked es torn more small f h b =
      let same : from_le (take 4 (torn ++ more)) ≡ from_le (take 4 torn) =
        ap from_le (take-append_left 4 torn more (omega arith)) in
      read_all_recovers (frame_entry-IsFormat crc small) es (torn ++ more) f
        (next_entry-blocked crc (torn ++ more) (omega (arith, same)))

  -- A file that ends in at least 8 bytes which name a frame shorter than 16 bytes of body, as a
  -- zeroed tail does, is opened with its entries, and the tail stays where it is. An entry that is
  -- appended then is in memory and in the file, but the next restart does not find it.
  pub append_behind_torn_lost :
      (es : List Entry) (torn meta : Bytes) (e : Entry)
      → ((body : Bytes) → crc body < 2 ^ 32)
      → All EntryFits es
      → 8 ≤ length torn
      → from_le (take 4 torn) < 20
      → let d = append crc (open_durable crc (rewrite_log crc es ++ torn) meta) e in
        (d.log.entries ≡ es ++ e ∷ []) × ((open_durable crc d.seg d.meta).log.entries ≡ es)
  unfolding append Log.append open_durable
  append_behind_torn_lost es torn meta e small f h b = (
    ap (λ (xs : List Entry). xs ++ e ∷ [])
        (ap (λ t. read_log crc (rewrite_log crc es ++ t)) (sym (append-nil torn))
          ∙ read_past_blocked es torn [] small f h b),
    ap (read_log crc) (append_assoc (rewrite_log crc es) torn (frame_entry crc e))
        ∙ read_past_blocked es torn (frame_entry crc e) small f h b,
  )
