-- ===== src/Wan/Queue/Saved.antt =====
-- What the cursors file of a queue of crates/wan/src/queue.rs holds through every operation.
use bonsaigrid.Base.{
  ℕ, ◌-◌, ◌<◌, ◌≡◌, refl, sym, ap, subst, ◌∙◌, Bool-cases, Option-cases, inl, inr, List, [], ◌∷◌,
  min, ltb, leb, add64, u64_mod, All, arith,
}
use bonsaigrid.Base.Bytes.{Bytes}
use bonsaigrid.Frames.{write_all}
use bonsaigrid.Wan.Queue.{
  Cursors, find_cursor, put_cursor, or_insert, acked_in, min_cursor, cursor_bytes, read_cursors,
  WanQueue, QueueOp, appends, acks, targets, reclaims, add_targets, set_targets, ack_target,
  min_acked, append, compact_log, move_base, reclaim, run_op, run_ops,
}
use bonsaigrid.Wan.Queue.Cursors.{acked_in-or_insert, acked_in-add_targets}
use bonsaigrid.Wan.Queue.Files.{
  NameFits, CursorFits, IsMap, put_cursor-IsMap, put_cursor-fits, read_cursors-cursor_bytes,
}

-- The names in an operation fit.
abbrev pub OpFits : QueueOp → Type 0
OpFits (appends r) = Unit {0}
OpFits (acks target up_to_seq) = NameFits target
OpFits (targets ts) = All NameFits ts
OpFits reclaims = Unit {0}

pub record AreCursors (cs : Cursors) : Type 0 where
  pub distinct : IsMap cs
  pub fits : All CursorFits cs

-- The file holds cursors under which every target has acknowledged what it has in the queue.
pub record IsSaved (q : WanQueue) : Type 0 where
  pub disk : Cursors
  pub file : q.cursor_file ≡ cursor_bytes disk
  pub same : (s : Bytes) → acked_in disk s ≡ acked_in q.cursors s
  pub on_disk : AreCursors disk
  pub held : AreCursors q.cursors
  pub next : q.next_seq < u64_mod

or_insert-AreCursors :
    (cs : Cursors) (t : Bytes) → AreCursors cs → NameFits t → AreCursors (or_insert cs t)
unfolding or_insert
or_insert-AreCursors cs t v f = elim (Option-cases (find_cursor cs t)) [
  | inl e ↦
      rw (e, or_insert)
        (record {
          distinct = put_cursor-IsMap cs t 0 v.distinct;
          fits = put_cursor-fits cs t 0 v.fits f (omega arith);
        })
  | inr (c, e) ↦ rw (e, or_insert) v
]

add_targets-AreCursors :
    (ts : List Bytes) (cs : Cursors)
    → AreCursors cs
    → All NameFits ts
    → AreCursors (add_targets cs ts)
unfolding add_targets
add_targets-AreCursors [] cs v f = v
add_targets-AreCursors (t ∷ ts) cs v f =
    add_targets-AreCursors ts (or_insert cs t) (or_insert-AreCursors cs t v f.0) f.1

pub set_targets-IsSaved :
    (q : WanQueue) (ts : List Bytes) → IsSaved q → All NameFits ts → IsSaved (set_targets q ts)
unfolding set_targets
set_targets-IsSaved q ts v f = record {
  disk = v.disk;
  file = v.file;
  same = λ s. v.same s ∙ sym (acked_in-add_targets ts q.cursors s);
  on_disk = v.on_disk;
  held = add_targets-AreCursors ts q.cursors v.held f;
  next = v.next;
}

ack_target-IsSaved :
    (q : WanQueue) (t : Bytes) (n : ℕ) → IsSaved q → NameFits t → IsSaved (ack_target q t n)
unfolding ack_target
ack_target-IsSaved q t n v f =
    let cs = or_insert q.cursors t in
    let capped = min n (q.next_seq - 1) in
    let moved = put_cursor cs t capped in
    let known = or_insert-AreCursors q.cursors t v.held f in
    let now : AreCursors moved = record {
      distinct = put_cursor-IsMap cs t capped known.distinct;
      fits = put_cursor-fits cs t capped known.fits f (omega (arith, v.next));
    } in
    elim (Bool-cases (ltb (acked_in cs t) capped)) [
      | inl less ↦ rw less (record {
        disk = moved;
        file = refl;
        same = λ s. refl;
        on_disk = now;
        held = now;
        next = v.next;
      })
      | inr same ↦ rw same (record {
        disk = v.disk;
        file = v.file;
        same = λ s. v.same s ∙ sym (acked_in-or_insert q.cursors t s);
        on_disk = v.on_disk;
        held = known;
        next = v.next;
      })
    ]

module _ (crc : Bytes → ℕ) where
  reclaim-IsSaved : (q : WanQueue) → IsSaved q → IsSaved (reclaim crc q).0
  unfolding reclaim min_acked compact_log move_base
  reclaim-IsSaved q v = elim (Bool-cases (leb (min_cursor q.cursors) q.base_seq)) [
    | inl low ↦ rw low v
    | inr high ↦ rw high (record {
      disk = v.disk;
      file = v.file;
      same = v.same;
      on_disk = v.on_disk;
      held = v.held;
      next = v.next;
    })
  ]

  run_op-IsSaved : (q : WanQueue) (op : QueueOp) → IsSaved q → OpFits op → IsSaved (run_op crc q op)
  unfolding run_op append add64
  run_op-IsSaved q (appends r) v f = record {
    disk = v.disk;
    file = v.file;
    same = v.same;
    on_disk = v.on_disk;
    held = v.held;
    next = omega arith;
  }
  run_op-IsSaved q (acks t n) v f = ack_target-IsSaved q t n v f
  run_op-IsSaved q (targets ts) v f = set_targets-IsSaved q ts v f
  run_op-IsSaved q reclaims v f = reclaim-IsSaved q v

  pub run_ops-IsSaved :
      (ops : List QueueOp) (q : WanQueue) → IsSaved q → All OpFits ops → IsSaved (run_ops crc q ops)
  unfolding run_ops
  run_ops-IsSaved [] q v f = v
  run_ops-IsSaved (op ∷ ops) q v f =
      run_ops-IsSaved ops (run_op crc q op) (run_op-IsSaved q op v f.0) f.1

-- Read from the file, every target has acknowledged what it has in the queue.
pub saved_cursors :
    (q : WanQueue) (s : Bytes)
    → IsSaved q
    → acked_in (read_cursors q.cursor_file) s ≡ acked_in q.cursors s
saved_cursors q s v =
    ap (λ b. acked_in (read_cursors b) s) v.file
    ∙ read_cursors-cursor_bytes v.disk s v.on_disk.distinct v.on_disk.fits
    ∙ v.same s

pub no_file-IsSaved :
    (q : WanQueue) → q.cursors ≡ [] → q.cursor_file ≡ [] → q.next_seq < u64_mod → IsSaved q
unfolding cursor_bytes write_all
no_file-IsSaved q c f n = record {
  disk = [];
  file = f;
  same = λ s. ap (λ cs. acked_in cs s) (sym c);
  on_disk = record { distinct = unfold IsMap in tt; fits = tt };
  held = subst AreCursors (sym c) (record { distinct = unfold IsMap in tt; fits = tt });
  next = n;
}
