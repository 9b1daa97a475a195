-- ===== src/Persistence/Thread/Rolls.antt =====
-- What a restart finds after a roll of the persistence thread, crates/server/src/persist_thread.rs.
use bonsaigrid.Base.{
  ℕ, suc, ◌^◌, ◌<◌, ◌≡◌, refl, sym, ap, ◌∙◌, Bool-cases, inl, inr, none, some, List, [], ◌∷◌, ◌++◌,
  map, length, append-nil, append_assoc, take, ltb, All, arith,
}
use bonsaigrid.Base.Bytes.{Bytes}
use bonsaigrid.Frames.{read_all, write_all}
use bonsaigrid.Persistence.Record.{
  Mutation, type_of, payload_of, encode, read_segment, next_record, decode_record, past,
}
use bonsaigrid.Persistence.Record.Format.{PayloadFits, effect}
use bonsaigrid.Persistence.Snapshot.{Stamped, Aux, write_snapshot, counted, put_entry, put_aux}
use bonsaigrid.Persistence.Snapshot.RoundTrip.{StampedFits, AuxFits, entry_effect, aux_effect}
use bonsaigrid.Persistence.Recovery.{
  Files, prune_below, last_gen, load_newest, replay, replay_segments, recover,
}
use bonsaigrid.Persistence.Recovery.Replay.{Framed, Segment, logged_from, recover-replays}
use bonsaigrid.Persistence.Thread.{Disk, all_segments, append_job, install, roll, drain}

prune_below_old : (g : ℕ) (fs : Files) → All (λ (f : ℕ × Bytes). f.0 < g) fs → prune_below g fs ≡ []
unfolding prune_below
prune_below_old g [] h = refl
prune_below_old g (f ∷ fs) h = let later = prune_below_old g fs h.1 in ground (arith, h.0, later)

-- The generations on the disk are at most the current one.
pub record IsDisk (d : Disk) : Type 0 where
  pub snapshots : All (λ (f : ℕ × Bytes). f.0 < suc d.generation) d.snapshots
  pub segments : All (λ (f : ℕ × Bytes). f.0 < suc d.generation) d.segments

empty_segment : (crc : Bytes → ℕ) (g : ℕ) → recover crc [] ((g, []) ∷ []) ≡ some []
unfolding recover load_newest last_gen replay_segments read_segment read_all next_record
    decode_record past replay
empty_segment crc g = ground arith

-- A roll whose snapshot could not be written leaves a disk from which a restart recovers nothing,
-- whatever was on it.
pub failed_snapshot_forgets :
    (crc : Bytes → ℕ) (d : Disk)
    → IsDisk d
    → recover crc (roll d none).snapshots (all_segments (roll d none)) ≡ some []
unfolding roll install all_segments
failed_snapshot_forgets crc d v =
    ap
      (λ fs.
        recover crc fs (prune_below (suc d.generation) d.segments ++ (suc d.generation, []) ∷ []))
      (prune_below_old (suc d.generation) d.snapshots v.snapshots)
    ∙ ap (λ fs. recover crc [] (fs ++ (suc d.generation, []) ∷ []))
        (prune_below_old (suc d.generation) d.segments v.segments)
    ∙ empty_segment crc (suc d.generation)

prune_below-append :
    (g : ℕ) (fs gs : Files) → prune_below g (fs ++ gs) ≡ prune_below g fs ++ prune_below g gs
unfolding prune_below
prune_below-append g [] gs = refl
prune_below-append g (f ∷ fs) gs = elim (Bool-cases (ltb f.0 g)) [
  | inl low ↦ rw (low, prune_below) (prune_below-append g fs gs)
  | inr high ↦ rw (high, prune_below) (ap (λ hs. f ∷ hs) (prune_below-append g fs gs))
]

prune_below-one : (g : ℕ) (snap : Bytes) → prune_below g ((g, snap) ∷ []) ≡ (g, snap) ∷ []
unfolding prune_below
prune_below-one g snap = ground arith

drain-eq :
    (crc : Bytes → ℕ) (d : Disk) (ms : List Mutation)
    → drain crc d ms ≡ record d { current = d.current ++ write_all (encode crc) ms }
unfolding drain append_job write_all
drain-eq crc d [] = ap (λ bs. record d { current = bs }) (sym (append-nil d.current))
drain-eq crc d (m ∷ ms) =
    drain-eq crc (append_job d (encode crc m)) ms
    ∙ ap (λ bs. record d { current = bs })
        (append_assoc d.current (encode crc m) (write_all (encode crc) ms))

module _ (crc : Bytes → ℕ) where
  logged_self : (s : Segment crc) → logged_from crc s.gen (s ∷ []) ≡ map effect s.logged
  logged_self s = ground (arith, append-nil (map effect s.logged))

  -- After a roll whose snapshot was written and a drain of further mutations, a restart installs
  -- the snapshot and then makes those mutations, in order and once each, also where a crash left an
  -- incomplete frame of one more, for records that fit their frames and a checksum that is a u32.
  pub rolled_recovers :
      (d : Disk) (entries : List Stamped) (auxes : List Aux) (ms : List Mutation)
      → (broken : Mutation) (cut : ℕ) → ((body : Bytes) → crc body < 2 ^ 32)
      → IsDisk d
      → All StampedFits entries
      → All AuxFits auxes
      → length entries < 2 ^ 32
      → length auxes < 2 ^ 32
      → length (counted put_entry entries) < 2 ^ 32
      → length (counted put_aux auxes) < 2 ^ 32
      → All (Framed crc) ms
      → PayloadFits (type_of broken, payload_of broken)
      → cut < length (encode crc broken)
      → let r = drain crc (roll d (some (write_snapshot entries auxes))) ms in
        recover crc r.snapshots (all_segments (append_job r (take cut (encode crc broken))))
        ≡ some ((map entry_effect entries ++ map aux_effect auxes) ++ map effect ms)
  unfolding roll install all_segments append_job
  rolled_recovers d entries auxes ms broken cut small v fe fa ne na se sa fm fb short =
      let g = suc d.generation in
      let snap = write_snapshot entries auxes in
      let r = roll d (some snap) in
      let torn = take cut (encode crc broken) in
      let s : Segment crc = record { gen = g; logged = ms; broken = broken; cut = cut } in
      let one : r.snapshots ≡ (g, snap) ∷ [] =
        prune_below-append g d.snapshots ((g, snap) ∷ [])
        ∙ ap (λ fs. fs ++ prune_below g ((g, snap) ∷ []))
            (prune_below_old g d.snapshots v.snapshots)
        ∙ prune_below-one g snap in
      let older = prune_below_old g d.segments v.segments in
      let replayed =
        recover-replays crc small [] g entries auxes (s ∷ []) fe fa ne na se sa
          ((fm, fb, short), tt) in
      ap (λ (q : Disk). recover crc q.snapshots (all_segments (append_job q torn)))
        (drain-eq crc r ms)
      ∙ ap (λ fs. recover crc fs (r.segments ++ (g, write_all (encode crc) ms ++ torn) ∷ [])) one
      ∙ ap (λ fs. recover crc ((g, snap) ∷ []) (fs ++ (g, write_all (encode crc) ms ++ torn) ∷ []))
          older
      ∙ replayed
      ∙ ap (λ os. some ((map entry_effect entries ++ map aux_effect auxes) ++ os)) (logged_self s)
