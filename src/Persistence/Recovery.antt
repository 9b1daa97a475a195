-- ===== src/Persistence/Recovery.antt =====
-- `recover` of crates/persistence/src/lib.rs: what a restart applies to the store. A directory is
-- its snapshots and its segments, each with its generation, in ascending order as `numbered` sorts
-- them.
use bonsaigrid.Base.{
  ℕ, zero, suc, ◌+◌, ◌^◌, ◌≤◌, ◌<◌, ◌≡◌, refl, sym, ap, ◌∙◌, max, true, false, Bool-cases, inl, inr,
  Option, none, some, List, [], ◌∷◌, ◌++◌, map, length, append-nil, append_assoc, take, ltb,
  if◌then◌else◌, All, arith,
}
use bonsaigrid.Base.Bytes.{Bytes}
use bonsaigrid.Base.Blobs.{◌>>=◌}
use bonsaigrid.Frames.{write_all, read_all_recovers, read_all}
use bonsaigrid.Persistence.{StoreOp}
use bonsaigrid.Persistence.Record.{
  RecordType, Mutation, type_of, payload_of, parse, encode, frame, next_record, read_segment,
}
use bonsaigrid.Persistence.Record.Format.{
  MutationFits, PayloadFits, effect, parse-payload_of, frame-IsFormat, next_record-cut,
}
use bonsaigrid.Persistence.Snapshot.{
  Stamped, Aux, write_snapshot, load_snapshot, counted, put_entry, put_aux,
}
use bonsaigrid.Persistence.Snapshot.RoundTrip.{
  StampedFits, AuxFits, entry_effect, aux_effect, load_snapshot-write_snapshot,
}
pub mod Replay

abbrev pub Files : Type 0
Files = List (ℕ × Bytes)

unfoldable pub last_gen : ℕ → Files → ℕ
last_gen g [] = g
last_gen g (f ∷ fs) = last_gen f.0 fs

unfoldable pub latest_generation : Files → Files → ℕ
latest_generation segments snapshots = max (last_gen 0 segments) (last_gen 0 snapshots)

-- `prune_below` of one kind of file.
unfoldable pub prune_below : ℕ → Files → Files
prune_below bound [] = []
prune_below bound (f ∷ fs) =
    let rest = prune_below bound fs in if ltb f.0 bound then rest else f ∷ rest

-- The calls of the store for the records of a segment; one that cannot be parsed is skipped.
unfoldable pub replay : List (RecordType × Bytes) → List StoreOp
replay [] = []
replay (r ∷ rs) = let rest = replay rs in elim (parse r.0 r.1) [ none ↦ rest | some o ↦ o ∷ rest ]

-- The calls for the newest snapshot.
unfoldable pub load_newest : Files → Option (List StoreOp)
load_newest [] = some []
load_newest (f ∷ []) = load_snapshot f.1
load_newest (f ∷ g ∷ fs) = load_newest (g ∷ fs)

module _ (crc : Bytes → ℕ) where
  unfoldable pub replay_segments : ℕ → Files → List StoreOp
  replay_segments snapshot_gen [] = []
  replay_segments snapshot_gen (f ∷ fs) =
      let rest = replay_segments snapshot_gen fs in
      if ltb f.0 snapshot_gen then rest else replay (read_segment crc f.1) ++ rest

  -- The calls that a restart makes of the store, in order; `none` where a snapshot is bad.
  unfoldable pub recover : Files → Files → Option (List StoreOp)
  recover snapshots segments = do
    ops ← load_newest snapshots
    some (ops ++ replay_segments (last_gen 0 snapshots) segments)
