-- ===== src/Tests/PersistenceRuns.antt =====
-- The theorems about local durability, crates/persistence/src, at concrete files.
use bonsaigrid.Base.{
  ℕ, ◌%◌, ◌^◌, ◌<◌, ◌≡◌, refl, none, some, List, [], ◌∷◌, ◌++◌, map, length, take, arith,
}
use bonsaigrid.Base.Bytes.{Bytes, le_bytes, from_le, valid_utf8}
use bonsaigrid.Base.Blobs.{put_blob}
use bonsaigrid.Frames.{write_all}
use bonsaigrid.Persistence.Record.{Mutation, puts, removes, type_of, payload_of, encode}
use bonsaigrid.Persistence.Record.Format.{effect, length-frame_record}
use bonsaigrid.Persistence.Snapshot.{
  Stamped, Aux, write_snapshot, load_snapshot, counted, put_entry, put_aux,
}
use bonsaigrid.Persistence.Snapshot.RoundTrip.{
  StampedFits, AuxFits, entry_effect, aux_effect, load_snapshot-write_snapshot,
}
use bonsaigrid.Persistence.Recovery.{recover}
use bonsaigrid.Persistence.Recovery.Replay.{Segment, file_of, logged_from, Framed, recover-replays}
use bonsaigrid.Persistence.Thread.{Disk, all_segments, append_job, roll, drain}
use bonsaigrid.Persistence.Thread.Rolls.{IsDisk, failed_snapshot_forgets, rolled_recovers}

-- A checksum of 32 bits.
abbrev crc : Bytes → ℕ
crc body = from_le body % 2 ^ 32

crc-lt : (body : Bytes) → crc body < 2 ^ 32
crc-lt body = omega arith

-- The map "m".
abbrev m : Bytes
m = 109 ∷ []

abbrev entry : Stamped
entry = record { map = m; key = 1 ∷ []; value = 2 ∷ []; stamp = 40 }

entry-fits : StampedFits entry
unfolding valid_utf8
entry-fits = record {
  map = omega arith;
  key = omega arith;
  value = omega arith;
  stamp = omega arith;
  name = refl;
}

abbrev counter : Aux
counter = record { kind = 6; name = m; state = 5 ∷ [] }

counter-fits : AuxFits counter
unfolding valid_utf8
counter-fits = record { name = omega arith; state = omega arith; text = refl }

entries-size : length (counted put_entry (entry ∷ [])) < 2 ^ 32
unfolding counted put_entry write_all put_blob le_bytes
entries-size = omega arith

auxes-size : length (counted put_aux (counter ∷ [])) < 2 ^ 32
unfolding counted put_aux write_all put_blob le_bytes
auxes-size = omega arith

load_snapshot-write_snapshot_example :
    load_snapshot (write_snapshot (entry ∷ []) (counter ∷ []))
    ≡ some (entry_effect entry ∷ aux_effect counter ∷ [])
load_snapshot-write_snapshot_example =
    load_snapshot-write_snapshot (entry ∷ []) (counter ∷ []) (entry-fits, tt) (counter-fits, tt)
      (omega arith) (omega arith) entries-size auxes-size

abbrev put_two : Mutation
put_two = puts 41 0 m (2 ∷ []) (7 ∷ [])

abbrev drop_one : Mutation
drop_one = removes 42 m (1 ∷ [])

put_two-Framed : Framed crc put_two
unfolding payload_of put_blob le_bytes valid_utf8
put_two-Framed =
    ((omega arith, omega arith, refl, omega arith, omega arith, omega arith), omega arith)

drop_one-Framed : Framed crc drop_one
unfolding payload_of put_blob le_bytes valid_utf8
drop_one-Framed = ((omega arith, refl, omega arith, omega arith), omega arith)

abbrev segment : ℕ → List Mutation → Segment crc
segment g ms = record { gen = g; logged = ms; broken = put_two; cut = 9 }

cut-lt : 9 < length (encode crc put_two)
unfolding encode
cut-lt = omega (arith, length-frame_record crc (type_of put_two) (payload_of put_two))

recover-replays_example :
    recover crc
      ((2, 9 ∷ []) ∷ (3, write_snapshot (entry ∷ []) (counter ∷ [])) ∷ [])
      (map (file_of crc) (segment 2 (put_two ∷ []) ∷ segment 3 (drop_one ∷ put_two ∷ []) ∷ []))
    ≡ some (
        (map entry_effect (entry ∷ []) ++ map aux_effect (counter ∷ []))
        ++ logged_from crc 3 (segment 2 (put_two ∷ []) ∷ segment 3 (drop_one ∷ put_two ∷ []) ∷ []))
recover-replays_example =
    recover-replays crc crc-lt ((2, 9 ∷ []) ∷ []) 3 (entry ∷ []) (counter ∷ [])
      (segment 2 (put_two ∷ []) ∷ segment 3 (drop_one ∷ put_two ∷ []) ∷ []) (entry-fits, tt)
      (counter-fits, tt) (omega arith) (omega arith) entries-size auxes-size
      (
        ((put_two-Framed, tt), put_two-Framed.1, cut-lt),
        (((drop_one-Framed, (put_two-Framed, tt)), put_two-Framed.1, cut-lt), tt),
      )

-- A disk with a snapshot, a segment behind it and the current one.
abbrev disk : Disk
disk = record {
  snapshots = (3, write_snapshot (entry ∷ []) []) ∷ [];
  segments = (3, encode crc drop_one) ∷ [];
  generation = 4;
  current = encode crc put_two;
}

disk-IsDisk : IsDisk disk
disk-IsDisk = record { snapshots = (omega arith, tt); segments = (omega arith, tt) }

rolled_recovers_example :
    let r =
      drain crc (roll disk (some (write_snapshot (entry ∷ []) (counter ∷ [])))) (drop_one ∷ []) in
    recover crc r.snapshots (all_segments (append_job r (take 9 (encode crc put_two))))
    ≡ some (
        (map entry_effect (entry ∷ []) ++ map aux_effect (counter ∷ []))
        ++ map effect (drop_one ∷ []))
rolled_recovers_example =
    rolled_recovers crc disk (entry ∷ []) (counter ∷ []) (drop_one ∷ []) put_two 9 crc-lt
      disk-IsDisk (entry-fits, tt) (counter-fits, tt) (omega arith) (omega arith) entries-size
      auxes-size (drop_one-Framed, tt) put_two-Framed.1 cut-lt

failed_snapshot_forgets_example :
    recover crc (roll disk none).snapshots (all_segments (roll disk none)) ≡ some []
failed_snapshot_forgets_example = failed_snapshot_forgets crc disk disk-IsDisk
