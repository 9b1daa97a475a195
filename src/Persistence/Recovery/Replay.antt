-- ===== src/Persistence/Recovery/Replay.antt =====
-- What `recover` of crates/persistence/src/lib.rs makes of the files that a crash left.
use bonsaigrid.Base.{
  ℕ, ◌^◌, ◌<◌, ◌≡◌, refl, ap, ◌∙◌, Bool-cases, inl, inr, some, List, [], ◌∷◌, ◌++◌, map, length,
  take, ltb, if◌then◌else◌, All,
}
use bonsaigrid.Base.Bytes.{Bytes}
use bonsaigrid.Base.Blobs.{◌>>=◌}
use bonsaigrid.Frames.{write_all, read_all_recovers}
use bonsaigrid.Persistence.{StoreOp}
use bonsaigrid.Persistence.Record.{
  RecordType, Mutation, type_of, payload_of, encode, frame, read_segment,
}
use bonsaigrid.Persistence.Record.Format.{
  MutationFits, PayloadFits, effect, parse-payload_of, frame-IsFormat, next_record-cut,
}
use bonsaigrid.Persistence.Snapshot.{
  Stamped, Aux, write_snapshot, load_snapshot, counted, put_entry, put_aux,
}
use bonsaigrid.Persistence.Snapshot.RoundTrip.{
  StampedFits, AuxFits, entry_effect, aux_effect, load_snapshot-write_snapshot,
}
use bonsaigrid.Persistence.Recovery.{Files, last_gen, replay, load_newest, replay_segments, recover}

module _ (crc : Bytes → ℕ) where
  -- A segment as its writer left it: the mutations it appended, and the first `cut` bytes of the
  -- frame of one more.
  pub record Segment : Type 0 where
    pub gen : ℕ
    pub logged : List Mutation
    pub broken : Mutation
    pub cut : ℕ

  abbrev pub file_of : Segment → ℕ × Bytes
  file_of s = (s.gen, write_all (encode crc) s.logged ++ take s.cut (encode crc s.broken))

  abbrev pub Framed : Mutation → Type 0
  Framed m = MutationFits m × PayloadFits (type_of m, payload_of m)

  abbrev pub SegmentFits : Segment → Type 0
  SegmentFits s =
      All Framed s.logged
      × PayloadFits (type_of s.broken, payload_of s.broken)
      × (s.cut < length (encode crc s.broken))

  -- What is logged from a generation on.
  abbrev pub logged_from : ℕ → List Segment → List StoreOp
  logged_from g [] = []
  logged_from g (s ∷ ss) =
      let rest = logged_from g ss in if ltb s.gen g then rest else map effect s.logged ++ rest

  abbrev pair_of : Mutation → RecordType × Bytes
  pair_of m = (type_of m, payload_of m)

  write_all-pairs :
      (ms : List Mutation)
      → write_all (encode crc) ms
        ≡ write_all (λ (r : RecordType × Bytes). frame crc r.0 r.1) (map pair_of ms)
  unfolding write_all encode
  write_all-pairs [] = refl
  write_all-pairs (m ∷ ms) = ap (λ bs. encode crc m ++ bs) (write_all-pairs ms)

  pairs-fit : (ms : List Mutation) → All Framed ms → All PayloadFits (map pair_of ms)
  pairs-fit [] f = tt
  pairs-fit (m ∷ ms) f = (f.0.1, pairs-fit ms f.1)

  replay-pairs : (ms : List Mutation) → All Framed ms → replay (map pair_of ms) ≡ map effect ms
  unfolding replay
  replay-pairs [] f = refl
  replay-pairs (m ∷ ms) f =
      rw (parse-payload_of m f.0.0, replay) (ap (λ os. effect m ∷ os) (replay-pairs ms f.1))

  module _ (small : (body : Bytes) → crc body < 2 ^ 32) where
    replay-file_of :
        (s : Segment)
        → SegmentFits s
        → replay (read_segment crc (file_of s).1) ≡ map effect s.logged
    unfolding read_segment encode
    replay-file_of s f =
        let torn = take s.cut (encode crc s.broken) in
        let stop =
          next_record-cut crc (type_of s.broken) (payload_of s.broken) s.cut small f.1 f.2 in
        ap (λ bs. replay (read_segment crc (bs ++ torn))) (write_all-pairs s.logged)
        ∙ ap replay (
            read_all_recovers (frame-IsFormat crc small) (map pair_of s.logged) torn
              (pairs-fit s.logged f.0) stop)
        ∙ replay-pairs s.logged f.0

    replay_segments-files :
        (g : ℕ) (ss : List Segment)
        → All SegmentFits ss
        → replay_segments crc g (map file_of ss) ≡ logged_from g ss
    unfolding replay_segments
    replay_segments-files g [] f = refl
    replay_segments-files g (s ∷ ss) f = elim (Bool-cases (ltb s.gen g)) [
      | inl old ↦ rw old (replay_segments-files g ss f.1)
      | inr new ↦ rw new (
          ap (λ os. os ++ replay_segments crc g (map file_of ss)) (replay-file_of s f.0)
          ∙ ap (λ os. map effect s.logged ++ os) (replay_segments-files g ss f.1))
    ]

    load_newest-last :
        (snapshots : Files) (g : ℕ) (file : Bytes)
        → load_newest (snapshots ++ (g, file) ∷ []) ≡ load_snapshot file
    unfolding load_newest
    load_newest-last [] g file = refl
    load_newest-last (f ∷ []) g file = refl
    load_newest-last (f ∷ h ∷ fs) g file = load_newest-last (h ∷ fs) g file

    last_gen-last :
        (snapshots : Files) (b g : ℕ) (file : Bytes) → last_gen b (snapshots ++ (g, file) ∷ []) ≡ g
    unfolding last_gen
    last_gen-last [] b g file = refl
    last_gen-last (f ∷ fs) b g file = last_gen-last fs f.0 g file

    -- A restart installs the entries and the structures of the newest snapshot and then makes every
    -- logged change of the segments from its generation on, in order and once each, also where a
    -- crash left an incomplete frame at the end of a segment, for records that fit their frames and
    -- a checksum that is a u32.
    pub recover-replays :
        (older : Files) (g : ℕ) (entries : List Stamped) (auxes : List Aux) (ss : List Segment)
        → All StampedFits entries
        → All AuxFits auxes
        → length entries < 2 ^ 32
        → length auxes < 2 ^ 32
        → length (counted put_entry entries) < 2 ^ 32
        → length (counted put_aux auxes) < 2 ^ 32
        → All SegmentFits ss
        → recover crc (older ++ (g, write_snapshot entries auxes) ∷ []) (map file_of ss)
          ≡ some ((map entry_effect entries ++ map aux_effect auxes) ++ logged_from g ss)
    unfolding recover
    recover-replays older g entries auxes ss fe fa ne na se sa f =
        let snap = write_snapshot entries auxes in
        let ops = map entry_effect entries ++ map aux_effect auxes in
        let newest =
          load_newest-last older g snap
          ∙ load_snapshot-write_snapshot entries auxes fe fa ne na se sa in
        ap
          (λ o. o >>= (λ os.
            some
              (os ++ replay_segments crc (last_gen 0 (older ++ (g, snap) ∷ [])) (map file_of ss))))
          newest
        ∙ ap (λ k. some (ops ++ replay_segments crc k (map file_of ss)))
            (last_gen-last older 0 g snap)
        ∙ ap (λ os. some (ops ++ os)) (replay_segments-files g ss f)
