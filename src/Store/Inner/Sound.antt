-- ===== src/Store/Inner/Sound.antt =====
-- What holds of one shard of crates/store/src/lib.rs between operations, and that the steps which the
-- operations are made of keep it.
use bonsaigrid.Base.{
  ℕ, ◌-◌, ◌<◌, ◌≡◌, refl, ◌∙◌, true, some, List, ltb, length, get_or, get_elem?, length-set, arith,
}
use bonsaigrid.Base.Bytes.{Bytes}
use bonsaigrid.Base.Maps.{HashMap, bytes_eq}
use bonsaigrid.Store.Entry.{at, occupied, hash, set_msb}
use bonsaigrid.Store.Probe.Counts.{bit}
use bonsaigrid.Store.Inner.{Inner, bury, touch, more_hits}
use bonsaigrid.Store.Inner.Layout.{
  Layout, Layout-keep, Layout-bury, CountsOf, CountsOf-in, CountsOf-keep, CountsOf-set, live,
}

-- The ids of the maps are the positions of their names.
unfoldable pub Named : HashMap Bytes ℕ → List Bytes → Type 0
Named ids names = (name : Bytes) (id : ℕ) → ids name ≡ some id → get_elem? names id ≡ some name

-- The table is laid out as its counters say, and `counts` counts the records of each map.
unfoldable pub WellFormed : Inner → Type 0
WellFormed s =
    Layout s.table s.len s.tombstones
    × CountsOf s.counts s.table
    × Named s.map_ids s.map_names
    × (length s.counts ≡ length s.map_names)

-- A real hash is neither of the two marks.
pub hash_real : (id : ℕ) (key : Bytes) → ltb 1 (hash id key) ≡ true
unfolding hash set_msb
hash_real id key = ground arith

pub bury-WellFormed :
    (s : Inner) (i : ℕ)
    → WellFormed s
    → i < length s.table
    → occupied (at s.table i) ≡ true
    → WellFormed (bury s (at s.table i).map_id i)
unfolding WellFormed bury
bury-WellFormed s i (layout, counts, named, same) lt occ =
    let id = (at s.table i).map_id in
    let (inside, pos) = CountsOf-in s.counts s.table i counts lt occ in
    let here : bit (live id (at s.table i)) ≡ 1 = ground (arith, occ) in
    (
      Layout-bury s.table s.len s.tombstones i (record (at s.table i) { hash = 1 }) layout lt occ
          refl,
      CountsOf-set s.counts s.table i id (get_or s.counts id 0 - 1)
          (record (at s.table i) { hash = 1 }) counts lt inside (omega (arith, pos, here))
          (λ other ne. ground (arith, ne, occ)),
      named,
      length-set s.counts id (get_or s.counts id 0 - 1) ∙ same,
    )

pub touch-WellFormed :
    (s : Inner) (i now : ℕ)
    → WellFormed s
    → i < length s.table
    → occupied (at s.table i) ≡ true
    → WellFormed (touch s i now)
unfolding WellFormed touch
touch-WellFormed s i now (layout, counts, named, same) lt occ =
    let e = record (at s.table i) { last_access_ms = now; hits = more_hits (at s.table i).hits } in
    (
      Layout-keep s.table s.len s.tombstones i e layout lt occ refl,
      CountsOf-keep s.counts s.table i e counts lt refl refl,
      named,
      same,
    )
