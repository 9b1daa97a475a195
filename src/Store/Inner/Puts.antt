-- ===== src/Store/Inner/Puts.antt =====
-- The writes of crates/store/src/lib.rs always return, and leave a well-formed shard.
use bonsaigrid.Base.{
  ℕ, ◌+◌, ◌-◌, ◌*◌, ◌^◌, ◌≤◌, ◌<◌, ◌≡◌, refl, sym, ap, ◌∙◌, inl, inr, Bool, true, false, ◌&&◌,
  Bool-cases, Option, none, some, List, ◌==◌, ltb, length, get_or, length-set, if◌then◌else◌, arith,
}
use bonsaigrid.Base.Bytes.{Bytes}
use bonsaigrid.Store.Entry.{Entry, at, occupied, is_tombstone, hash}
use bonsaigrid.Store.Probe.Chains.{Reach}
use bonsaigrid.Store.Probe.Counts.{bit, number}
use bonsaigrid.Store.Probe.Insert.{Chosen, seek_free-Chosen}
use bonsaigrid.Store.Slab.{put_two, free}
use bonsaigrid.Store.Inner.{Inner, MapConfig, intern, update_indexes, hit}
use bonsaigrid.Store.Inner.Writes.{
  Item, entry_of, fill, evict_over, overwrite, put_at, probe_free, put_grown, put,
}
use bonsaigrid.Store.Inner.Layout.{
  Layout, Layout-set, Layout-keep, CountsOf-set, CountsOf-keep, live, number_pos,
}
use bonsaigrid.Store.Inner.Sound.{WellFormed, hash_real}
use bonsaigrid.Store.Inner.Lookup.{WellFormed-Roomy, WellFormed-Chained, hit_parts}
use bonsaigrid.Store.Inner.Grow.{
  Interned, intern-Interned, maybe_grow-WellFormed, evict_one-WellFormed, evict_one-names,
}

-- The tombstones that are left when a slot is filled.
tombs_left : (b : Bool) (t : ℕ) → bit b ≤ t → (if b then t - 1 else t) + bit b ≡ t
tombs_left true t le = omega arith
tombs_left false t le = omega arith

bit_at :
    (table : List Entry) (i : ℕ)
    → i < length table
    → bit (is_tombstone (at table i)) ≤ number is_tombstone table
bit_at table i lt = elim (Bool-cases (is_tombstone (at table i))) [
  | inl tomb ↦
      let b : bit (is_tombstone (at table i)) ≡ 1 = ap bit tomb in
      let pos = number_pos is_tombstone table i lt tomb in omega (arith, b, pos)
  | inr other ↦ let b : bit (is_tombstone (at table i)) ≡ 0 = ap bit other in omega (arith, b)
]

Layout-tombs :
    (table : List Entry) (len tombs : ℕ)
    → Layout table len tombs
    → tombs ≡ number is_tombstone table
unfolding Layout
Layout-tombs table len tombs layout = layout.2

-- A new record at a free slot.
pub fill-WellFormed :
    (s : Inner) (name : Bytes) (id : ℕ) (x : Item) (i : ℕ)
    → WellFormed s
    → (s.len + s.tombstones + 1) * 8 < length s.table * 7
    → id < length s.counts
    → i < length s.table
    → occupied (at s.table i) ≡ false
    → Reach s.table (hash id x.key) i
    → WellFormed (fill s name id x i)
unfolding WellFormed fill update_indexes
fill-WellFormed s name id x i (layout, counts, named, same) room inside lt free reach =
    let e = entry_of x id (put_two s.slab x.key x.val).1 1 in
    let real = hash_real id x.key in
    let now : bit (occupied e) ≡ 1 = ap bit real in
    let was : bit (occupied (at s.table i)) ≡ 0 = ap bit free in
    let mine : bit (live id e) ≡ 1 = ground (arith, real) in
    let not_mine : bit (live id (at s.table i)) ≡ 0 = ground (arith, free) in
    let tomb : bit (is_tombstone e) ≡ 0 = ground (arith, real) in
    let count = Layout-tombs s.table s.len s.tombstones layout in
    let few = bit_at s.table i lt in
    let left = tombs_left (is_tombstone (at s.table i)) s.tombstones (omega (arith, count, few)) in
    (
      Layout-set s.table s.len s.tombstones (s.len + 1)
          (if (at s.table i).hash == 1 then s.tombstones - 1 else s.tombstones) i e layout lt
          (ground (arith, real)) (λ o. reach) (omega (arith, now, was)) (omega (arith, left, tomb))
          (omega (arith, left, room)),
      CountsOf-set s.counts s.table i id (get_or s.counts id 0 + 1) e counts lt inside
          (omega (arith, mine, not_mine)) (λ other ne. ground (arith, ne, free)),
      named,
      length-set s.counts id (get_or s.counts id 0 + 1) ∙ same,
    )

pub overwrite-WellFormed :
    (s : Inner) (name : Bytes) (id : ℕ) (x : Item) (i : ℕ)
    → WellFormed s
    → i < length s.table
    → occupied (at s.table i) ≡ true
    → hit s.slab id x.key (at s.table i) ≡ true
    → WellFormed (overwrite s name id x i).0
unfolding WellFormed overwrite update_indexes
overwrite-WellFormed s name id x i (layout, counts, named, same) lt occ match_ =
    let (same_hash, same_map) = hit_parts s id x.key (at s.table i) match_ in
    (
      Layout-keep s.table s.len s.tombstones i _ layout lt occ (sym same_hash),
      CountsOf-keep s.counts s.table i _ counts lt (sym same_hash) (sym same_map),
      named,
      same,
    )

evict_over-WellFormed :
    (s : Inner) (name : Bytes) (id : ℕ) (cfg : Option MapConfig) (seed : ℕ → ℕ)
    → WellFormed s
    → WellFormed (evict_over s name id cfg seed)
unfolding evict_over
evict_over-WellFormed s name id none seed w = w
evict_over-WellFormed s name id (some cfg) seed w =
    elim (Bool-cases (ltb 0 cfg.max_size && ltb cfg.max_size (get_or s.counts id 0))) [
      | inl over ↦ rw (over) (evict_one-WellFormed s name id cfg.eviction_policy seed w)
      | inr within ↦ rw (within) w
    ]

evict_over-names :
    (s : Inner) (name : Bytes) (id : ℕ) (cfg : Option MapConfig) (seed : ℕ → ℕ)
    → (evict_over s name id cfg seed).map_names ≡ s.map_names
unfolding evict_over
evict_over-names s name id none seed = refl
evict_over-names s name id (some cfg) seed =
    elim (Bool-cases (ltb 0 cfg.max_size && ltb cfg.max_size (get_or s.counts id 0))) [
      | inl over ↦ rw (over) (evict_one-names s name id cfg.eviction_policy seed)
      | inr within ↦ rw (within) refl
    ]

-- What a write leaves: a well-formed shard, with one more map at most.
unfoldable pub Leaves : ℕ → Inner → Type 0
Leaves maps t = WellFormed t × (length t.map_names ≤ maps)

overwrite_names :
    (s : Inner) (name : Bytes) (id : ℕ) (x : Item) (i : ℕ)
    → length (overwrite s name id x i).0.map_names ≤ length s.map_names
unfolding overwrite update_indexes
overwrite_names s name id x i = omega arith

fill_names :
    (s : Inner) (name : Bytes) (id : ℕ) (x : Item) (i : ℕ)
    → (fill s name id x i).map_names ≡ s.map_names
unfolding fill update_indexes
fill_names s name id x i = refl

put_at-Leaves :
    (s : Inner) (name : Bytes) (id : ℕ) (x : Item) (seed : ℕ → ℕ)
    → WellFormed s
    → (s.len + s.tombstones + 1) * 8 < length s.table * 7
    → id < length s.counts
    → (r : Inner × Option Bytes) × (put_at s name id x seed (probe_free s id x.key) ≡ some r)
      × Leaves (length s.map_names) r.0
unfolding put_at Leaves Chosen
put_at-Leaves s name id x seed w room inside =
    let (i, lt, which) =
      seek_free-Chosen (hit s.slab id x.key) s.table (hash id x.key) (WellFormed-Roomy s w)
        (WellFormed-Chained s w) in
    elim which [
      | inl (comes, occ, match_) ↦ (
        overwrite s name id x i,
        rw (comes) refl,
        (overwrite-WellFormed s name id x i w lt occ match_, overwrite_names s name id x i),
      )
      | inr (comes, vac, reach, absent) ↦
          let t = fill s name id x i in
          (
            (evict_over t name id (t.configs name) seed, none),
            rw (comes) refl,
            (
              evict_over-WellFormed t name id (t.configs name) seed
                  (fill-WellFormed s name id x i w room inside lt vac reach),
              (let e =
                    ap length (
                      evict_over-names t name id (t.configs name) seed
                      ∙ fill_names s name id x i) in
                  omega (arith, e)),
            ),
          )
    ]

-- A write always returns.
pub put-Leaves :
    (s : Inner) (name : Bytes) (x : Item) (seed : ℕ → ℕ)
    → WellFormed s
    → length s.map_names < 2 ^ 32
    → (r : Inner × Option Bytes) × (put s name x seed ≡ some r)
      × Leaves (length s.map_names + 1) r.0
unfolding put put_grown Leaves Interned
put-Leaves s name x seed w few =
    let (w', inside, known, tabled, slabbed, configured, one_more) = intern-Interned s name w few in
    let id = (intern s name).1 in
    let (t, grows, grown, room, counted, ids, names, slab) =
      maybe_grow-WellFormed (intern s name).0 w' in
    let (r, comes, (wr, maps)) =
      put_at-Leaves t name id x seed grown room
        (let c = ap length counted in omega (arith, inside, c)) in
    (r, rw (grows) comes, (wr, (let n = ap length names in omega (arith, maps, n, one_more))))
