-- ===== src/Store/Inner.antt =====
-- One shard, `Inner` of crates/store/src/lib.rs: its state, the lookup with its lazy removal of
-- expired entries, `maybe_grow`, and the eviction of an entry. The mask is the number of slots less
-- one, so `i & mask` is `i % length table`. An operation reads the clock once. The index that a map
-- may have is kept by the query engine; its updates are recorded as calls. An operation is `none`
-- when a probe loop makes more rounds than the table has slots.
use bonsaigrid.Base.{
  ℕ, zero, suc, ◌+◌, ◌-◌, ◌*◌, ◌%◌, min, Bool, true, false, ◌&&◌, ◌||◌, not, Option, none, some,
  List, [], ◌∷◌, ◌++◌, ◌==◌, ltb, leb, length, get_or, set, take, drop, replicate, u64_mod,
  if◌then◌else◌,
}
use bonsaigrid.Base.Bytes.{Bytes}
use bonsaigrid.Base.Maps.{HashMap, insert, bytes_eq, bytes_beq, no_entries}
use bonsaigrid.Store.Entry.{Entry, no_entry, occupied, at, hash}
use bonsaigrid.Store.Probe.{Probe, spins, vacant, found, seek, place_all}
use bonsaigrid.Store.Slab.{Slab, new_slab, get, free, u32}
pub mod Writes
pub mod Layout
pub mod Sound
pub mod Lookup
pub mod Grow
pub mod Puts
pub mod Total
pub mod Clears
pub mod Runs
pub mod Contents

pub data EvictionPolicy : Type 0 where
  keep_all lru lfu random : EvictionPolicy

pub record MapConfig : Type 0 where
  pub max_size : ℕ
  pub eviction_policy : EvictionPolicy
  pub max_idle_ms : ℕ

-- A call of `update_indexes`.
pub record IndexCall : Type 0 where
  pub name : Bytes
  pub key : Bytes
  pub old_val : Option Bytes
  pub new_val : Option Bytes

pub record Inner : Type 0 where
  pub slab : Slab
  pub table : List Entry
  pub len : ℕ
  pub tombstones : ℕ
  pub map_ids : HashMap Bytes ℕ
  pub map_names : List Bytes
  pub counts : List ℕ
  pub configs : HashMap Bytes MapConfig
  pub index_calls : List IndexCall

unfoldable pub new_inner : Inner
new_inner = record {
  slab = new_slab;
  table = replicate 1024 no_entry;
  len = 0;
  tombstones = 0;
  map_ids = no_entries;
  map_names = [];
  counts = [];
  configs = no_entries;
  index_calls = [];
}

unfoldable pub intern_new : Inner → Bytes → Option ℕ → Inner × ℕ
intern_new s name (some id) = (s, id)
intern_new s name none =
    let id = u32 (length s.map_names) in
    (
      record s {
        map_names = s.map_names ++ name ∷ [];
        map_ids = insert name id s.map_ids;
        counts = s.counts ++ 0 ∷ [];
      },
      id,
    )

unfoldable pub intern : Inner → Bytes → Inner × ℕ
intern s name = intern_new s name (s.map_ids name)

unfoldable pub update_indexes : Inner → Bytes → Bytes → Option Bytes → Option Bytes → Inner
update_indexes s name key old new = record s {
  index_calls =
      s.index_calls ++ record { name = name; key = key; old_val = old; new_val = new } ∷ [];
}

unfoldable pub is_idle : Option MapConfig → Entry → ℕ → Bool
is_idle none e now = false
is_idle (some cfg) e now = ltb 0 cfg.max_idle_ms && ltb cfg.max_idle_ms (now - e.last_access_ms)

unfoldable pub is_expired : Inner → ℕ → Entry → ℕ → Bool
is_expired s map_id e now =
    (not (e.expire_at == 0) && leb e.expire_at now)
    || is_idle (s.configs (get_or s.map_names map_id [])) e now

abbrev pub total : Entry → ℕ
total e = u32 (e.key_len + e.val_len)

unfoldable pub key_bytes : Slab → Entry → Bytes
key_bytes slab e = take e.key_len (get slab e.handle (total e))

unfoldable pub val_bytes : Slab → Entry → Bytes
val_bytes slab e = drop e.key_len (get slab e.handle (total e))

-- The test of `find` and `put` for the record of a key.
unfoldable pub hit : Slab → ℕ → Bytes → Entry → Bool
hit slab id key e = (e.hash == hash id key) && (e.map_id == id) && bytes_beq (key_bytes slab e) key

-- The record at `i` gives up its bytes and becomes a tombstone; the map `id` has one entry less.
unfoldable pub bury : Inner → ℕ → ℕ → Inner
bury s id i =
    let e = at s.table i in
    record s {
      slab = free s.slab e.handle;
      table = set s.table i (record e { hash = 1 });
      len = s.len - 1;
      tombstones = s.tombstones + 1;
      counts = set s.counts id (get_or s.counts id 0 - 1);
    }

-- `hits.saturating_add(1)`.
unfoldable pub more_hits : ℕ → ℕ
more_hits n = min (n + 1) 4294967295

unfoldable pub touch : Inner → ℕ → ℕ → Inner
touch s i now =
    let e = at s.table i in
    record s { table = set s.table i (record e { last_access_ms = now; hits = more_hits e.hits }) }

unfoldable pub find_at : Inner → ℕ → ℕ → Probe → Option (Inner × Option ℕ)
find_at s id now spins = none
find_at s id now (vacant i) = some (s, none)
find_at s id now (found i) =
    if is_expired s id (at s.table i) now
    then some (bury s id i, none)
    else some (touch s i now, some i)

abbrev pub probe_for : Inner → ℕ → Bytes → Probe
probe_for s id key =
    seek (hit s.slab id key) s.table (length s.table) (hash id key % length s.table)

unfoldable pub find_in : Inner → Bytes → ℕ → Option ℕ → Option (Inner × Option ℕ)
find_in s key now none = some (s, none)
find_in s key now (some id) = find_at s id now (probe_for s id key)

unfoldable pub find : Inner → Bytes → Bytes → ℕ → Option (Inner × Option ℕ)
find s name key now = find_in s key now (s.map_ids name)

unfoldable pub with_table : Inner → Option (List Entry) → Option Inner
with_table s none = none
with_table s (some table) = some (record s { table = table; tombstones = 0 })

unfoldable pub maybe_grow : Inner → Option Inner
maybe_grow s =
    if ltb ((s.len + s.tombstones + 1) * 8) (length s.table * 7)
    then some s
    else with_table s (place_all s.table (replicate (length s.table * 2) no_entry))

-- The first record of a map from a slot on, over one round.
unfoldable pub first_of : ℕ → List Entry → ℕ → ℕ → Option ℕ
first_of id table zero i = none
first_of id table (suc fuel) i =
    let e = at table i in
    let rest = first_of id table fuel ((i + 1) % length table) in
    if occupied e && (e.map_id == id) then some i else rest

-- `rand_idx`, with the seed that its counter gives.
unfoldable pub rand_idx : ℕ → ℕ → ℕ
rand_idx seed max = seed % max

unfoldable pub sample : ℕ → List Entry → ℕ → Option ℕ
sample id table seed = first_of id table (length table) (rand_idx seed (length table))

-- One sample of the Lru or Lfu loop: the record is the best so far when its mark is smaller.
unfoldable pub better : (Entry → ℕ) → List Entry → Option ℕ × ℕ → Option ℕ → Option ℕ × ℕ
better mark table best none = best
better mark table best (some i) =
    if ltb (mark (at table i)) best.1 then (some i, mark (at table i)) else best

unfoldable pub sample_best : (Entry → ℕ) → ℕ → List Entry → List ℕ → Option ℕ × ℕ → Option ℕ
sample_best mark id table [] best = best.0
sample_best mark id table (seed ∷ seeds) best =
    sample_best mark id table seeds (better mark table best (sample id table seed))

-- The record that is evicted; `seed` gives the seeds of the draws, of which Lru and Lfu make five.
unfoldable pub candidate : EvictionPolicy → ℕ → List Entry → (ℕ → ℕ) → Option ℕ
candidate keep_all id table seed = none
candidate random id table seed = sample id table (seed 0)
candidate lru id table seed =
    sample_best (λ e. e.last_access_ms) id table (seed 0 ∷ seed 1 ∷ seed 2 ∷ seed 3 ∷ seed 4 ∷ [])
      (none, u64_mod - 1)
candidate lfu id table seed =
    sample_best (λ e. e.hits) id table (seed 0 ∷ seed 1 ∷ seed 2 ∷ seed 3 ∷ seed 4 ∷ [])
      (none, 4294967295)

unfoldable pub evict : Inner → Bytes → ℕ → Option ℕ → Inner
evict s name id none = s
evict s name id (some i) =
    let e = at s.table i in
    bury (update_indexes s name (key_bytes s.slab e) (some (val_bytes s.slab e)) none) id i

unfoldable pub evict_one : Inner → Bytes → ℕ → EvictionPolicy → (ℕ → ℕ) → Inner
evict_one s name id policy seed = evict s name id (candidate policy id s.table seed)
