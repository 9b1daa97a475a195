-- ===== src/Store/Inner/Writes.antt =====
-- The operations of one shard that change entries, of crates/store/src/lib.rs.
use bonsaigrid.Base.{
  ℕ, zero, suc, ◌+◌, ◌-◌, ◌%◌, Bool, ◌&&◌, Option, none, some, ◌==◌, ltb, length, get_or, set,
  add64, if◌then◌else◌,
}
use bonsaigrid.Base.Bytes.{Bytes}
use bonsaigrid.Store.Entry.{Entry, Handle, occupied, at, hash}
use bonsaigrid.Store.Probe.{Probe, spins, vacant, found, seek_free}
use bonsaigrid.Store.Slab.{put_two, free, u32}
use bonsaigrid.Store.Inner.{
  Inner, MapConfig, intern, update_indexes, is_expired, val_bytes, hit, bury, more_hits, find,
  maybe_grow, evict_one,
}

-- `ttl_ms` as a time: 0 is never.
unfoldable pub expiry : ℕ → ℕ → ℕ
expiry ttl_ms now = if ltb 0 ttl_ms then add64 now ttl_ms else 0

-- What a write stores: the key, the value, and the entry's metadata, with what the clock says when
-- `find` looks the key up (`now`), and at the three readings of `put`: for `expire_at` (`set_at`),
-- for the test of the entry that is overwritten (`tested_at`), and for `last_access_ms`
-- (`stored_at`).
pub record Item : Type 0 where
  pub key : Bytes
  pub val : Bytes
  pub ttl_ms : ℕ
  pub stamp : ℕ
  pub now : ℕ
  pub set_at : ℕ
  pub tested_at : ℕ
  pub stored_at : ℕ

abbrev pub entry_of : Item → ℕ → Handle → ℕ → Entry
entry_of x id handle hits = record {
  hash = hash id x.key;
  map_id = id;
  handle = handle;
  key_len = u32 (length x.key);
  val_len = u32 (length x.val);
  expire_at = expiry x.ttl_ms x.set_at;
  stamp = x.stamp;
  last_access_ms = x.stored_at;
  hits = hits;
}

unfoldable pub fill : Inner → Bytes → ℕ → Item → ℕ → Inner
fill s name id x slot =
    let (slab, handle) = put_two s.slab x.key x.val in
    update_indexes
      (record s {
        slab = slab;
        table = set s.table slot (entry_of x id handle 1);
        len = s.len + 1;
        tombstones = if (at s.table slot).hash == 1 then s.tombstones - 1 else s.tombstones;
        counts = set s.counts id (get_or s.counts id 0 + 1);
      })
      name x.key none (some x.val)

unfoldable pub evict_over : Inner → Bytes → ℕ → Option MapConfig → (ℕ → ℕ) → Inner
evict_over s name id none seed = s
evict_over s name id (some cfg) seed =
    if ltb 0 cfg.max_size && ltb cfg.max_size (get_or s.counts id 0)
    then evict_one s name id cfg.eviction_policy seed
    else s

unfoldable pub overwrite : Inner → Bytes → ℕ → Item → ℕ → Inner × Option Bytes
overwrite s name id x i =
    let e = at s.table i in
    let old = if is_expired s id e x.tested_at then none else some (val_bytes s.slab e) in
    let (slab, handle) = put_two (free s.slab e.handle) x.key x.val in
    (
      update_indexes
          (record s {
            slab = slab;
            table = set s.table i (entry_of x id handle (more_hits e.hits));
          })
          name x.key old (some x.val),
      old,
    )

unfoldable pub put_at : Inner → Bytes → ℕ → Item → (ℕ → ℕ) → Probe → Option (Inner × Option Bytes)
put_at s name id x seed spins = none
put_at s name id x seed (vacant slot) =
    let t = fill s name id x slot in some (evict_over t name id (t.configs name) seed, none)
put_at s name id x seed (found i) = some (overwrite s name id x i)

abbrev pub probe_free : Inner → ℕ → Bytes → Probe
probe_free s id key =
    seek_free (hit s.slab id key) s.table (length s.table) (hash id key % length s.table) none

unfoldable pub put_grown : Bytes → ℕ → Item → (ℕ → ℕ) → Option Inner → Option (Inner × Option Bytes)
put_grown name id x seed none = none
put_grown name id x seed (some s) = put_at s name id x seed (probe_free s id x.key)

unfoldable pub put : Inner → Bytes → Item → (ℕ → ℕ) → Option (Inner × Option Bytes)
put s name x seed = let (t, id) = intern s name in put_grown name id x seed (maybe_grow t)

-- The value of the record that `find` has returned.
unfoldable pub read_at : Inner → Option ℕ → Option Bytes
read_at s none = none
read_at s (some i) = some (val_bytes s.slab (at s.table i))

unfoldable pub read : Option (Inner × Option ℕ) → Option (Inner × Option Bytes)
read none = none
read (some (s, i)) = some (s, read_at s i)

unfoldable pub get : Inner → Bytes → Bytes → ℕ → Option (Inner × Option Bytes)
get s name key now = read (find s name key now)

unfoldable pub remove_at : Bytes → Bytes → Option (Inner × Option ℕ) → Option (Inner × Option Bytes)
remove_at name key none = none
remove_at name key (some (s, none)) = some (s, none)
remove_at name key (some (s, some i)) =
    let e = at s.table i in
    let old = val_bytes s.slab e in
    some (bury (update_indexes s name key (some old) none) e.map_id i, some old)

unfoldable pub remove : Inner → Bytes → Bytes → ℕ → Option (Inner × Option Bytes)
remove s name key now = remove_at name key (find s name key now)

unfoldable pub put_absent :
    Bytes → Item → (ℕ → ℕ) → Option (Inner × Option ℕ) → Option (Inner × Option Bytes)
put_absent name x seed none = none
put_absent name x seed (some (s, some i)) = some (s, read_at s (some i))
put_absent name x seed (some (s, none)) = elim (put s name x seed) [
  | none ↦ none
  | some (t, old) ↦ some (t, none)
]

unfoldable pub put_if_absent : Inner → Bytes → Item → (ℕ → ℕ) → Option (Inner × Option Bytes)
put_if_absent s name x seed = put_absent name x seed (find s name x.key x.now)

unfoldable pub left : Option (Inner × Option Bytes) → Option Inner
left none = none
left (some (s, old)) = some s

unfoldable pub merge_at : Bytes → Item → Bool → (ℕ → ℕ) → Option (Inner × Option ℕ) → Option Inner
merge_at name x latest_update seed none = none
merge_at name x latest_update seed (some (s, none)) = left (put s name x seed)
merge_at name x latest_update seed (some (s, some i)) =
    if latest_update && ltb (at s.table i).stamp x.stamp then left (put s name x seed) else some s

unfoldable pub put_merge : Inner → Bytes → Item → Bool → (ℕ → ℕ) → Option Inner
put_merge s name x latest_update seed = merge_at name x latest_update seed (find s name x.key x.now)

unfoldable pub replace_at :
    Bytes → Bytes → Bytes → Option (Inner × Option ℕ) → Option (Inner × Option Bytes)
replace_at name key val none = none
replace_at name key val (some (s, none)) = some (s, none)
replace_at name key val (some (s, some i)) =
    let e = at s.table i in
    let old = val_bytes s.slab e in
    let t = update_indexes s name key (some old) (some val) in
    let (slab, handle) = put_two (free t.slab e.handle) key val in
    some (
      record t {
        slab = slab;
        table =
            set t.table i (record e {
              handle = handle;
              key_len = u32 (length key);
              val_len = u32 (length val);
            });
      },
      some old,
    )

unfoldable pub replace : Inner → Bytes → Bytes → Bytes → ℕ → Option (Inner × Option Bytes)
replace s name key val now = replace_at name key val (find s name key now)

unfoldable pub size_of : Inner → Option ℕ → ℕ
size_of s none = 0
size_of s (some id) = get_or s.counts id 0

unfoldable pub size : Inner → Bytes → ℕ
size s name = size_of s (s.map_ids name)

-- `clear` at one slot.
unfoldable pub clear_slot : Inner → ℕ → ℕ → Inner
clear_slot s id i =
    let e = at s.table i in
    if occupied e && (e.map_id == id)
    then record s {
      slab = free s.slab e.handle;
      table = set s.table i (record e { hash = 1 });
      len = s.len - 1;
      tombstones = s.tombstones + 1;
    }
    else s

-- The loop over the last `n` slots.
unfoldable pub clear_last : Inner → ℕ → ℕ → Inner
clear_last s id zero = s
clear_last s id (suc n) = clear_last (clear_slot s id (length s.table - suc n)) id n

unfoldable pub clear_map : Inner → Option ℕ → Inner
clear_map s none = s
clear_map s (some id) =
    let t = clear_last s id (length s.table) in record t { counts = set t.counts id 0 }

unfoldable pub clear : Inner → Bytes → Inner
clear s name = clear_map s (s.map_ids name)
