-- ===== src/Store/Inner/Total.antt =====
-- `get`, `remove`, `put_if_absent`, `put_merge` and `replace` of crates/store/src/lib.rs always return,
-- and leave a well-formed shard.
use bonsaigrid.Base.{
  ℕ, ◌+◌, ◌^◌, ◌<◌, ◌≡◌, refl, ap, subst, inl, inr, Bool, ◌&&◌, Bool-cases, Option, none, some, ltb,
  length, arith,
}
use bonsaigrid.Base.Bytes.{Bytes}
use bonsaigrid.Store.Entry.{at}
use bonsaigrid.Store.Inner.{Inner, update_indexes, bury, val_bytes}
use bonsaigrid.Store.Inner.Writes.{
  Item, put, read, read_at, get, remove_at, remove, put_absent, put_if_absent, left, merge_at,
  put_merge, replace_at, replace,
}
use bonsaigrid.Store.Inner.Layout.{Layout-keep, CountsOf-keep}
use bonsaigrid.Store.Inner.Sound.{WellFormed, bury-WellFormed}
use bonsaigrid.Store.Inner.Lookup.{Sound, find-Sound}
use bonsaigrid.Store.Inner.Puts.{Leaves, put-Leaves}
use bonsaigrid.Store.Inner.Grow.{update_indexes-WellFormed}

Sound-WellFormed : (r : Inner × Option ℕ) → Sound r → WellFormed r.0
unfolding Sound
Sound-WellFormed (s, none) w = w
Sound-WellFormed (s, some i) w = w.0

-- `get` always returns.
pub get-Leaves :
    (s : Inner) (name key : Bytes) (now : ℕ)
    → WellFormed s
    → (r : Inner × Option Bytes) × (get s name key now ≡ some r) × Leaves (length s.map_names) r.0
unfolding get read Leaves
get-Leaves s name key now w =
    let (r, comes, sound, names) = find-Sound s name key now w in
    (
      (r.0, read_at r.0 r.1),
      rw (comes) refl,
      (Sound-WellFormed r sound, (let n = ap length names in omega (arith, n))),
    )

remove_at-Leaves :
    (name key : Bytes) (r : Inner × Option ℕ)
    → Sound r
    → (q : Inner × Option Bytes) × (remove_at name key (some r) ≡ some q)
      × Leaves (length r.0.map_names) q.0
unfolding remove_at Sound Leaves bury update_indexes
remove_at-Leaves name key (s, none) w = ((s, none), refl, (w, omega arith))
remove_at-Leaves name key (s, some i) (w, lt, occ) =
    let e = at s.table i in
    let t = update_indexes s name key (some (val_bytes s.slab e)) none in
    (
      (bury t e.map_id i, some (val_bytes s.slab e)),
      refl,
      (
        bury-WellFormed t i
            (update_indexes-WellFormed s name key (some (val_bytes s.slab e)) none w) lt occ,
        omega arith,
      ),
    )

-- `remove` always returns.
pub remove-Leaves :
    (s : Inner) (name key : Bytes) (now : ℕ)
    → WellFormed s
    → (r : Inner × Option Bytes) × (remove s name key now ≡ some r)
      × Leaves (length s.map_names) r.0
unfolding remove Leaves
remove-Leaves s name key now w =
    let (r, comes, sound, names) = find-Sound s name key now w in
    let (q, gone, (wq, maps)) = remove_at-Leaves name key r sound in
    (q, rw (comes) gone, (wq, (let n = ap length names in omega (arith, n, maps))))

put_absent-Leaves :
    (name : Bytes) (x : Item) (seed : ℕ → ℕ) (r : Inner × Option ℕ)
    → Sound r
    → length r.0.map_names < 2 ^ 32
    → (q : Inner × Option Bytes) × (put_absent name x seed (some r) ≡ some q)
      × Leaves (length r.0.map_names + 1) q.0
unfolding put_absent Sound Leaves
put_absent-Leaves name x seed (s, some i) (w, lt, occ) few =
    ((s, read_at s (some i)), refl, (w, omega arith))
put_absent-Leaves name x seed (s, none) w few =
    let (q, comes, leaves) = put-Leaves s name x seed w few in
    ((q.0, none), rw (comes, put_absent) refl, leaves)

-- `put_if_absent` always returns.
pub put_if_absent-Leaves :
    (s : Inner) (name : Bytes) (x : Item) (seed : ℕ → ℕ)
    → WellFormed s
    → length s.map_names < 2 ^ 32
    → (r : Inner × Option Bytes) × (put_if_absent s name x seed ≡ some r)
      × Leaves (length s.map_names + 1) r.0
unfolding put_if_absent
put_if_absent-Leaves s name x seed w few =
    let (r, comes, sound, names) = find-Sound s name x.key x.now w in
    let n = ap length names in
    let (q, put, leaves) = put_absent-Leaves name x seed r sound (omega (arith, n, few)) in
    (q, rw (comes) put, subst (λ k. Leaves (k + 1) q.0) n leaves)

merge_at-Leaves :
    (name : Bytes) (x : Item) (latest_update : Bool) (seed : ℕ → ℕ) (r : Inner × Option ℕ)
    → Sound r
    → length r.0.map_names < 2 ^ 32
    → (t : Inner) × (merge_at name x latest_update seed (some r) ≡ some t)
      × Leaves (length r.0.map_names + 1) t
unfolding merge_at left Sound Leaves
merge_at-Leaves name x latest_update seed (s, none) w few =
    let (q, comes, leaves) = put-Leaves s name x seed w few in (q.0, rw (comes) refl, leaves)
merge_at-Leaves name x latest_update seed (s, some i) (w, lt, occ) few =
    let (q, comes, leaves) = put-Leaves s name x seed w few in
    elim (Bool-cases (latest_update && ltb (at s.table i).stamp x.stamp)) [
      | inl newer ↦ (q.0, rw (newer, comes) refl, leaves)
      | inr older ↦ (s, rw (older) refl, (w, omega arith))
    ]

-- `put_merge` always returns.
pub put_merge-Leaves :
    (s : Inner) (name : Bytes) (x : Item) (latest_update : Bool) (seed : ℕ → ℕ)
    → WellFormed s
    → length s.map_names < 2 ^ 32
    → (t : Inner) × (put_merge s name x latest_update seed ≡ some t)
      × Leaves (length s.map_names + 1) t
unfolding put_merge
put_merge-Leaves s name x latest_update seed w few =
    let (r, comes, sound, names) = find-Sound s name x.key x.now w in
    let n = ap length names in
    let (t, put, leaves) =
      merge_at-Leaves name x latest_update seed r sound (omega (arith, n, few)) in
    (t, rw (comes) put, subst (λ k. Leaves (k + 1) t) n leaves)

replace_at-Leaves :
    (name key val : Bytes) (r : Inner × Option ℕ)
    → Sound r
    → (q : Inner × Option Bytes) × (replace_at name key val (some r) ≡ some q)
      × Leaves (length r.0.map_names) q.0
unfolding replace_at Sound Leaves WellFormed update_indexes
replace_at-Leaves name key val (s, none) w = ((s, none), refl, (w, omega arith))
replace_at-Leaves name key val (s, some i) ((layout, counts, named, same), lt, occ) = (
  _,
  refl,
  (
    (
      Layout-keep s.table s.len s.tombstones i _ layout lt occ refl,
      CountsOf-keep s.counts s.table i _ counts lt refl refl,
      named,
      same,
    ),
    omega arith,
  ),
)

-- `replace` always returns.
pub replace-Leaves :
    (s : Inner) (name key val : Bytes) (now : ℕ)
    → WellFormed s
    → (r : Inner × Option Bytes) × (replace s name key val now ≡ some r)
      × Leaves (length s.map_names) r.0
unfolding replace
replace-Leaves s name key val now w =
    let (r, comes, sound, names) = find-Sound s name key now w in
    let (q, gone, leaves) = replace_at-Leaves name key val r sound in
    (q, rw (comes) gone, subst (λ k. Leaves k q.0) (ap length names) leaves)
