-- ===== src/Store/Inner/Runs.antt =====
-- Runs of one shard of crates/store/src/lib.rs: the operations that hold its lock one after another.
use bonsaigrid.Base.{
  ℕ, ◌+◌, ◌^◌, ◌<◌, ◌≡◌, refl, sym, ap, subst, inl, inr, Bool, Option, none, some, Option-cases,
  List, [], ◌∷◌, length, arith,
}
use bonsaigrid.Base.Bytes.{Bytes}
use bonsaigrid.Base.Maps.{insert, bytes_eq}
use bonsaigrid.Store.Probe.Counts.{number}
use bonsaigrid.Store.Inner.{Inner, MapConfig, new_inner}
use bonsaigrid.Store.Inner.Writes.{
  Item, put, get, remove, put_if_absent, put_merge, replace, clear, size, size_of, left, clear_map,
}
use bonsaigrid.Store.Inner.Layout.{CountsOf, live}
use bonsaigrid.Store.Inner.Sound.{WellFormed}
use bonsaigrid.Store.Inner.Puts.{Leaves, put-Leaves}
use bonsaigrid.Store.Inner.Total.{
  get-Leaves, remove-Leaves, put_if_absent-Leaves, put_merge-Leaves, replace-Leaves,
}
use bonsaigrid.Store.Inner.Clears.{new_inner-WellFormed, clear-Cleared, Cleared}

-- An operation with the clock that it reads and the seeds of its draws.
pub data Op : Type 0 where
  put_op : (name : Bytes) (x : Item) (seed : ℕ → ℕ) → Op
  put_if_absent_op : (name : Bytes) (x : Item) (seed : ℕ → ℕ) → Op
  put_merge_op : (name : Bytes) (x : Item) (latest_update : Bool) (seed : ℕ → ℕ) → Op
  get_op : (name key : Bytes) (now : ℕ) → Op
  remove_op : (name key : Bytes) (now : ℕ) → Op
  replace_op : (name key val : Bytes) (now : ℕ) → Op
  clear_op : (name : Bytes) → Op
  config_op : (name : Bytes) (config : MapConfig) → Op

-- What `set_config` does to one shard.
unfoldable pub set_config : Inner → Bytes → MapConfig → Inner
set_config s name config = record s { configs = insert name config s.configs }

unfoldable pub apply : Inner → Op → Option Inner
apply s (put_op name x seed) = left (put s name x seed)
apply s (put_if_absent_op name x seed) = left (put_if_absent s name x seed)
apply s (put_merge_op name x latest_update seed) = put_merge s name x latest_update seed
apply s (get_op name key now) = left (get s name key now)
apply s (remove_op name key now) = left (remove s name key now)
apply s (replace_op name key val now) = left (replace s name key val now)
apply s (clear_op name) = some (clear s name)
apply s (config_op name config) = some (set_config s name config)

unfoldable pub run : Inner → List Op → Option Inner
run s [] = some s
run s (op ∷ ops) = elim (apply s op) [ none ↦ none | some t ↦ run t ops ]

set_config-Leaves :
    (s : Inner) (name : Bytes) (config : MapConfig)
    → WellFormed s
    → Leaves (length s.map_names + 1) (set_config s name config)
unfolding set_config Leaves WellFormed
set_config-Leaves s name config w = (w, omega arith)

clear-Leaves :
    (s : Inner) (name : Bytes) → WellFormed s → Leaves (length s.map_names + 1) (clear s name)
unfolding Leaves Cleared
clear-Leaves s name w = elim (Option-cases (s.map_ids name)) [
  | inl unnamed ↦
      subst (Leaves (length s.map_names + 1)) (sym (clear_unnamed s name unnamed)) (w, omega arith)
  | inr (id, named) ↦
      let (w', gone, others, ids, names) = clear-Cleared s name id w named in
      (w', (let n = ap length names in omega (arith, n)))
]
  where
    clear_unnamed : (s : Inner) (name : Bytes) → s.map_ids name ≡ none → clear s name ≡ s
    clear_unnamed s name unnamed = unfold clear clear_map in rw (unnamed) refl

-- Every operation returns.
apply-Leaves :
    (s : Inner) (op : Op)
    → WellFormed s
    → length s.map_names < 2 ^ 32
    → (t : Inner) × (apply s op ≡ some t) × Leaves (length s.map_names + 1) t
unfolding apply left Leaves
apply-Leaves s (put_op name x seed) w few =
    let (r, comes, leaves) = put-Leaves s name x seed w few in (r.0, rw (comes) refl, leaves)
apply-Leaves s (put_if_absent_op name x seed) w few =
    let (r, comes, leaves) = put_if_absent-Leaves s name x seed w few in
    (r.0, rw (comes) refl, leaves)
apply-Leaves s (put_merge_op name x latest_update seed) w few =
    put_merge-Leaves s name x latest_update seed w few
apply-Leaves s (get_op name key now) w few =
    let (r, comes, leaves) = get-Leaves s name key now w in
    (r.0, rw (comes) refl, (leaves.0, (let n = leaves.1 in omega (arith, n))))
apply-Leaves s (remove_op name key now) w few =
    let (r, comes, leaves) = remove-Leaves s name key now w in
    (r.0, rw (comes) refl, (leaves.0, (let n = leaves.1 in omega (arith, n))))
apply-Leaves s (replace_op name key val now) w few =
    let (r, comes, leaves) = replace-Leaves s name key val now w in
    (r.0, rw (comes) refl, (leaves.0, (let n = leaves.1 in omega (arith, n))))
apply-Leaves s (clear_op name) w few = (clear s name, refl, clear-Leaves s name w)
apply-Leaves s (config_op name config) w few =
    (set_config s name config, refl, set_config-Leaves s name config w)

run-WellFormed :
    (s : Inner) (ops : List Op)
    → WellFormed s
    → length s.map_names + length ops < 2 ^ 32
    → (t : Inner) × (run s ops ≡ some t) × WellFormed t
unfolding run Leaves
run-WellFormed s [] w few = (s, refl, w)
run-WellFormed s (op ∷ ops) w few =
    let (t, comes, (w', maps)) = apply-Leaves s op w (omega (arith, few)) in
    let (u, rest, w'') = run-WellFormed t ops w' (omega (arith, few, maps)) in
    (u, rw (comes, run) rest, w'')

size_counts :
    (s : Inner) (name : Bytes) (id : ℕ)
    → WellFormed s
    → s.map_ids name ≡ some id
    → size s name ≡ number (live id) s.table
unfolding size size_of WellFormed CountsOf
size_counts s name id w named = rw (named) (w.1 id)

-- Any sequence of fewer than 2^32 operations on a new shard returns, since no probe loop makes more
-- rounds than the table has slots; the shard is well-formed after it, and `size` is the number of the
-- map's records.
pub run_returns :
    (ops : List Op)
    → length ops < 2 ^ 32
    → (t : Inner) × (run new_inner ops ≡ some t)
      × WellFormed t
      × ((name : Bytes) (id : ℕ)
          → t.map_ids name ≡ some id
          → size t name ≡ number (live id) t.table)
run_returns ops few =
    let (t, comes, w) =
      run-WellFormed new_inner ops new_inner-WellFormed (omega (arith, few, none_yet)) in
    (t, comes, w, λ name id. size_counts t name id w)
  where
    none_yet : length new_inner.map_names ≡ 0
    none_yet = unfold new_inner in refl
