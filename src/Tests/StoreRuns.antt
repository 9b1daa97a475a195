-- ===== src/Tests/StoreRuns.antt =====
-- The theorems about the stores, crates/store/src, at concrete shards, slabs and clocks.
use native.Mathlib.Nat.{mod-lt}
use bonsaigrid.Base.{
  true, ℕ, zero, suc, ◌+◌, ◌%◌, ◌^◌, ◌<◌, ◌≡◌, refl, sym, ap, subst, inl, inr, false, Option, some,
  none, List, [], ◌∷◌, replicate, get_or, get_elem?, arith,
}
use bonsaigrid.Base.Bytes.{Bytes}
use bonsaigrid.Base.Maps.{insert, insert-cases, bytes_eq, bytes_beq, bytes_beq_iff, no_entries}
use bonsaigrid.Store.Entry.{at, Handle, no_entry, hash, occupied}
use bonsaigrid.Store.Probe.Counts.{number}
use bonsaigrid.Store.Probe.Chains.{Reach}
use bonsaigrid.Store.Probe.Rehash.{replicate-Chained, at-replicate}
use bonsaigrid.Store.Slab.{Slab, new_slab, put_two, free}
use bonsaigrid.Store.Slab.Memory.{SlabFits, Puts, Allocated}
use bonsaigrid.Store.Slab.Stores.{put_two-Puts}
use bonsaigrid.Store.Slab.Frees.{free-Releases, Releases, new_slab-SlabFits}
use bonsaigrid.Store.Inner.{Inner, new_inner, find, update_indexes}
use bonsaigrid.Store.Inner.Contents.{Filed}
use bonsaigrid.Store.Inner.Contents.Slots.{ItemFits}
use bonsaigrid.Store.Inner.Contents.Values.{Assigns, Unbounded, fill-Assigns}
use bonsaigrid.Store.Inner.Contents.Removal.{Removes, remove-Removes}
use bonsaigrid.Store.Inner.Contents.Puts.{Ready, put-Assigns}
use bonsaigrid.Store.Inner.Contents.Gets.{Reads, get-put}
use bonsaigrid.Store.Inner.Writes.{Item, remove, put, get, fill, clear, size}
use bonsaigrid.Store.Inner.Layout.{Layout, CountsOf, live}
use bonsaigrid.Store.Inner.Sound.{WellFormed, Named}
use bonsaigrid.Store.Inner.Lookup.{find-Finds, Finds}
use bonsaigrid.Store.Inner.Puts.{fill-WellFormed}
use bonsaigrid.Store.Inner.Clears.{clear-Cleared, Cleared}
use bonsaigrid.Store.Inner.Runs.{Op, put_op, get_op, clear_op, run, run_returns}
use bonsaigrid.Store.Stamp.{
  Call, next, observe, trace, Increasing, Marked, next_stamp_at, Dated, stamps_increase,
  stamp_falls_back,
}

abbrev name_m : Bytes
name_m = 109 ∷ []

abbrev item : Item
item = record {
  key = 7 ∷ [];
  val = 8 ∷ 9 ∷ [];
  ttl_ms = 0;
  stamp = 5;
  now = 100;
  set_at = 100;
  tested_at = 101;
  stored_at = 102;
}

-- A shard of four slots with the map "m".
abbrev small : Inner
small = record new_inner {
  table = replicate 4 no_entry;
  map_ids = insert name_m 0 no_entries;
  map_names = name_m ∷ [];
  counts = 0 ∷ [];
}

small-WellFormed : WellFormed small
unfolding WellFormed Layout CountsOf Named new_inner number
small-WellFormed =
    (((1, refl), refl, refl, omega arith, replicate-Chained 4), none_yet, named, refl)
  where
    none_yet : (id : ℕ) → get_or (0 ∷ []) id 0 ≡ number (live id) (replicate 4 no_entry)
    none_yet zero = refl
    none_yet (suc id) = refl

    named :
        (name : Bytes) (id : ℕ)
        → insert name_m 0 no_entries name ≡ some id
        → get_elem? (name_m ∷ []) id ≡ some name
    named name id p = elim (insert-cases name_m name 0 id no_entries p) [
      | inl (same, e) ↦
          subst (λ k. get_elem? (name_m ∷ []) k ≡ some name) e
            (ap some ((bytes_beq_iff name_m name).0 same))
      | inr (differs, there) ↦
          absurd (subst (λ o. elim o as (λ o. Type 0) [ none ↦ Unit | some k ↦ ⊥ ]) there tt)
    ]

-- The slot of the key.
abbrev home : ℕ
home = hash 0 item.key % 4

filled : Inner
filled = fill small name_m 0 item home

filled-WellFormed : WellFormed filled
unfolding filled new_inner Reach
filled-WellFormed =
    fill-WellFormed small name_m 0 item home small-WellFormed (omega arith) (omega arith)
      (mod-lt (hash 0 item.key) (omega arith))
      (subst (λ e. occupied e ≡ false) (sym (at-replicate 4 home)) refl)
      (0, ap (λ h. h % 4) (omega arith), omega arith, λ j lt. elim lt [ ])

-- A lookup of the key at a later time.
find-Finds_example :
    (r : Inner × Option ℕ) × (find filled name_m item.key 200 ≡ some r)
    × Finds filled 0 item.key 200 r
unfolding filled fill update_indexes bytes_beq
find-Finds_example = find-Finds filled name_m item.key 200 0 filled-WellFormed refl

clear-Cleared_example : Cleared filled 0 (clear filled name_m)
unfolding filled fill update_indexes bytes_beq
clear-Cleared_example = clear-Cleared filled name_m 0 filled-WellFormed refl

-- The empty shard is as `put` needs it.
small-Ready : Ready small
unfolding Ready Filed new_inner number
small-Ready = (
  small-WellFormed,
  (
    new_slab-SlabFits.0,
    (λ k lt occ. absurd (vacant_slot k occ)),
    (λ h. omega arith),
    λ id key. omega arith,
  ),
  new_slab-SlabFits.1,
  omega arith,
)
  where
    vacant_slot : (k : ℕ) → occupied (at (replicate 4 no_entry) k) ≡ true → ⊥
    vacant_slot k occ =
        let p : occupied no_entry ≡ true = subst (λ e. occupied e ≡ true) (at-replicate 4 k) occ in
        ground (arith, p)

seeds : ℕ → ℕ
seeds k = k

put-Assigns_example :
    (r : Inner × Option Bytes) × (put small name_m item seeds ≡ some r)
    × WellFormed r.0
    × ((id : ℕ) × (r.0.map_ids name_m ≡ some id) × Assigns small id item r.0)
unfolding ItemFits Unbounded new_inner
put-Assigns_example = put-Assigns small name_m item seeds small-Ready (omega arith) tt

get-put_example :
    (r : Inner × Option Bytes) × (put small name_m item seeds ≡ some r)
    × ((q : Inner × Option Bytes) × (get r.0 name_m item.key 300 ≡ some q)
        × ((id : ℕ) × (r.0.map_ids name_m ≡ some id) × Reads r.0 id item.key item.val 300 q.1))
unfolding ItemFits Unbounded new_inner
get-put_example = get-put small name_m item seeds 300 small-Ready (omega arith) tt

filled-Filed : Filed filled.slab filled.table
unfolding filled Assigns Filed Ready ItemFits new_inner
filled-Filed =
    (fill-Assigns small name_m 0 item home small-Ready.1 small-Ready.2 (omega arith)
      (mod-lt (hash 0 item.key) (omega arith))
      (subst (λ e. occupied e ≡ false) (sym (at-replicate 4 home)) refl)
      (λ k lt occ. absurd (
        let p : occupied no_entry ≡ true = subst (λ e. occupied e ≡ true) (at-replicate 4 k) occ in
        ground (arith, p)))).0

remove-Removes_example :
    (q : Inner × Option Bytes) × (remove filled name_m item.key 200 ≡ some q)
    × Removes filled 0 item.key q.0
unfolding filled fill update_indexes bytes_beq
remove-Removes_example =
    remove-Removes filled name_m item.key 200 0 filled-WellFormed filled-Filed refl

-- A put, a read and a clear on a new shard.
abbrev some_ops : List Op
some_ops =
    put_op name_m item (λ k. k)
    ∷ get_op name_m item.key 150
    ∷ clear_op name_m
    ∷ get_op name_m item.key 160
    ∷ []

run_returns_example :
    (t : Inner) × (run new_inner some_ops ≡ some t)
    × WellFormed t
    × ((name : Bytes) (id : ℕ) → t.map_ids name ≡ some id → size t name ≡ number (live id) t.table)
run_returns_example = run_returns some_ops (omega arith)

put_two-Puts_example : Puts new_slab (1 ∷ 2 ∷ 3 ∷ []) (put_two new_slab (1 ∷ []) (2 ∷ 3 ∷ []))
put_two-Puts_example =
    put_two-Puts new_slab (1 ∷ []) (2 ∷ 3 ∷ []) new_slab-SlabFits.0 new_slab-SlabFits.1

-- The slab after a put, and the handle that it returned.
abbrev stored : Slab × Handle
stored = put_two new_slab (1 ∷ []) (2 ∷ 3 ∷ [])

stored_fits : SlabFits stored.0 × Allocated stored.0 stored.1
unfolding Puts
stored_fits =
    let p = put_two-Puts new_slab (1 ∷ []) (2 ∷ 3 ∷ []) new_slab-SlabFits.0 new_slab-SlabFits.1 in
    (p.0, p.2)

free-Releases_example : Releases stored.0 stored.1 (free stored.0 stored.1)
free-Releases_example = free-Releases stored.0 stored.1 stored_fits.0 stored_fits.1

-- Two calls in one millisecond around the receipt of a peer's later stamp.
abbrev calls : List Call
calls = next 5000 ∷ observe 671088640000 ∷ next 5000 ∷ next 4999 ∷ []

stamps_increase_example : Increasing 0 (trace 3 0 calls) × Marked 3 (trace 3 0 calls)
unfolding Dated
stamps_increase_example =
    stamps_increase 3 calls (omega arith)
      (omega arith, (omega arith, (omega arith, (omega arith, tt))))

stamp_falls_back_example : next_stamp_at 3 128000000 (2 ^ 41 + 10) < 128000000
stamp_falls_back_example = stamp_falls_back 3 128000000 10 (omega arith) (omega arith) (omega arith)
