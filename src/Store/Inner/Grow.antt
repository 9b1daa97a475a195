-- ===== src/Store/Inner/Grow.antt =====
-- `intern`, `maybe_grow` and `evict_one` of crates/store/src/lib.rs keep a shard well-formed.
use native.Mathlib.Nat.{mod-lt, mod-eq_of_lt}
use bonsaigrid.Base.{
  none-ne-some, ℕ, zero, suc, ◌+◌, ◌*◌, ◌%◌, ◌^◌, ◌≤◌, ◌<◌, ◌≡◌, refl, sym, ap, subst, ◌∙◌, inl,
  inr, true, ◌&&◌, Bool-cases, Option, none, some, Option-cases, List, [], ◌∷◌, ◌++◌, ◌==◌, ltb,
  length, get_or, get_elem?, length-append, get_elem?-append_left, get_elem?-append_length,
  get_elem?-out, arith,
}
use bonsaigrid.Base.Bytes.{Bytes}
use bonsaigrid.Base.Maps.{HashMap, insert, bytes_eq, insert-cases, bytes_beq_iff}
use bonsaigrid.Store.Entry.{Entry, at, occupied}
use bonsaigrid.Store.Inner.{
  Inner, EvictionPolicy, keep_all, lru, lfu, random, intern, intern_new, update_indexes, maybe_grow,
  with_table, evict, evict_one, bury, first_of, sample, rand_idx, sample_best, better, candidate,
  key_bytes, val_bytes,
}
use bonsaigrid.Store.Slab.{u32}
use bonsaigrid.Store.Inner.Layout.{Layout, Layout-rehash, Grown, CountsOf}
use bonsaigrid.Store.Inner.Sound.{WellFormed, Named, bury-WellFormed}

get_or-append_zero : (xs : List ℕ) (i : ℕ) → get_or (xs ++ 0 ∷ []) i 0 ≡ get_or xs i 0
get_or-append_zero [] zero = refl
get_or-append_zero [] (suc i) = refl
get_or-append_zero (x ∷ xs) zero = refl
get_or-append_zero (x ∷ xs) (suc i) = get_or-append_zero xs i

Named-in :
    (ids : HashMap Bytes ℕ) (names : List Bytes) (name : Bytes) (id : ℕ)
    → Named ids names
    → ids name ≡ some id
    → id < length names
unfolding Named
Named-in ids names name id named p = elim (Bool-cases (ltb id (length names))) [
  | inl lt ↦ ground (arith, lt)
  | inr out ↦
      absurd (none-ne-some _ (sym (get_elem?-out names id (ground (arith, out))) ∙ named name id p))
]

Named-insert :
    (ids : HashMap Bytes ℕ) (names : List Bytes) (name : Bytes)
    → Named ids names
    → Named (insert name (length names) ids) (names ++ name ∷ [])
unfolding Named
Named-insert ids names name named other id p =
    elim (insert-cases name other (length names) id ids p) [
      | inl (same, e) ↦
          subst (λ k. get_elem? (names ++ name ∷ []) k ≡ some other) e
            (get_elem?-append_length names name [] ∙ ap some ((bytes_beq_iff name other).0 same))
      | inr (differs, there) ↦
          get_elem?-append_left names (name ∷ []) id (Named-in ids names other id named there)
          ∙ named other id there
    ]

-- The shard and the id that `intern` returns.
unfoldable pub Interned : Inner → Bytes → Inner × ℕ → Type 0
Interned s name r =
    WellFormed r.0
    × (r.1 < length r.0.counts)
    × (r.0.map_ids name ≡ some r.1)
    × (r.0.table ≡ s.table)
    × (r.0.slab ≡ s.slab)
    × (r.0.configs ≡ s.configs)
    × (length r.0.map_names ≤ length s.map_names + 1)

intern_fresh :
    (s : Inner) (name : Bytes)
    → WellFormed s
    → length s.map_names < 2 ^ 32
    → Interned s name (intern_new s name none)
unfolding Interned WellFormed intern_new CountsOf
intern_fresh s name (layout, counts, named, same) few =
    let id : u32 (length s.map_names) ≡ length s.map_names = mod-eq_of_lt few in
    (
      (
        layout,
        (λ i. get_or-append_zero s.counts i ∙ counts i),
        subst (λ i. Named (insert name i s.map_ids) (s.map_names ++ name ∷ [])) (sym id)
            (Named-insert s.map_ids s.map_names name named),
        (let a = length-append s.counts (0 ∷ []) in
            let b = length-append s.map_names (name ∷ []) in omega (arith, a, b, same)),
      ),
      (let a = length-append s.counts (0 ∷ []) in omega (arith, a, same, id)),
      rw ((bytes_beq_iff name name).1 refl) refl,
      refl,
      refl,
      refl,
      (let b = length-append s.map_names (name ∷ []) in omega (arith, b)),
    )

intern_known :
    (s : Inner) (name : Bytes) (id : ℕ)
    → WellFormed s
    → s.map_ids name ≡ some id
    → Interned s name (intern_new s name (some id))
unfolding Interned WellFormed intern_new
intern_known s name id w known = (
  w,
  (let lt = Named-in s.map_ids s.map_names name id w.2 known in omega (arith, lt, w.3)),
  known,
  refl,
  refl,
  refl,
  omega arith,
)

-- With fewer than 2^32 maps an id is given to one map only.
pub intern-Interned :
    (s : Inner) (name : Bytes)
    → WellFormed s
    → length s.map_names < 2 ^ 32
    → Interned s name (intern s name)
unfolding intern
intern-Interned s name w few = elim (Option-cases (s.map_ids name)) [
  | inl fresh ↦
      subst (λ o. Interned s name (intern_new s name o)) (sym fresh) (intern_fresh s name w few)
  | inr (id, known) ↦
      subst (λ o. Interned s name (intern_new s name o)) (sym known)
        (intern_known s name id w known)
]

pub maybe_grow-WellFormed :
    (s : Inner)
    → WellFormed s
    → (t : Inner) × (maybe_grow s ≡ some t)
      × WellFormed t
      × ((t.len + t.tombstones + 1) * 8 < length t.table * 7)
      × (t.counts ≡ s.counts)
      × (t.map_ids ≡ s.map_ids)
      × (t.map_names ≡ s.map_names)
      × (t.slab ≡ s.slab)
unfolding WellFormed maybe_grow with_table CountsOf Grown
maybe_grow-WellFormed s w =
    elim (Bool-cases (ltb ((s.len + s.tombstones + 1) * 8) (length s.table * 7))) [
      | inl room ↦ (s, rw (room) refl, w, ground (arith, room), refl, refl, refl, refl)
      | inr short ↦
          let (layout, counts, named, same) = w in
          let (table, comes, (grown, left, adds)) =
            Layout-rehash s.table s.len s.tombstones layout in
          (
            record s { table = table; tombstones = 0 },
            rw (short, comes) refl,
            (grown, (λ id. counts id ∙ sym (adds (λ e. e.map_id == id))), named, same),
            left,
            refl,
            refl,
            refl,
            refl,
          )
    ]

-- The slot that is evicted has a record of the map.
unfoldable pub Victim : ℕ → List Entry → Option ℕ → Type 0
Victim id table none = Unit
Victim id table (some i) =
    (i < length table) × (occupied (at table i) ≡ true) × ((at table i).map_id ≡ id)

first_of-Victim :
    (id : ℕ) (table : List Entry) (f i : ℕ)
    → i < length table
    → Victim id table (first_of id table f i)
unfolding first_of Victim
first_of-Victim id table zero i lt = tt
first_of-Victim id table (suc f) i lt =
    elim (Bool-cases (occupied (at table i) && ((at table i).map_id == id))) [
      | inl here ↦ rw (here) (lt, ground (arith, here), ground (arith, here))
      | inr other ↦
          rw (other)
            (first_of-Victim id table f ((i + 1) % length table) (mod-lt (i + 1) (omega arith)))
    ]

sample-Victim :
    (id : ℕ) (table : List Entry) (seed : ℕ)
    → 0 < length table
    → Victim id table (sample id table seed)
unfolding sample rand_idx
sample-Victim id table seed pos =
    first_of-Victim id table (length table) (seed % length table) (mod-lt seed pos)

better-Victim :
    (mark : Entry → ℕ) (id : ℕ) (table : List Entry) (best : Option ℕ × ℕ) (next : Option ℕ)
    → Victim id table best.0
    → Victim id table next
    → Victim id table (better mark table best next).0
unfolding better
better-Victim mark id table best none v w = v
better-Victim mark id table best (some i) v w = elim (Bool-cases (ltb (mark (at table i)) best.1)) [
  | inl smaller ↦ rw (smaller) w
  | inr larger ↦ rw (larger) v
]

sample_best-Victim :
    (mark : Entry → ℕ) (id : ℕ) (table : List Entry) (seeds : List ℕ) (best : Option ℕ × ℕ)
    → 0 < length table
    → Victim id table best.0
    → Victim id table (sample_best mark id table seeds best)
unfolding sample_best
sample_best-Victim mark id table [] best pos v = v
sample_best-Victim mark id table (seed ∷ seeds) best pos v =
    sample_best-Victim mark id table seeds (better mark table best (sample id table seed)) pos
      (better-Victim mark id table best (sample id table seed) v (sample-Victim id table seed pos))

pub candidate-Victim :
    (policy : EvictionPolicy) (id : ℕ) (table : List Entry) (seed : ℕ → ℕ)
    → 0 < length table
    → Victim id table (candidate policy id table seed)
unfolding candidate Victim
candidate-Victim keep_all id table seed pos = tt
candidate-Victim random id table seed pos = sample-Victim id table (seed 0) pos
candidate-Victim lru id table seed pos = sample_best-Victim _ id table _ _ pos tt
candidate-Victim lfu id table seed pos = sample_best-Victim _ id table _ _ pos tt

pub table_pos : (s : Inner) → WellFormed s → 0 < length s.table
unfolding WellFormed Layout
table_pos s w = let room = w.0.3 in omega (arith, room)

pub update_indexes-WellFormed :
    (s : Inner) (name key : Bytes) (old new : Option Bytes)
    → WellFormed s
    → WellFormed (update_indexes s name key old new)
unfolding WellFormed update_indexes
update_indexes-WellFormed s name key old new w = w

evict-WellFormed :
    (s : Inner) (name : Bytes) (id : ℕ) (o : Option ℕ)
    → WellFormed s
    → Victim id s.table o
    → WellFormed (evict s name id o)
unfolding evict Victim update_indexes
evict-WellFormed s name id none w v = w
evict-WellFormed s name id (some i) w (lt, occ, same) =
    let e = at s.table i in
    let t = update_indexes s name (key_bytes s.slab e) (some (val_bytes s.slab e)) none in
    subst (λ m. WellFormed (bury t m i)) same
      (bury-WellFormed t i
        (update_indexes-WellFormed s name (key_bytes s.slab e) (some (val_bytes s.slab e)) none w)
        lt occ)

-- An eviction removes one record of the map, or nothing.
pub evict_one-WellFormed :
    (s : Inner) (name : Bytes) (id : ℕ) (policy : EvictionPolicy) (seed : ℕ → ℕ)
    → WellFormed s
    → WellFormed (evict_one s name id policy seed)
unfolding evict_one
evict_one-WellFormed s name id policy seed w =
    evict-WellFormed s name id (candidate policy id s.table seed) w
      (candidate-Victim policy id s.table seed (table_pos s w))

evict-names :
    (s : Inner) (name : Bytes) (id : ℕ) (o : Option ℕ) → (evict s name id o).map_names ≡ s.map_names
unfolding evict bury update_indexes
evict-names s name id none = refl
evict-names s name id (some i) = refl

pub evict_one-names :
    (s : Inner) (name : Bytes) (id : ℕ) (policy : EvictionPolicy) (seed : ℕ → ℕ)
    → (evict_one s name id policy seed).map_names ≡ s.map_names
unfolding evict_one
evict_one-names s name id policy seed = evict-names s name id (candidate policy id s.table seed)
