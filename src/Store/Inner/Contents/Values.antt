-- ===== src/Store/Inner/Contents/Values.antt =====
-- `put` of crates/store/src/lib.rs, seen from outside: the key has the new value, and every other key
-- has the values that it had.
use bonsaigrid.Base.{
  some-injective, none-ne-some, ℕ, suc, ◌+◌, ◌*◌, ◌%◌, ◌<◌, ◌≡◌, refl, sym, ap, subst, ◌∙◌, inl,
  inr, true, false, ◌&&◌, Bool-cases, Option, none, some, List, [], ◌∷◌, ◌==◌, ltb, length, set,
  replicate, length-set, ℕ_discrete, arith,
}
use bonsaigrid.Base.Bytes.{Bytes}
use bonsaigrid.Base.Maps.{bytes_beq}
use bonsaigrid.Store.Entry.{Entry, no_entry, at, occupied}
use bonsaigrid.Store.Probe.{Probe, spins, vacant, found, place, place_all, seek_unoccupied}
use bonsaigrid.Store.Probe.Counts.{bit, number}
use bonsaigrid.Store.Probe.Insert.{at-set_self, at-set_ne}
use bonsaigrid.Store.Probe.Rehash.{at-replicate, place_skip}
use bonsaigrid.Store.Slab.{put_two, free}
use bonsaigrid.Store.Slab.Memory.{SlabSmall}
use bonsaigrid.Store.Inner.{
  Inner, MapConfig, hit, more_hits, maybe_grow, with_table, update_indexes,
}
use bonsaigrid.Store.Inner.Layout.{Layout-rehash, Grown}
use bonsaigrid.Store.Inner.Contents.{has, stored, handle_is, EntryFits, Filed}
use bonsaigrid.Store.Inner.Contents.Write.{Replaces, stored_new, stored_other, write-Filed}
use bonsaigrid.Store.Inner.Contents.Slots.{ItemFits, fill-Replaces, overwrite-Replaces}
use bonsaigrid.Store.Inner.Sound.{WellFormed}
use bonsaigrid.Store.Inner.Writes.{Item, fill, overwrite, evict_over, entry_of}

-- Every record of a table is of a kind.
unfoldable Each : (Entry → Type 0) → List Entry → Type 0
Each P table = (k : ℕ) → k < length table → occupied (at table k) ≡ true → P (at table k)

Each-set :
    (P : Entry → Type 0) (table : List Entry) (i : ℕ) (e : Entry)
    → P e
    → Each P table
    → Each P (set table i e)
unfolding Each
Each-set P table i e here each k lt occ =
    let size = length-set table i e in
    elim (ℕ_discrete i k) [
      | no ne ↦ subst P (sym (at-set_ne table i k e ne)) (
          each k (omega (arith, lt, size))
            (subst (λ x. occupied x ≡ true) (at-set_ne table i k e ne) occ))
      | yes same ↦
          subst (λ k. P (at (set table i e) k)) same
            (subst P (sym (at-set_self table i e (omega (arith, lt, size, same)))) here)
    ]

-- One record is placed, and then the others.
place_step :
    (P : Entry → Type 0) (es old table : List Entry) (e : Entry) (q : Probe)
    → ((t : List Entry) → place_all es t ≡ some table → Each P t → Each P table)
    → P e
    → Each P old
    → elim (place old e q) [ none ↦ none | some t ↦ place_all es t ] ≡ some table
    → Each P table
unfolding place
place_step P es old table e spins rest here each comes = absurd (none-ne-some _ comes)
place_step P es old table e (found i) rest here each comes = absurd (none-ne-some _ comes)
place_step P es old table e (vacant i) rest here each comes =
    rest (set old i e) comes (Each-set P old i e here each)

place_cons :
    (es old : List Entry) (e : Entry)
    → occupied e ≡ true
    → place_all (e ∷ es) old
      ≡ elim (place old e (seek_unoccupied old (length old) (e.hash % length old))) [
        | none ↦ none
        | some t ↦ place_all es t
      ]
unfolding place_all
place_cons es old e occ = rw (occ) refl

-- The new table has only records of the old one.
place_all-Each :
    (P : Entry → Type 0) (es old table : List Entry)
    → place_all es old ≡ some table
    → Each P es
    → Each P old
    → Each P table
unfolding place_all Each
place_all-Each P [] old table comes each_es each = subst (Each P) (some-injective _ _ comes) each
place_all-Each P (e ∷ es) old table comes each_es each = elim (Bool-cases (occupied e)) [
  | inr vac ↦
      place_all-Each P es old table (sym (place_skip es old e vac) ∙ comes)
        (λ k lt. each_es (suc k) (omega arith)) each
  | inl occ ↦
      place_step P es old table e (seek_unoccupied old (length old) (e.hash % length old))
        (λ t c each'. place_all-Each P es t table c (λ k lt. each_es (suc k) (omega arith)) each')
        (each_es 0 (omega arith) occ) each (sym (place_cons es old e occ) ∙ comes)
]

Each-replicate : (P : Entry → Type 0) (n : ℕ) → Each P (replicate n no_entry)
unfolding Each
Each-replicate P n k lt occ = absurd (
    let o : occupied no_entry ≡ true = subst (λ e. occupied e ≡ true) (at-replicate n k) occ in
    ground (arith, o))

-- `maybe_grow` keeps the records.
pub grow-Filed :
    (s : Inner)
    → WellFormed s
    → Filed s.slab s.table
    → (t : Inner) × (maybe_grow s ≡ some t)
      × Filed t.slab t.table
      × ((id : ℕ) (key v : Bytes) → stored t id key v ≡ stored s id key v)
      × (t.configs ≡ s.configs)
      × (t.map_ids ≡ s.map_ids)
      × (t.slab ≡ s.slab)
unfolding WellFormed maybe_grow with_table Grown Filed stored Each
grow-Filed s w filed =
    elim (Bool-cases (ltb ((s.len + s.tombstones + 1) * 8) (length s.table * 7))) [
      | inl room ↦ (s, rw (room) refl, filed, (λ id key v. refl), refl, refl, refl)
      | inr short ↦
          let (fits, entries, own, once) = filed in
          let (table, comes, (grown, left, adds)) = Layout-rehash s.table s.len s.tombstones w.0 in
          (
            record s { table = table; tombstones = 0 },
            rw (short, comes) refl,
            (
              fits,
              place_all-Each (EntryFits s.slab) s.table (replicate (length s.table * 2) no_entry)
                  table comes entries (Each-replicate (EntryFits s.slab) (length s.table * 2)),
              (λ h. let a = adds (handle_is h) in let o = own h in omega (arith, a, o)),
              (λ id key.
                  let a = adds (hit s.slab id key) in let o = once id key in omega (arith, a, o)),
            ),
            (λ id key v. adds (has s.slab id key v)),
            refl,
            refl,
            refl,
          )
    ]

-- The map has no bound on its size, so that a put evicts nothing.
unfoldable pub Unbounded : Option MapConfig → Type 0
Unbounded none = Unit
Unbounded (some cfg) = cfg.max_size ≡ 0

pub evict_over-none :
    (s : Inner) (name : Bytes) (id : ℕ) (cfg : Option MapConfig) (seed : ℕ → ℕ)
    → Unbounded cfg
    → evict_over s name id cfg seed ≡ s
unfolding Unbounded evict_over
evict_over-none s name id none seed u = refl
evict_over-none s name id (some cfg) seed u = ground (arith, u)

-- What a put makes of a shard, for the map `id`: the key has the item's value and no other, every other
-- key has the values that it had, and the records stay apart.
unfoldable pub Assigns : Inner → ℕ → Item → Inner → Type 0
Assigns s id x t =
    Filed t.slab t.table
    × ((v : Bytes) → stored t id x.key v ≡ bit (bytes_beq x.val v))
    × ((other : ℕ) (key v : Bytes)
        → ((id == other) && bytes_beq x.key key) ≡ false
        → stored t other key v ≡ stored s other key v)

Replaces-Assigns :
    (s t : Inner) (i : ℕ) (e : Entry) (id : ℕ) (x : Item)
    → Filed s.slab s.table
    → t.table ≡ set s.table i e
    → Replaces s.slab t.slab s.table i e id x.key x.val
    → Assigns s id x t
unfolding Assigns stored
Replaces-Assigns s t i e id x filed same replaces = (
  subst (Filed t.slab) (sym same)
      (write-Filed s.slab t.slab s.table i e id x.key x.val filed replaces),
  (λ v.
      ap (number (λ e. occupied e && has t.slab id x.key v e)) same
      ∙ stored_new s.slab t.slab s.table i e id x.key x.val v replaces),
  λ other key v differs.
      ap (number (λ e. occupied e && has t.slab other key v e)) same
      ∙ stored_other s.slab t.slab s.table i e id other x.key key x.val v replaces differs,
)

pub fill-Assigns :
    (s : Inner) (name : Bytes) (id : ℕ) (x : Item) (i : ℕ)
    → Filed s.slab s.table
    → SlabSmall s.slab
    → ItemFits x
    → i < length s.table
    → occupied (at s.table i) ≡ false
    → ((k : ℕ)
        → k < length s.table
        → occupied (at s.table k) ≡ true
        → hit s.slab id x.key (at s.table k) ≡ false)
    → Assigns s id x (fill s name id x i)
unfolding fill update_indexes
fill-Assigns s name id x i filed small item lt vac absent =
    Replaces-Assigns s (fill s name id x i) i (entry_of x id (put_two s.slab x.key x.val).1 1) id x
      filed refl (fill-Replaces s.slab s.table i x id filed small item lt vac absent)

pub overwrite-Assigns :
    (s : Inner) (name : Bytes) (id : ℕ) (x : Item) (i : ℕ)
    → Filed s.slab s.table
    → SlabSmall s.slab
    → ItemFits x
    → i < length s.table
    → occupied (at s.table i) ≡ true
    → hit s.slab id x.key (at s.table i) ≡ true
    → Assigns s id x (overwrite s name id x i).0
unfolding overwrite update_indexes
overwrite-Assigns s name id x i filed small item lt occ match_ =
    Replaces-Assigns s (overwrite s name id x i).0 i
      (entry_of x id (put_two (free s.slab (at s.table i).handle) x.key x.val).1
        (more_hits (at s.table i).hits))
      id x filed refl
      (overwrite-Replaces s.slab s.table i x id (more_hits (at s.table i).hits) filed small item lt
        occ match_)
