-- ===== src/Store/Probe/Rehash.antt =====
-- `maybe_grow` of crates/store/src/lib.rs: the records are placed in a new table.
use bonsaigrid.Base.{
  ℕ, zero, suc, ◌+◌, ◌%◌, ◌≤◌, ◌<◌, ◌≡◌, refl, sym, ap, subst, ◌∙◌, inl, inr, Bool, true, false,
  not, ◌&&◌, Bool-cases, some, List, [], ◌∷◌, length, set, replicate, length-set, arith,
}
use bonsaigrid.Store.Entry.{Entry, no_entry, at, occupied, is_tombstone}
use bonsaigrid.Store.Probe.{vacant, seek_unoccupied, place, place_all}
use bonsaigrid.Store.Probe.Rounds.{slot, Passed, Halt, stop_in_round, later, next_slot, at_hash}
use bonsaigrid.Store.Probe.Chains.{Chained, Reach, slot_lt}
use bonsaigrid.Store.Probe.Counts.{bit, number, number-set, number_lt}
use bonsaigrid.Store.Probe.Insert.{set-Chained}

abbrev unoccupied : Entry → Bool
unoccupied e = not (occupied e)

unoccupied_past :
    (table : List Entry) (f i : ℕ)
    → unoccupied (at table i) ≡ false
    → seek_unoccupied table (suc f) i ≡ seek_unoccupied table f ((i + 1) % length table)
unfolding seek_unoccupied
unoccupied_past table f i s = ground (arith, s)

unoccupied_here :
    (table : List Entry) (f i : ℕ)
    → unoccupied (at table i) ≡ true
    → seek_unoccupied table (suc f) i ≡ vacant i
unfolding seek_unoccupied
unoccupied_here table f i s = ground (arith, s)

seek_unoccupied_until :
    (table : List Entry) (d f h : ℕ)
    → d < f
    → Passed unoccupied table h d
    → unoccupied (at table (slot table h d)) ≡ true
    → seek_unoccupied table f (h % length table) ≡ vacant (slot table h d)
seek_unoccupied_until table d zero h lt p s = elim lt [ ]
seek_unoccupied_until table zero (suc f) h lt p s =
    unoccupied_here table f (h % length table) (at_hash unoccupied table h true s)
    ∙ ap (λ k. vacant (k % length table)) (let e : h ≡ h + 0 = omega arith in e)
seek_unoccupied_until table (suc d) (suc f) h lt p s =
    unoccupied_past table f (h % length table)
      (at_hash unoccupied table h false (p 0 (omega arith)))
    ∙ ap (seek_unoccupied table f) (next_slot (length table) h)
    ∙ seek_unoccupied_until table d f (suc h) (omega arith) (later unoccupied table h d p)
        (subst (λ k. unoccupied (at table (k % length table)) ≡ true) shift s)
    ∙ ap (λ k. vacant (k % length table)) (sym shift)
  where
    shift : h + suc d ≡ suc h + d
    shift = omega arith

-- One record is placed in a table with a slot that is not occupied.
unoccupied_slot :
    (table : List Entry) (h : ℕ)
    → number occupied table < length table
    → (i : ℕ) × (i < length table)
      × (seek_unoccupied table (length table) (h % length table) ≡ vacant i)
      × (occupied (at table i) ≡ false)
      × Reach table h i
unfolding Halt Reach
unoccupied_slot table h room =
    let (j, inside, free) = number_lt occupied table room in
    let (d, below, passed, here) = stop_in_round unoccupied table h j inside (ap not free) in
    (
      slot table h d,
      slot_lt table h d below,
      seek_unoccupied_until table d (length table) h below passed here,
      ground (arith, here),
      (d, refl, below, λ i lt. let p = passed i lt in ground (arith, p)),
    )

-- The records of `table` are those of `old` and of `es`, by their number of each kind.
abbrev pub Adds : List Entry → List Entry → List Entry → Type 0
Adds es old table =
    (p : Entry → Bool)
    → number (λ e. occupied e && p e) table
      ≡ number (λ e. occupied e && p e) es + number (λ e. occupied e && p e) old

-- What the placing of records in a table comes to.
unfoldable pub Placed : List Entry → List Entry → List Entry → Type 0
Placed es old table =
    (length table ≡ length old)
    × Chained table
    × (number is_tombstone table ≤ number is_tombstone old)
    × (number occupied table ≡ number occupied es + number occupied old)
    × Adds es old table

number-set_free :
    (p : Entry → Bool) (table : List Entry) (i : ℕ) (e : Entry)
    → i < length table
    → p (at table i) ≡ false
    → number p (set table i e) ≡ number p table + bit (p e)
number-set_free p table i e lt f =
    let n = number-set p table i e lt in
    let b : bit (p (at table i)) ≡ 0 = ap bit f in omega (arith, n, b)

-- One more record.
Placed-cons :
    (es old table : List Entry) (e : Entry) (i : ℕ)
    → occupied e ≡ true
    → i < length old
    → occupied (at old i) ≡ false
    → Placed es (set old i e) table
    → Placed (e ∷ es) old table
unfolding Placed number
Placed-cons es old table e i occ lt free (len, chains, tombs, total, adds) = (
  len ∙ length-set old i e,
  chains,
  (let n = number-set is_tombstone old i e lt in
      let b : bit (is_tombstone e) ≡ 0 = ground (arith, occ) in omega (arith, tombs, n, b)),
  (let n = number-set_free occupied old i e lt free in omega (arith, total, n)),
  λ p.
      let q : Entry → Bool = λ e. occupied e && p e in
      let f : q (at old i) ≡ false = ap (λ b. b && p (at old i)) free in
      let n = number-set_free q old i e lt f in let a = adds p in omega (arith, a, n),
)

Placed-skip :
    (es old table : List Entry) (e : Entry)
    → occupied e ≡ false
    → Placed es old table
    → Placed (e ∷ es) old table
unfolding Placed number
Placed-skip es old table e vac (len, chains, tombs, total, adds) = (
  len,
  chains,
  tombs,
  (let b : bit (occupied e) ≡ 0 = ap bit vac in omega (arith, total, b)),
  λ p.
      let b : bit (occupied e && p e) ≡ 0 = ap (λ o. bit (o && p e)) vac in
      let a = adds p in omega (arith, a, b),
)

place_slot :
    (es table : List Entry) (e : Entry) (i : ℕ)
    → occupied e ≡ true
    → seek_unoccupied table (length table) (e.hash % length table) ≡ vacant i
    → place_all (e ∷ es) table ≡ place_all es (set table i e)
unfolding place_all place
place_slot es table e i occ v = rw (occ, v) refl

pub place_skip :
    (es table : List Entry) (e : Entry)
    → occupied e ≡ false
    → place_all (e ∷ es) table ≡ place_all es table
unfolding place_all
place_skip es table e vac = rw (vac) refl

place_nil : (table : List Entry) → place_all [] table ≡ some table
unfolding place_all
place_nil table = refl

Placed-nil : (table : List Entry) → Chained table → Placed [] table table
unfolding Placed number
Placed-nil table chained = (refl, chained, omega arith, omega arith, λ p. omega arith)

pub at-replicate : (n k : ℕ) → at (replicate n no_entry) k ≡ no_entry
at-replicate zero k = refl
at-replicate (suc n) zero = refl
at-replicate (suc n) (suc k) = at-replicate n k

-- A table of empty slots.
pub replicate-Chained : (n : ℕ) → Chained (replicate n no_entry)
unfolding Chained
replicate-Chained n k lt occ = absurd (
    let p : occupied no_entry ≡ true = subst (λ e. occupied e ≡ true) (at-replicate n k) occ in
    ground (arith, p))

-- Every record is placed, in at most one round of the new table each, when the new table has the
-- slots for all.
pub place_all-Placed :
    (es old : List Entry)
    → number occupied es + number occupied old ≤ length old
    → Chained old
    → (table : List Entry) × (place_all es old ≡ some table) × Placed es old table
unfolding number
place_all-Placed [] old room chained = (old, place_nil old, Placed-nil old chained)
place_all-Placed (e ∷ es) old room chained = elim (Bool-cases (occupied e)) [
  | inr vac ↦
      let b : bit (occupied e) ≡ 0 = ap bit vac in
      let (table, comes, placed) = place_all-Placed es old (omega (arith, room, b)) chained in
      (table, place_skip es old e vac ∙ comes, Placed-skip es old table e vac placed)
  | inl occ ↦
      let b : bit (occupied e) ≡ 1 = ap bit occ in
      let (i, lt, v, free, reach) = unoccupied_slot old e.hash (omega (arith, room, b)) in
      let n = number-set_free occupied old i e lt free in
      let len = length-set old i e in
      let (table, comes, placed) =
        place_all-Placed es (set old i e) (omega (arith, room, b, n, len))
          (set-Chained old i e lt (ground (arith, occ)) (λ o. reach) chained) in
      (table, place_slot es old e i occ v ∙ comes, Placed-cons es old table e i occ lt free placed)
]
