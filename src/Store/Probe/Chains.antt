-- ===== src/Store/Probe/Chains.antt =====
-- The probe chains of the table of crates/store/src/lib.rs: every record can be reached from its
-- hash over slots that are not empty, so that `find` and `put` look at every record they may mean.
use native.Mathlib.Nat.{mod-lt}
use bonsaigrid.Base.{
  ℕ, zero, suc, ◌+◌, ◌%◌, ◌<◌, ◌≡◌, refl, sym, ap, subst, ◌∙◌, inl, inr, Bool, true, false, ◌&&◌,
  ◌||◌, Bool-cases, List, ◌==◌, ltb, length, if◌then◌else◌, arith,
}
use bonsaigrid.Store.Entry.{Entry, at, occupied}
use bonsaigrid.Store.Probe.{Probe, vacant, found, seek}
use bonsaigrid.Store.Probe.Rounds.{slot, Passed, Halt, stop_in_round, later, next_slot, at_hash}

-- A loop goes past a record that is neither empty nor the one it looks for.
abbrev pub stops : (Entry → Bool) → Entry → Bool
stops hit e = (e.hash == 0) || (ltb 1 e.hash && hit e)

-- Slot `k` is reached from a hash over slots that are not empty.
unfoldable pub Reach : List Entry → ℕ → ℕ → Type 0
Reach table h k =
    (d : ℕ) × (slot table h d ≡ k) × (d < length table) × Passed (λ e. e.hash == 0) table h d

-- Each record stands in the table on the way from its hash, which no empty slot interrupts.
unfoldable pub Chained : List Entry → Type 0
Chained table =
    (k : ℕ) → k < length table → occupied (at table k) ≡ true → Reach table (at table k).hash k

-- Some slot is empty.
unfoldable pub Roomy : List Entry → Type 0
Roomy table = (j : ℕ) × (j < length table) × (((at table j).hash == 0) ≡ true)

-- What `find` comes to at the record where it stops.
unfoldable pub stopped_at : List Entry → ℕ → Probe
stopped_at table i = if (at table i).hash == 0 then vacant i else found i

seek_past :
    (hit : Entry → Bool) (table : List Entry) (f i : ℕ)
    → stops hit (at table i) ≡ false
    → seek hit table (suc f) i ≡ seek hit table f ((i + 1) % length table)
unfolding seek
seek_past hit table f i s = ground (arith, s)

seek_here :
    (hit : Entry → Bool) (table : List Entry) (f i : ℕ)
    → stops hit (at table i) ≡ true
    → seek hit table (suc f) i ≡ stopped_at table i
unfolding seek stopped_at
seek_here hit table f i s = ground (arith, s)

pub seek_until :
    (hit : Entry → Bool) (table : List Entry) (d f h : ℕ)
    → d < f
    → Passed (stops hit) table h d
    → stops hit (at table (slot table h d)) ≡ true
    → seek hit table f (h % length table) ≡ stopped_at table (slot table h d)
seek_until hit table d zero h lt p s = elim lt [ ]
seek_until hit table zero (suc f) h lt p s =
    seek_here hit table f (h % length table) (at_hash (stops hit) table h true s)
    ∙ ap (λ k. stopped_at table (k % length table)) (let e : h ≡ h + 0 = omega arith in e)
seek_until hit table (suc d) (suc f) h lt p s =
    seek_past hit table f (h % length table) (at_hash (stops hit) table h false (p 0 (omega arith)))
    ∙ ap (seek hit table f) (next_slot (length table) h)
    ∙ seek_until hit table d f (suc h) (omega arith) (later (stops hit) table h d p)
        (subst (λ k. stops hit (at table (k % length table)) ≡ true) (shift h d) s)
    ∙ ap (λ k. stopped_at table (k % length table)) (sym (shift h d))
  where
    shift : (h d : ℕ) → h + suc d ≡ suc h + d
    shift h d = omega arith

-- `find` stops within one round of a table that has an empty slot.
pub seek_round :
    (hit : Entry → Bool) (table : List Entry) (h : ℕ)
    → Roomy table
    → (d : ℕ) × (d < length table)
      × Passed (stops hit) table h d
      × (stops hit (at table (slot table h d)) ≡ true)
      × (seek hit table (length table) (h % length table) ≡ stopped_at table (slot table h d))
unfolding Roomy Halt
seek_round hit table h (j, lt, e) =
    let (d, below, passed, here) = stop_in_round (stops hit) table h j lt (ground (arith, e)) in
    (d, below, passed, here, seek_until hit table d (length table) h below passed here)

pub slot_lt : (table : List Entry) (h d : ℕ) → d < length table → slot table h d < length table
slot_lt table h d lt = mod-lt (h + d) (omega arith)

pub found-injective : {a b : ℕ} → found a ≡ found b → a ≡ b
found-injective p = ap (λ q. elim q as (λ q. ℕ) [ found k ↦ k | _ ↦ 0 ]) p

pub found≢vacant : {a b : ℕ} → found a ≡ vacant b → ⊥
found≢vacant p = subst (λ q. elim q as (λ q. Type 0) [ found k ↦ Unit | _ ↦ ⊥ ]) p tt

pub stopped_at-empty :
    (table : List Entry) (i : ℕ) → ((at table i).hash == 0) ≡ true → stopped_at table i ≡ vacant i
unfolding stopped_at
stopped_at-empty table i e = ground (arith, e)

pub stopped_at-full :
    (table : List Entry) (i : ℕ) → ((at table i).hash == 0) ≡ false → stopped_at table i ≡ found i
unfolding stopped_at
stopped_at-full table i e = ground (arith, e)

-- A record that `find` returns is one that it looks for.
pub seek-found :
    (hit : Entry → Bool) (table : List Entry) (h k : ℕ)
    → Roomy table
    → seek hit table (length table) (h % length table) ≡ found k
    → (k < length table) × (occupied (at table k) ≡ true) × (hit (at table k) ≡ true)
seek-found hit table h k roomy f =
    let (d, below, passed, here, comes) = seek_round hit table h roomy in
    let same = which (slot table h d) here (sym comes ∙ f) in
    (subst (λ i. i < length table) same.0 (slot_lt table h d below), same.1, same.2)
  where
    which :
        (i : ℕ)
        → stops hit (at table i) ≡ true
        → stopped_at table i ≡ found k
        → (i ≡ k) × (occupied (at table k) ≡ true) × (hit (at table k) ≡ true)
    which i here f = elim (Bool-cases ((at table i).hash == 0)) [
      | inl e ↦ absurd (found≢vacant (sym f ∙ stopped_at-empty table i e))
      | inr e ↦
          let same : i ≡ k = found-injective (sym (stopped_at-full table i e) ∙ f) in
          subst (λ i. (i ≡ k) × (occupied (at table k) ≡ true) × (hit (at table k) ≡ true))
            (sym same)
            (let p : stops hit (at table k) ≡ true =
                subst (λ i. stops hit (at table i) ≡ true) same here in
              let q : ((at table k).hash == 0) ≡ false =
                subst (λ i. ((at table i).hash == 0) ≡ false) same e in
              (refl, ground (arith, p, q), ground (arith, p, q)))
    ]

-- A loop that has come to an empty slot has met every record of the hash.
pub unmet :
    (hit : Entry → Bool) (table : List Entry) (h d k : ℕ)
    → Chained table
    → Passed (stops hit) table h d
    → ((at table (slot table h d)).hash == 0) ≡ true
    → k < length table
    → occupied (at table k) ≡ true
    → (at table k).hash ≡ h
    → hit (at table k) ≡ false
unfolding Chained Reach
unmet hit table h d k chained passed empty lt occ same = elim (Bool-cases (hit (at table k))) [
  | inr miss ↦ miss
  | inl match_ ↦
      let (c, there, inside, way) = chained k lt occ in
      absurd (
        crossing c (subst (λ g. slot table g c ≡ k) same there)
          (subst (λ g. Passed (λ e. e.hash == 0) table g c) same way) match_)
]
  where
    crossing :
        (c : ℕ)
        → slot table h c ≡ k
        → Passed (λ e. e.hash == 0) table h c
        → hit (at table k) ≡ true
        → ⊥
    crossing c there way match_ = elim (Bool-cases (ltb c d)) [
      | inl before ↦
          let p : stops hit (at table k) ≡ false =
            subst (λ j. stops hit (at table j) ≡ false) there (passed c (ground (arith, before))) in
          ground (arith, p, match_, occ)
      | inr after ↦ elim (Bool-cases (ltb d c)) [
        | inl beyond ↦ let p = way d (ground (arith, beyond)) in ground (arith, p, empty)
        | inr level ↦
            let e : d ≡ c = ground (arith, level, after) in
            let p : ((at table k).hash == 0) ≡ true =
              subst (λ j. ((at table j).hash == 0) ≡ true) (ap (slot table h) e ∙ there) empty in
            ground (arith, p, occ)
      ]
    ]

-- When `find` returns none, no record of that hash is one that it looks for.
pub seek-vacant :
    (hit : Entry → Bool) (table : List Entry) (h i k : ℕ)
    → Roomy table
    → Chained table
    → seek hit table (length table) (h % length table) ≡ vacant i
    → k < length table
    → occupied (at table k) ≡ true
    → (at table k).hash ≡ h
    → hit (at table k) ≡ false
seek-vacant hit table h i k roomy chained v lt occ same =
    let (d, below, passed, here, comes) = seek_round hit table h roomy in
    unmet hit table h d k chained passed (vacant_empty (slot table h d) (sym comes ∙ v)) lt occ same
  where
    vacant_empty : (j : ℕ) → stopped_at table j ≡ vacant i → ((at table j).hash == 0) ≡ true
    vacant_empty j p = elim (Bool-cases ((at table j).hash == 0)) [
      | inl e ↦ e
      | inr e ↦ absurd (found≢vacant (sym (stopped_at-full table j e) ∙ p))
    ]
