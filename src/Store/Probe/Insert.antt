-- ===== src/Store/Probe/Insert.antt =====
-- Writing a record into the table of crates/store/src/lib.rs: the slot that the loop of `put`
-- chooses, and what a write keeps of the probe chains.
use bonsaigrid.Base.{
  some-injective, none-ne-some, ℕ, zero, suc, ◌+◌, ◌%◌, ◌≤◌, ◌<◌, ◌≡◌, ◌≢◌, refl, sym, ap, subst,
  ◌∙◌, ◌⊎◌, inl, inr, Bool, true, false, Bool-cases, Option, none, some, List, ◌==◌, length, set,
  if◌then◌else◌, length-set, get_or-set_self, get_or-set_ne, ℕ_discrete, arith,
}
use bonsaigrid.Store.Entry.{Entry, no_entry, at, occupied}
use bonsaigrid.Store.Probe.{Probe, vacant, found, seek_free, or_slot}
use bonsaigrid.Store.Probe.Rounds.{slot, Passed, Halt, stop_in_round, later, next_slot, at_hash}
use bonsaigrid.Store.Probe.Chains.{stops, Chained, Reach, Roomy, slot_lt, unmet}

-- The first free slot after the loop has looked at slot `i`.
noted : List Entry → Option ℕ → ℕ → Option ℕ
noted table first i = if (at table i).hash == 1 then some (or_slot first i) else first

seek_free_past :
    (hit : Entry → Bool) (table : List Entry) (f i : ℕ) (first : Option ℕ)
    → stops hit (at table i) ≡ false
    → seek_free hit table (suc f) i first
      ≡ seek_free hit table f ((i + 1) % length table) (noted table first i)
unfolding seek_free noted
seek_free_past hit table f i first s = ground (arith, s)

seek_free_found :
    (hit : Entry → Bool) (table : List Entry) (f i : ℕ) (first : Option ℕ)
    → stops hit (at table i) ≡ true
    → ((at table i).hash == 0) ≡ false
    → seek_free hit table (suc f) i first ≡ found i
unfolding seek_free
seek_free_found hit table f i first s e = ground (arith, s, e)

seek_free_end :
    (hit : Entry → Bool) (table : List Entry) (f i : ℕ) (first : Option ℕ)
    → ((at table i).hash == 0) ≡ true
    → seek_free hit table (suc f) i first ≡ vacant (or_slot first i)
unfolding seek_free
seek_free_end hit table f i first e = ground (arith, e)

-- The loop of `put` returns the record it looks for where `find` does.
seek_free-found :
    (hit : Entry → Bool) (table : List Entry) (d f h : ℕ) (first : Option ℕ)
    → d < f
    → Passed (stops hit) table h d
    → stops hit (at table (slot table h d)) ≡ true
    → ((at table (slot table h d)).hash == 0) ≡ false
    → seek_free hit table f (h % length table) first ≡ found (slot table h d)
seek_free-found hit table d zero h first lt p s e = elim lt [ ]
seek_free-found hit table zero (suc f) h first lt p s e =
    seek_free_found hit table f (h % length table) first (at_hash (stops hit) table h true s)
      (at_hash (λ e. e.hash == 0) table h false e)
    ∙ ap (λ k. found (k % length table)) (let e : h ≡ h + 0 = omega arith in e)
seek_free-found hit table (suc d) (suc f) h first lt p s e =
    seek_free_past hit table f (h % length table) first
      (at_hash (stops hit) table h false (p 0 (omega arith)))
    ∙ ap (λ i. seek_free hit table f i (noted table first (h % length table)))
        (next_slot (length table) h)
    ∙ seek_free-found hit table d f (suc h) (noted table first (h % length table)) (omega arith)
        (later (stops hit) table h d p)
        (subst (λ k. stops hit (at table (k % length table)) ≡ true) (shift h d) s)
        (subst (λ k. ((at table (k % length table)).hash == 0) ≡ false) (shift h d) e)
    ∙ ap (λ k. found (k % length table)) (sym (shift h d))
  where
    shift : (h d : ℕ) → h + suc d ≡ suc h + d
    shift h d = omega arith

-- A free slot on the way from a hash: the first one that the loop of `put` has met, or the empty
-- slot where it stops.
unfoldable pub Free : List Entry → ℕ → ℕ → ℕ → Type 0
Free table h d i = (c : ℕ) × (c ≤ d) × (slot table h c ≡ i) × (occupied (at table i) ≡ false)

Free-later : (table : List Entry) (h d i : ℕ) → Free table (suc h) d i → Free table h (suc d) i
unfolding Free
Free-later table h d i (c, le, there, free) = (
  suc c,
  omega arith,
  ap (λ k. k % length table) (let e : h + suc c ≡ suc h + c = omega arith in e) ∙ there,
  free,
)

noted_first :
    (table : List Entry) (h d i : ℕ) (first : Option ℕ)
    → noted table first (h % length table) ≡ some i
    → (first ≡ some i) ⊎ Free table h d i
unfolding noted Free or_slot
noted_first table h d i first p = elim (Bool-cases ((at table (h % length table)).hash == 1)) [
  | inr other ↦ inl (sym (same other) ∙ p)
  | inl tomb ↦ met first (sym (here tomb) ∙ p) tomb
]
  where
    same :
        ((at table (h % length table)).hash == 1) ≡ false
        → noted table first (h % length table) ≡ first
    same other = ground (arith, other)

    here :
        ((at table (h % length table)).hash == 1) ≡ true
        → noted table first (h % length table) ≡ some (or_slot first (h % length table))
    here tomb = ground (arith, tomb)

    met :
        (first : Option ℕ)
        → some (or_slot first (h % length table)) ≡ some i
        → ((at table (h % length table)).hash == 1) ≡ true
        → (first ≡ some i) ⊎ Free table h d i
    met (some s) q tomb = inl q
    met none q tomb =
        let e : h % length table ≡ i = some-injective _ _ q in
        inr (
          0,
          omega arith,
          ap (λ k. k % length table) (let z : h + 0 ≡ h = omega arith in z) ∙ e,
          subst (λ k. occupied (at table k) ≡ false) e (ground (arith, tomb)),
        )

-- The loop of `put` that comes to an empty slot returns a free slot.
seek_free-vacant :
    (hit : Entry → Bool) (table : List Entry) (d f h : ℕ) (first : Option ℕ)
    → d < f
    → Passed (stops hit) table h d
    → ((at table (slot table h d)).hash == 0) ≡ true
    → (i : ℕ) × (seek_free hit table f (h % length table) first ≡ vacant i)
      × ((first ≡ some i) ⊎ Free table h d i)
unfolding Free or_slot
seek_free-vacant hit table d zero h first lt p e = elim lt [ ]
seek_free-vacant hit table zero (suc f) h none lt p e = (
  h % length table,
  seek_free_end hit table f (h % length table) none (at_hash (λ e. e.hash == 0) table h true e),
  inr (
    0,
    omega arith,
    ap (λ k. k % length table) (let z : h + 0 ≡ h = omega arith in z),
    (let empty = at_hash (λ e. e.hash == 0) table h true e in ground (arith, empty)),
  ),
)
seek_free-vacant hit table zero (suc f) h (some s) lt p e = (
  s,
  seek_free_end hit table f (h % length table) (some s) (at_hash (λ e. e.hash == 0) table h true e),
  inl refl,
)
seek_free-vacant hit table (suc d) (suc f) h first lt p e =
    let (i, comes, which) =
      seek_free-vacant hit table d f (suc h) (noted table first (h % length table)) (omega arith)
        (later (stops hit) table h d p)
        (subst (λ k. ((at table (k % length table)).hash == 0) ≡ true) shift e) in
    (
      i,
      seek_free_past hit table f (h % length table) first
            (at_hash (stops hit) table h false (p 0 (omega arith)))
          ∙ ap (λ j. seek_free hit table f j (noted table first (h % length table)))
              (next_slot (length table) h)
          ∙ comes,
      elim which [
        | inl n ↦ noted_first table h (suc d) i first n
        | inr free ↦ inr (Free-later table h d i free)
      ],
    )
  where
    shift : h + suc d ≡ suc h + d
    shift = omega arith

full_before :
    (hit : Entry → Bool) (table : List Entry) (h d c : ℕ)
    → Passed (stops hit) table h d
    → c ≤ d
    → Passed (λ e. e.hash == 0) table h c
full_before hit table h d c passed le j lt =
    let p : stops hit (at table (slot table h j)) ≡ false = passed j (omega arith) in
    ground (arith, p)

-- What the loop of `put` returns: the record it looks for, or else a free slot that can be reached
-- from the hash, and then no record of that hash is one that it looks for.
unfoldable pub Chosen : (Entry → Bool) → List Entry → ℕ → Probe → Type 0
Chosen hit table h q =
    (i : ℕ) × (i < length table)
    × (((q ≡ found i) × (occupied (at table i) ≡ true) × (hit (at table i) ≡ true))
        ⊎ ((q ≡ vacant i)
            × (occupied (at table i) ≡ false)
            × Reach table h i
            × ((k : ℕ)
                → k < length table
                → occupied (at table k) ≡ true
                → (at table k).hash ≡ h
                → hit (at table k) ≡ false)))

pub seek_free-Chosen :
    (hit : Entry → Bool) (table : List Entry) (h : ℕ)
    → Roomy table
    → Chained table
    → Chosen hit table h (seek_free hit table (length table) (h % length table) none)
unfolding Chosen Roomy Halt Free Reach
seek_free-Chosen hit table h (j, inside, e) chained =
    let (d, below, passed, here) = stop_in_round (stops hit) table h j inside (ground (arith, e)) in
    elim (Bool-cases ((at table (slot table h d)).hash == 0)) [
      | inr full ↦ (
        slot table h d,
        slot_lt table h d below,
        inl (
          seek_free-found hit table d (length table) h none below passed here full,
          ground (arith, here, full),
          ground (arith, here, full),
        ),
      )
      | inl empty ↦
          let (i, comes, which) =
            seek_free-vacant hit table d (length table) h none below passed empty in
          elim which [
            | inl n ↦ absurd (none-ne-some _ n)
            | inr (c, le, there, free) ↦ (
              i,
              subst (λ k. k < length table) there (slot_lt table h c (omega arith)),
              inr (
                comes,
                free,
                (c, there, omega arith, full_before hit table h d c passed le),
                λ k. unmet hit table h d k chained passed empty,
              ),
            )
          ]
    ]

-- The slots after a write.
pub at-set_self :
    (table : List Entry) (j : ℕ) (e : Entry) → j < length table → at (set table j e) j ≡ e
at-set_self table j e lt = get_or-set_self table j e no_entry lt

pub at-set_ne :
    (table : List Entry) (j k : ℕ) (e : Entry) → j ≢ k → at (set table j e) k ≡ at table k
at-set_ne table j k e ne = get_or-set_ne table j k e no_entry ne

-- A write of a record that is not empty leaves no slot empty that was not.
set_full :
    (table : List Entry) (j k : ℕ) (e : Entry)
    → j < length table
    → (e.hash == 0) ≡ false
    → ((at table k).hash == 0) ≡ false
    → ((at (set table j e) k).hash == 0) ≡ false
set_full table j k e lt full kept = elim (ℕ_discrete j k) [
  | no ne ↦ subst (λ x. (x.hash == 0) ≡ false) (sym (at-set_ne table j k e ne)) kept
  | yes same ↦
      subst (λ k. ((at (set table j e) k).hash == 0) ≡ false) same
        (subst (λ x. (x.hash == 0) ≡ false) (sym (at-set_self table j e lt)) full)
]

slot-set : (table : List Entry) (j h d : ℕ) (e : Entry) → slot (set table j e) h d ≡ slot table h d
slot-set table j h d e = ap (λ n. (h + d) % n) (length-set table j e)

Reach-set :
    (table : List Entry) (j h k : ℕ) (e : Entry)
    → j < length table
    → (e.hash == 0) ≡ false
    → Reach table h k
    → Reach (set table j e) h k
unfolding Reach
Reach-set table j h k e inside full (d, there, lt, way) = (
  d,
  slot-set table j h d e ∙ there,
  subst (λ n. d < n) (sym (length-set table j e)) lt,
  λ i below.
      subst (λ i. ((at (set table j e) i).hash == 0) ≡ false) (sym (slot-set table j h i e))
        (set_full table j (slot table h i) e inside full (way i below)),
)

-- A write of a record at a slot that is reached from its hash, or of a tombstone, keeps the chains.
pub set-Chained :
    (table : List Entry) (j : ℕ) (e : Entry)
    → j < length table
    → (e.hash == 0) ≡ false
    → (occupied e ≡ true → Reach table e.hash j)
    → Chained table
    → Chained (set table j e)
unfolding Chained
set-Chained table j e inside full reached chained k lt occ = elim (ℕ_discrete j k) [
  | yes same ↦
      subst (λ k. Reach (set table j e) (at (set table j e) k).hash k) same
        (subst (λ x. Reach (set table j e) x.hash j) (sym (at-set_self table j e inside))
          (Reach-set table j e.hash j e inside full (
            reached (
              subst (λ x. occupied x ≡ true) (at-set_self table j e inside)
                (subst (λ k. occupied (at (set table j e) k) ≡ true) (sym same) occ)))))
  | no ne ↦
      subst (λ x. Reach (set table j e) x.hash k) (sym (at-set_ne table j k e ne))
        (Reach-set table j (at table k).hash k e inside full (
          chained k (subst (λ n. k < n) (length-set table j e) lt)
            (subst (λ x. occupied x ≡ true) (at-set_ne table j k e ne) occ)))
]
