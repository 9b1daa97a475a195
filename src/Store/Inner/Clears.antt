-- ===== src/Store/Inner/Clears.antt =====
-- `clear` of crates/store/src/lib.rs removes every record of one map and none of another, and a new
-- shard is well-formed.
use bonsaigrid.Base.{
  ℕ, zero, suc, ◌+◌, ◌-◌, ◌≤◌, ◌<◌, ◌≡◌, ◌≢◌, refl, sym, ap, subst, ◌∙◌, inl, inr, Bool, true,
  false, ◌&&◌, Bool-cases, none, some, List, [], ◌∷◌, ◌==◌, ltb, length, get_or, set, replicate,
  length-set, length-replicate, get_or-set_self, get_or-set_ne, get_or-out, arith, ℕ_discrete,
}
use bonsaigrid.Base.Bytes.{Bytes}
use bonsaigrid.Store.Entry.{Entry, no_entry, at, occupied, is_tombstone}
use bonsaigrid.Store.Probe.Counts.{bit, number, number-set, number-replicate}
use bonsaigrid.Store.Probe.Insert.{at-set_self, at-set_ne}
use bonsaigrid.Store.Probe.Rehash.{replicate-Chained}
use bonsaigrid.Store.Slab.{free}
use bonsaigrid.Store.Inner.{Inner, new_inner}
use bonsaigrid.Store.Inner.Writes.{clear, clear_map, clear_last, clear_slot, size}
use bonsaigrid.Store.Inner.Layout.{Layout, Layout-bury, CountsOf, live}
use bonsaigrid.Store.Inner.Sound.{WellFormed, Named}

pub new_inner-WellFormed : WellFormed new_inner
unfolding WellFormed new_inner Layout CountsOf Named
new_inner-WellFormed =
    let size : length (replicate 1024 no_entry) ≡ 1024 = length-replicate 1024 no_entry in
    let none_live : number occupied (replicate 1024 no_entry) ≡ 0 =
      number-replicate occupied 1024 no_entry refl in
    let none_tomb : number is_tombstone (replicate 1024 no_entry) ≡ 0 =
      number-replicate is_tombstone 1024 no_entry refl in
    (
      ((9, size), sym none_live, sym none_tomb, omega (arith, size), replicate-Chained 1024),
      (λ id. sym (number-replicate (live id) 1024 no_entry refl)),
      (λ name id p. absurd (named p)),
      refl,
    )
  where
    named : {id : ℕ} → none ≡ some id → ⊥
    named p = subst (λ o. elim o as (λ o. Type 0) [ none ↦ Unit | some k ↦ ⊥ ]) p tt

-- The counts of the maps other than `id`.
unfoldable pub OtherCounts : ℕ → List ℕ → List Entry → Type 0
OtherCounts id counts table =
    (other : ℕ) → id ≢ other → get_or counts other 0 ≡ number (live other) table

-- The loop of `clear`, between rounds: the last `n` slots are still to be visited.
unfoldable pub Clearing : Inner → ℕ → ℕ → Type 0
Clearing s id n =
    Layout s.table s.len s.tombstones
    × OtherCounts id s.counts s.table
    × ((k : ℕ) → k < length s.table - n → live id (at s.table k) ≡ false)

clear_slot_live :
    (s : Inner) (id i : ℕ)
    → (occupied (at s.table i) && ((at s.table i).map_id == id)) ≡ true
    → clear_slot s id i ≡ record s {
      slab = free s.slab (at s.table i).handle;
      table = set s.table i (record (at s.table i) { hash = 1 });
      len = s.len - 1;
      tombstones = s.tombstones + 1;
    }
unfolding clear_slot
clear_slot_live s id i h = rw (h) refl

clear_slot_other :
    (s : Inner) (id i : ℕ)
    → (occupied (at s.table i) && ((at s.table i).map_id == id)) ≡ false
    → clear_slot s id i ≡ s
unfolding clear_slot
clear_slot_other s id i h = rw (h) refl

number_none :
    (p : Entry → Bool) (table : List Entry)
    → ((k : ℕ) → k < length table → p (at table k) ≡ false)
    → number p table ≡ 0
unfolding number
number_none p [] h = refl
number_none p (e ∷ es) h =
    let b : bit (p e) ≡ 0 = ap bit (h 0 (omega arith)) in
    let ih = number_none p es (λ k lt. h (suc k) (omega arith)) in omega (arith, b, ih)

-- What a round of the loop leaves of the rest of the shard.
unfoldable pub Keeps : Inner → Inner → Type 0
Keeps s t =
    (length t.table ≡ length s.table)
    × (t.counts ≡ s.counts)
    × (t.map_ids ≡ s.map_ids)
    × (t.map_names ≡ s.map_names)

-- The slot that a round visits, after the round.
visited :
    (table : List Entry) (id n : ℕ)
    → suc n ≤ length table
    → ((k : ℕ) → k < length table - suc n → live id (at table k) ≡ false)
    → live id (at table (length table - suc n)) ≡ false
    → (k : ℕ) → k < length table - n
    → live id (at table k) ≡ false
visited table id n le before here k lt = elim (Bool-cases (ltb k (length table - suc n))) [
  | inl earlier ↦ before k (ground (arith, earlier))
  | inr last ↦
      subst (λ k. live id (at table k) ≡ false)
        (let e : length table - suc n ≡ k = ground (arith, last) in e) here
]

clear_other :
    (s : Inner) (id n : ℕ)
    → suc n ≤ length s.table
    → Clearing s id (suc n)
    → live id (at s.table (length s.table - suc n)) ≡ false
    → Clearing s id n × Keeps s s
unfolding Clearing Keeps
clear_other s id n le (layout, counts, before) here =
    ((layout, counts, visited s.table id n le before here), (refl, refl, refl, refl))

clear_live :
    (s : Inner) (id n : ℕ)
    → suc n ≤ length s.table
    → Clearing s id (suc n)
    → live id (at s.table (length s.table - suc n)) ≡ true
    → let i = length s.table - suc n in
      let t = record s {
        slab = free s.slab (at s.table i).handle;
        table = set s.table i (record (at s.table i) { hash = 1 });
        len = s.len - 1;
        tombstones = s.tombstones + 1;
      } in
      Clearing t id n × Keeps s t
unfolding Clearing Keeps OtherCounts
clear_live s id n le (layout, counts, before) here =
    let i = length s.table - suc n in
    let e = record (at s.table i) { hash = 1 } in
    let size : length (set s.table i e) ≡ length s.table = length-set s.table i e in
    let inside : i < length s.table = omega (arith, le) in
    (
      (
        Layout-bury s.table s.len s.tombstones i e layout inside (ground (arith, here)) refl,
        (λ other ne.
            let m = number-set (live other) s.table i e inside in
            let a = counts other ne in
            let b : bit (live other (at s.table i)) ≡ 0 = ground (arith, here, ne) in
            omega (arith, m, a, b)),
        (λ k lt.
            visited (set s.table i e) id n (omega (arith, le, size))
              (λ k before_i.
                subst (λ x. live id x ≡ false)
                  (sym (
                    at-set_ne s.table i k e (λ same. absurd (omega (arith, size, before_i, same)))))
                  (before k (omega (arith, size, before_i))))
              (subst (λ k. live id (at (set s.table i e) k) ≡ false)
                (let w : i ≡ length (set s.table i e) - suc n = omega (arith, size) in w)
                (subst (λ x. live id x ≡ false) (sym (at-set_self s.table i e inside))
                  (ground arith)))
              k lt),
      ),
      (size, refl, refl, refl),
    )

-- One round of the loop.
Clearing-step :
    (s : Inner) (id n : ℕ)
    → suc n ≤ length s.table
    → Clearing s id (suc n)
    → let t = clear_slot s id (length s.table - suc n) in Clearing t id n × Keeps s t
Clearing-step s id n le c = elim (Bool-cases (live id (at s.table (length s.table - suc n)))) [
  | inr other ↦
      subst (λ t. Clearing t id n × Keeps s t)
        (sym (clear_slot_other s id (length s.table - suc n) other)) (clear_other s id n le c other)
  | inl here ↦
      subst (λ t. Clearing t id n × Keeps s t)
        (sym (clear_slot_live s id (length s.table - suc n) here)) (clear_live s id n le c here)
]

Keeps-trans : (s t u : Inner) → Keeps s t → Keeps t u → Keeps s u
unfolding Keeps
Keeps-trans s t u (a, b, c, d) (a', b', c', d') = (a' ∙ a, b' ∙ b, c' ∙ c, d' ∙ d)

Clearing-last :
    (s : Inner) (id n : ℕ)
    → n ≤ length s.table
    → Clearing s id n
    → Clearing (clear_last s id n) id 0 × Keeps s (clear_last s id n)
unfolding clear_last Keeps
Clearing-last s id zero le c = (c, (refl, refl, refl, refl))
Clearing-last s id (suc n) le c =
    let t = clear_slot s id (length s.table - suc n) in
    let (c', k) = Clearing-step s id n le c in
    let (done, k') = Clearing-last t id n (let size = k.0 in omega (arith, le, size)) c' in
    (done, Keeps-trans s t (clear_last t id n) k k')

-- What `clear` leaves: no record of the map, the records of the others, and a well-formed shard.
unfoldable pub Cleared : Inner → ℕ → Inner → Type 0
Cleared s id t =
    WellFormed t
    × (number (live id) t.table ≡ 0)
    × ((other : ℕ) → id ≢ other → number (live other) t.table ≡ number (live other) s.table)
    × (t.map_ids ≡ s.map_ids)
    × (t.map_names ≡ s.map_names)

cleared_counts :
    (counts : List ℕ) (id : ℕ) (table : List Entry)
    → OtherCounts id counts table
    → number (live id) table ≡ 0
    → CountsOf (set counts id 0) table
unfolding OtherCounts CountsOf
cleared_counts counts id table others none_left other = elim (ℕ_discrete id other) [
  | no ne ↦ get_or-set_ne counts id other 0 0 ne ∙ others other ne
  | yes same ↦
      subst (λ o. get_or (set counts id 0) o 0 ≡ number (live o) table) same
        (zero_there ∙ sym none_left)
]
  where
    zero_there : get_or (set counts id 0) id 0 ≡ 0
    zero_there = elim (Bool-cases (ltb id (length counts))) [
      | inl inside ↦ get_or-set_self counts id 0 0 (ground (arith, inside))
      | inr outside ↦
          get_or-out (set counts id 0) id 0
            (let size = length-set counts id 0 in ground (arith, outside, size))
    ]

cleared : (s : Inner) (id : ℕ) → WellFormed s → Cleared s id (clear_map s (some id))
unfolding clear_map WellFormed Cleared Clearing OtherCounts Keeps CountsOf
cleared s id (layout, counts, named, same) =
    let t = clear_last s id (length s.table) in
    let ((layout', others, gone), (size, kept, ids, names)) =
      Clearing-last s id (length s.table) (omega arith)
        (layout, (λ other ne. counts other), λ k lt. absurd (omega (arith, lt))) in
    let none_left = number_none (live id) t.table (λ k lt. gone k (omega (arith, lt))) in
    (
      (
        layout',
        cleared_counts t.counts id t.table others none_left,
        subst (λ ids. Named ids t.map_names) (sym ids)
            (subst (λ names. Named s.map_ids names) (sym names) named),
        (let z = length-set t.counts id 0 in
            let a = ap length kept in let b = ap length names in omega (arith, z, a, b, same)),
      ),
      none_left,
      (λ other ne. sym (others other ne) ∙ ap (λ c. get_or c other 0) kept ∙ counts other),
      ids,
      names,
    )

pub clear-Cleared :
    (s : Inner) (name : Bytes) (id : ℕ)
    → WellFormed s
    → s.map_ids name ≡ some id
    → Cleared s id (clear s name)
unfolding clear
clear-Cleared s name id w known =
    subst (λ o. Cleared s id (clear_map s o)) (sym known) (cleared s id w)
