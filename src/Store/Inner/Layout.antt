-- ===== src/Store/Inner/Layout.antt =====
-- The table of one shard of crates/store/src/lib.rs and its numbers: what holds of them between
-- operations, and what a write of one slot, an insertion and `maybe_grow` keep of it.
use native.Mathlib.Numerals.{unary_clauses}
use bonsaigrid.Base.{
  ℕ, zero, suc, ◌+◌, ◌-◌, ◌*◌, ◌^◌, ◌≤◌, ◌<◌, ◌≡◌, refl, sym, ap, subst, ◌∙◌, inl, inr, Bool, true,
  false, ◌&&◌, Bool-cases, some, List, [], ◌∷◌, ◌==◌, ltb, length, get_or, set, replicate,
  length-set, length-replicate, get_or-out, get_or-set_self, get_or-set_ne, ℕ_discrete, ◌≢◌, arith,
}
use bonsaigrid.Store.Entry.{Entry, no_entry, at, occupied, is_tombstone}
use bonsaigrid.Store.Probe.{place_all}
use bonsaigrid.Store.Probe.Chains.{Chained, Reach, Roomy}
use bonsaigrid.Store.Probe.Counts.{bit, number, number-set, number-replicate, number-Roomy}
use bonsaigrid.Store.Probe.Insert.{set-Chained}
use bonsaigrid.Store.Probe.Rehash.{Placed, place_all-Placed, replicate-Chained}

-- The number of slots is a power of two, the counters are the numbers of records and tombstones, less
-- than 7/8 of the slots are taken, and the probe chains are whole.
unfoldable pub Layout : List Entry → ℕ → ℕ → Type 0
Layout table len tombstones =
    ((k : ℕ) × (length table ≡ 2 ^ suc k))
    × (len ≡ number occupied table)
    × (tombstones ≡ number is_tombstone table)
    × ((len + tombstones) * 8 < length table * 7)
    × Chained table

-- A record of map `id`.
abbrev pub live : ℕ → Entry → Bool
live id e = occupied e && (e.map_id == id)

pow_suc : (k : ℕ) → 2 ^ suc k ≡ 2 ^ k * 2
pow_suc k = simp unary_clauses refl

pow_pos : (k : ℕ) → 1 ≤ 2 ^ k
pow_pos zero = omega arith
pow_pos (suc k) = let ih = pow_pos k in let p = pow_suc k in omega (arith, ih, p)

pub Layout-Roomy : (table : List Entry) (len tombs : ℕ) → Layout table len tombs → Roomy table
unfolding Layout
Layout-Roomy table len tombs (power, l, t, room, chained) =
    number-Roomy table (omega (arith, l, t, room))

-- One slot is written.
pub Layout-set :
    (table : List Entry) (len tombs len' tombs' i : ℕ) (e : Entry)
    → Layout table len tombs
    → i < length table
    → (e.hash == 0) ≡ false
    → (occupied e ≡ true → Reach table e.hash i)
    → len' + bit (occupied (at table i)) ≡ len + bit (occupied e)
    → tombs' + bit (is_tombstone (at table i)) ≡ tombs + bit (is_tombstone e)
    → (len' + tombs') * 8 < length table * 7
    → Layout (set table i e) len' tombs'
unfolding Layout
Layout-set table len tombs len' tombs' i e ((k, power), l, t, room, chained) lt full reach nl nt
      left =
    let n = number-set occupied table i e lt in
    let m = number-set is_tombstone table i e lt in
    let size = length-set table i e in
    (
      (k, size ∙ power),
      omega (arith, l, nl, n),
      omega (arith, t, nt, m),
      omega (arith, left, size),
      set-Chained table i e lt full reach chained,
    )

Layout-reach :
    (table : List Entry) (len tombs i : ℕ)
    → Layout table len tombs
    → i < length table
    → occupied (at table i) ≡ true
    → Reach table (at table i).hash i
unfolding Layout Chained
Layout-reach table len tombs i (power, l, t, room, chained) lt occ = chained i lt occ

Layout-left :
    (table : List Entry) (len tombs : ℕ)
    → Layout table len tombs
    → (len + tombs) * 8 < length table * 7
unfolding Layout
Layout-left table len tombs (power, l, t, room, chained) = room

-- A map with a record counts one at least.
pub number_pos :
    (p : Entry → Bool) (table : List Entry) (i : ℕ)
    → i < length table
    → p (at table i) ≡ true
    → 1 ≤ number p table
unfolding number
number_pos p [] i lt h = elim lt [ ]
number_pos p (e ∷ es) zero lt h = let b : bit (p e) ≡ 1 = ap bit h in omega (arith, b)
number_pos p (e ∷ es) (suc i) lt h = let ih = number_pos p es i (omega arith) h in omega (arith, ih)

-- A record stays where it is.
pub Layout-keep :
    (table : List Entry) (len tombs i : ℕ) (e : Entry)
    → Layout table len tombs
    → i < length table
    → occupied (at table i) ≡ true
    → e.hash ≡ (at table i).hash
    → Layout (set table i e) len tombs
Layout-keep table len tombs i e fits lt occ same =
    let full : (e.hash == 0) ≡ false = ground (arith, occ, same) in
    let live_now : bit (occupied e) ≡ bit (occupied (at table i)) = ap (λ h. bit (ltb 1 h)) same in
    let no_tomb : bit (is_tombstone e) ≡ bit (is_tombstone (at table i)) =
      ap (λ h. bit (h == 1)) same in
    Layout-set table len tombs len tombs i e fits lt full
      (λ o. subst (λ h. Reach table h i) (sym same) (Layout-reach table len tombs i fits lt occ))
      (omega (arith, live_now)) (omega (arith, no_tomb)) (Layout-left table len tombs fits)

-- A record becomes a tombstone.
pub Layout-bury :
    (table : List Entry) (len tombs i : ℕ) (e : Entry)
    → Layout table len tombs
    → i < length table
    → occupied (at table i) ≡ true
    → e.hash ≡ 1
    → Layout (set table i e) (len - 1) (tombs + 1)
unfolding Layout
Layout-bury table len tombs i e fits lt occ same =
    let some_live = number_pos occupied table i lt occ in
    let was : bit (occupied (at table i)) ≡ 1 = ap bit occ in
    let gone : bit (occupied e) ≡ 0 = ground (arith, same) in
    let tomb : bit (is_tombstone e) ≡ 1 = ground (arith, same) in
    let old_tomb : bit (is_tombstone (at table i)) ≡ 0 = ground (arith, occ) in
    let count = fits.1 in
    let left = Layout-left table len tombs fits in
    Layout-set table len tombs (len - 1) (tombs + 1) i e fits lt (ground (arith, same))
      (λ o. absurd (ground (arith, o, same))) (omega (arith, some_live, was, gone, count))
      (omega (arith, tomb, old_tomb)) (omega (arith, left, some_live, count))

-- The table after `maybe_grow`: it has room for one more record.
unfoldable pub Grown : List Entry → ℕ → List Entry → ℕ → Type 0
Grown old len table tombs =
    Layout table len tombs
    × ((len + tombs + 1) * 8 < length table * 7)
    × ((p : Entry → Bool)
        → number (λ e. occupied e && p e) table ≡ number (λ e. occupied e && p e) old)

pub Layout-rehash :
    (old : List Entry) (len tombs : ℕ)
    → Layout old len tombs
    → (table : List Entry) × (place_all old (replicate (length old * 2) no_entry) ≡ some table)
      × Grown old len table 0
unfolding Layout Placed Grown
Layout-rehash old len tombs ((k, power), l, t, room, chained) =
    let new = replicate (length old * 2) no_entry in
    let size : length new ≡ length old * 2 = length-replicate (length old * 2) no_entry in
    let none_live = number-replicate occupied (length old * 2) no_entry refl in
    let none_tomb = number-replicate is_tombstone (length old * 2) no_entry refl in
    let pos = pow_pos k in
    let two = pow_suc k in
    let two' = pow_suc (suc k) in
    let (table, comes, (len', chains, tombs', total, adds)) =
      place_all-Placed old new (omega (arith, size, none_live, l, room))
        (replicate-Chained (length old * 2)) in
    (
      table,
      comes,
      (
        (
          (suc k, omega (arith, len', size, power, two')),
          omega (arith, total, none_live, l),
          omega (arith, tombs', none_tomb),
          omega (arith, len', size, room),
          chains,
        ),
        omega (arith, len', size, room, power, two, pos),
        λ p.
            let a = adds p in
            let z = number-replicate (λ e. occupied e && p e) (length old * 2) no_entry refl in
            omega (arith, a, z),
      ),
    )

-- `counts` has the number of records of every map.
unfoldable pub CountsOf : List ℕ → List Entry → Type 0
CountsOf counts table = (id : ℕ) → get_or counts id 0 ≡ number (live id) table

pub CountsOf-in :
    (counts : List ℕ) (table : List Entry) (i : ℕ)
    → CountsOf counts table
    → i < length table
    → occupied (at table i) ≡ true
    → ((at table i).map_id < length counts) × (1 ≤ get_or counts (at table i).map_id 0)
unfolding CountsOf
CountsOf-in counts table i agree lt occ =
    let id = (at table i).map_id in
    let here : live id (at table i) ≡ true = ground (arith, occ) in
    let pos = number_pos (live id) table i lt here in
    let same = agree id in
    (
      elim (Bool-cases (ltb id (length counts))) [
        | inl inside ↦ ground (arith, inside)
        | inr outside ↦ absurd (
            let none_there = get_or-out counts id 0 (ground (arith, outside)) in
            omega (arith, none_there, pos, same))
      ],
      omega (arith, pos, same),
    )

pub CountsOf-keep :
    (counts : List ℕ) (table : List Entry) (i : ℕ) (e : Entry)
    → CountsOf counts table
    → i < length table
    → e.hash ≡ (at table i).hash
    → e.map_id ≡ (at table i).map_id
    → CountsOf counts (set table i e)
unfolding CountsOf
CountsOf-keep counts table i e agree lt same same_map id =
    let n = number-set (live id) table i e lt in
    let b : bit (live id e) ≡ bit (live id (at table i)) =
      ap (λ h. bit (ltb 1 h && (e.map_id == id))) same
      ∙ ap (λ m. bit (ltb 1 (at table i).hash && (m == id))) same_map in
    let a = agree id in omega (arith, n, b, a)

-- The count of map `id` changes as its records do.
pub CountsOf-set :
    (counts : List ℕ) (table : List Entry) (i id n : ℕ) (e : Entry)
    → CountsOf counts table
    → i < length table
    → id < length counts
    → n + bit (live id (at table i)) ≡ get_or counts id 0 + bit (live id e)
    → ((other : ℕ) → id ≢ other → live other e ≡ live other (at table i))
    → CountsOf (set counts id n) (set table i e)
unfolding CountsOf
CountsOf-set counts table i id n e agree lt inside change others other =
    elim (ℕ_discrete id other) [
      | yes same ↦
          subst (λ o. get_or (set counts id n) o 0 ≡ number (live o) (set table i e)) same
            (let w = get_or-set_self counts id n 0 inside in
              let m = number-set (live id) table i e lt in
              let a = agree id in omega (arith, w, m, a, change))
      | no ne ↦
          let w = get_or-set_ne counts id other n 0 ne in
          let m = number-set (live other) table i e lt in
          let a = agree other in
          let b : bit (live other e) ≡ bit (live other (at table i)) = ap bit (others other ne) in
          omega (arith, w, m, a, b)
    ]
