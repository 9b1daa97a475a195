-- ===== src/Store/Probe/Counts.antt =====
-- How many slots of the table of crates/store/src/lib.rs hold a record of some kind.
use bonsaigrid.Base.{
  ℕ, zero, suc, ◌+◌, ◌<◌, ◌≡◌, refl, ap, inl, inr, Bool, true, false, not, Bool-cases, List, [],
  ◌∷◌, ◌==◌, length, set, replicate, arith,
}
use bonsaigrid.Store.Entry.{Entry, at, occupied, is_empty, is_tombstone}
use bonsaigrid.Store.Probe.Chains.{Roomy}

abbrev pub bit : Bool → ℕ
bit true = 1
bit false = 0

unfoldable pub number : (Entry → Bool) → List Entry → ℕ
number p [] = 0
number p (e ∷ es) = bit (p e) + number p es

pub number-set :
    (p : Entry → Bool) (table : List Entry) (j : ℕ) (e : Entry)
    → j < length table
    → number p (set table j e) + bit (p (at table j)) ≡ number p table + bit (p e)
unfolding number
number-set p [] j e lt = elim lt [ ]
number-set p (x ∷ xs) zero e lt = omega arith
number-set p (x ∷ xs) (suc j) e lt = let ih = number-set p xs j e (omega arith) in omega (arith, ih)

pub number-replicate :
    (p : Entry → Bool) (n : ℕ) (e : Entry) → p e ≡ false → number p (replicate n e) ≡ 0
unfolding number
number-replicate p zero e f = refl
number-replicate p (suc n) e f =
    let ih = number-replicate p n e f in let b : bit (p e) ≡ 0 = ap bit f in omega (arith, ih, b)

-- Some record is not of the kind when fewer than all are.
pub number_lt :
    (p : Entry → Bool) (table : List Entry)
    → number p table < length table
    → (j : ℕ) × (j < length table) × (p (at table j) ≡ false)
unfolding number
number_lt p [] lt = elim lt [ ]
number_lt p (e ∷ es) lt = elim (Bool-cases (p e)) [
  | inr f ↦ (0, omega arith, f)
  | inl t ↦
      let b : bit (p e) ≡ 1 = ap bit t in
      let (j, below, f) = number_lt p es (omega (arith, lt, b)) in (suc j, omega arith, f)
]

-- A slot is empty, a tombstone or occupied.
pub kinds :
    (table : List Entry)
    → number occupied table + number is_tombstone table + number is_empty table ≡ length table
unfolding number
kinds [] = refl
kinds (e ∷ es) =
    let ih = kinds es in
    let one : bit (occupied e) + bit (is_tombstone e) + bit (is_empty e) ≡ 1 = ground arith in
    omega (arith, ih, one)

full_number :
    (table : List Entry)
    → number (λ e. not (e.hash == 0)) table ≡ number occupied table + number is_tombstone table
unfolding number
full_number [] = refl
full_number (e ∷ es) =
    let ih = full_number es in
    let one : bit (not (e.hash == 0)) ≡ bit (occupied e) + bit (is_tombstone e) = ground arith in
    omega (arith, ih, one)

-- A table with fewer records and tombstones than slots has an empty slot.
pub number-Roomy :
    (table : List Entry)
    → number occupied table + number is_tombstone table < length table
    → Roomy table
unfolding Roomy
number-Roomy table lt =
    let full = full_number table in
    let (j, below, f) = number_lt (λ e. not (e.hash == 0)) table (omega (arith, full)) in
    (j, below, ground (arith, f))
