-- ===== src/Store/Probe.antt =====
-- The probe loops over the table of crates/store/src/lib.rs. A slot `i & mask` is `i % n` for the
-- `n` slots of the table, whose number is a power of two. The source loops until it finds what it
-- looks for; here `n` rounds are made, and `spins` says that they were not enough.
use bonsaigrid.Base.{
  ℕ, zero, suc, ◌+◌, ◌%◌, Bool, Option, none, some, List, [], ◌∷◌, ◌==◌, ltb, length, set,
  if◌then◌else◌,
}
use bonsaigrid.Store.Entry.{Entry, at, occupied}
pub mod Rounds
pub mod Counts
pub mod Chains
pub mod Insert
pub mod Rehash

pub data Probe : Type 0 where
  spins : Probe
  vacant : (slot : ℕ) → Probe
  found : (slot : ℕ) → Probe

-- The loop of `find`.
unfoldable pub seek : (Entry → Bool) → List Entry → ℕ → ℕ → Probe
seek hit table zero i = spins
seek hit table (suc fuel) i =
    let e = at table i in
    let rest = seek hit table fuel ((i + 1) % length table) in
    if e.hash == 0 then vacant i else if e.hash == 1 then rest else if hit e then found i else rest

unfoldable pub or_slot : Option ℕ → ℕ → ℕ
or_slot none i = i
or_slot (some slot) i = slot

-- The loop of `put`, which also remembers the first tombstone.
unfoldable pub seek_free : (Entry → Bool) → List Entry → ℕ → ℕ → Option ℕ → Probe
seek_free hit table zero i first_free = spins
seek_free hit table (suc fuel) i first_free =
    let e = at table i in
    let next = (i + 1) % length table in
    let past_tombstone = seek_free hit table fuel next (some (or_slot first_free i)) in
    let rest = seek_free hit table fuel next first_free in
    if e.hash == 0
    then vacant (or_slot first_free i)
    else if e.hash == 1
    then past_tombstone
    else if hit e
    then found i
    else rest

-- The inner loop of `maybe_grow`.
unfoldable pub seek_unoccupied : List Entry → ℕ → ℕ → Probe
seek_unoccupied table zero i = spins
seek_unoccupied table (suc fuel) i =
    let rest = seek_unoccupied table fuel ((i + 1) % length table) in
    if occupied (at table i) then rest else vacant i

unfoldable pub place : List Entry → Entry → Probe → Option (List Entry)
place table e spins = none
place table e (vacant i) = some (set table i e)
place table e (found i) = none

-- The outer loop: the occupied records of the old table, into the new one.
unfoldable pub place_all : List Entry → List Entry → Option (List Entry)
place_all [] table = some table
place_all (e ∷ es) table =
    if occupied e
    then elim (place table e (seek_unoccupied table (length table) (e.hash % length table))) [
      | none ↦ none
      | some t ↦ place_all es t
    ]
    else place_all es table
