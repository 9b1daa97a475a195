-- ===== src/Store/Inner/Contents.antt =====
-- What a shard of crates/store/src/lib.rs holds, seen as a map from the maps' keys to values, and what
-- the write of one record makes of it.
pub mod Write
pub mod Slots
pub mod Values
pub mod Puts
pub mod Gets
pub mod Removes
pub mod Removal
use bonsaigrid.Base.{
  ℕ, zero, suc, ◌+◌, ◌≤◌, ◌<◌, ◌≡◌, ◌≢◌, refl, sym, ap, subst, ◌∙◌, inl, inr, Bool, true, false,
  ◌&&◌, Bool-cases, List, [], ◌∷◌, ◌==◌, ltb, length, set, if◌then◌else◌, ℕ_discrete, arith,
}
use bonsaigrid.Base.Bytes.{Bytes}
use bonsaigrid.Base.Maps.{bytes_beq, bytes_beq_iff}
use bonsaigrid.Store.Entry.{Entry, Handle, at, occupied, hash}
use bonsaigrid.Store.Probe.Counts.{bit, number}
use bonsaigrid.Store.Slab.{Slab, get}
use bonsaigrid.Store.Slab.Memory.{Allocated, RoomFor, SlabFits}
use bonsaigrid.Store.Inner.{Inner, key_bytes, val_bytes, hit, total}

-- The record of a key of map `id` with a value.
unfoldable pub has : Slab → ℕ → Bytes → Bytes → Entry → Bool
has slab id key v e = hit slab id key e && bytes_beq (val_bytes slab e) v

-- How many records of map `id` have the key and the value.
unfoldable pub stored : Inner → ℕ → Bytes → Bytes → ℕ
stored s id key v = number (λ e. occupied e && has s.slab id key v e) s.table

unfoldable pub handle_is : Handle → Entry → Bool
handle_is h e = (e.handle.class == h.class) && (e.handle.slot == h.slot)

-- The bytes of a record are in use, and its lengths are not cut.
unfoldable pub EntryFits : Slab → Entry → Type 0
EntryFits slab e = Allocated slab e.handle × RoomFor e.handle (total e)

-- Each record has bytes of its own, and no two records have one key.
unfoldable pub Filed : Slab → List Entry → Type 0
Filed slab table =
    SlabFits slab
    × ((k : ℕ) → k < length table → occupied (at table k) ≡ true → EntryFits slab (at table k))
    × ((h : Handle) → number (λ e. occupied e && handle_is h e) table ≤ 1)
    × ((id : ℕ) (key : Bytes) → number (λ e. occupied e && hit slab id key e) table ≤ 1)

number-same :
    (p q : Entry → Bool) (table : List Entry)
    → ((k : ℕ) → k < length table → p (at table k) ≡ q (at table k))
    → number p table ≡ number q table
unfolding number
number-same p q [] same = refl
number-same p q (x ∷ xs) same =
    let ih = number-same p q xs (λ k lt. same (suc k) (omega arith)) in
    let b : bit (p x) ≡ bit (q x) = ap bit (same 0 (omega arith)) in omega (arith, ih, b)

number_never :
    (p : Entry → Bool) (table : List Entry)
    → ((k : ℕ) → k < length table → p (at table k) ≡ false)
    → number p table ≡ 0
unfolding number
number_never p [] never = refl
number_never p (x ∷ xs) never =
    let ih = number_never p xs (λ k lt. never (suc k) (omega arith)) in
    let b : bit (p x) ≡ 0 = ap bit (never 0 (omega arith)) in omega (arith, ih, b)

-- A slot is written, and the test changes with it on that slot alone.
pub number-change :
    (p q : Entry → Bool) (table : List Entry) (i : ℕ) (e : Entry)
    → i < length table
    → ((k : ℕ) → k < length table → i ≢ k → p (at table k) ≡ q (at table k))
    → number q (set table i e) + bit (p (at table i)) ≡ number p table + bit (q e)
unfolding number
number-change p q [] i e lt same = elim lt [ ]
number-change p q (x ∷ xs) zero e lt same =
    let rest =
      number-same p q xs (λ k lt. same (suc k) (omega arith) (λ z. absurd (omega (arith, z)))) in
    omega (arith, rest)
number-change p q (x ∷ xs) (suc i) e lt same =
    let ih =
      number-change p q xs i e (omega arith)
        (λ k lt ne. same (suc k) (omega arith) (λ z. ne (omega (arith, z)))) in
    let b : bit (p x) ≡ bit (q x) =
      ap bit (same 0 (omega arith) (λ z. absurd (omega (arith, z)))) in
    omega (arith, ih, b)

-- No other slot than `i` passes the test.
pub number_only :
    (p : Entry → Bool) (table : List Entry) (i : ℕ)
    → i < length table
    → ((k : ℕ) → k < length table → i ≢ k → p (at table k) ≡ false)
    → number p table ≡ bit (p (at table i))
unfolding number
number_only p [] i lt others = elim lt [ ]
number_only p (x ∷ xs) zero lt others =
    let rest =
      number_never p xs (λ k lt. others (suc k) (omega arith) (λ z. absurd (omega (arith, z)))) in
    omega (arith, rest)
number_only p (x ∷ xs) (suc i) lt others =
    let ih =
      number_only p xs i (omega arith)
        (λ k lt ne. others (suc k) (omega arith) (λ z. ne (omega (arith, z)))) in
    let b : bit (p x) ≡ 0 = ap bit (others 0 (omega arith) (λ z. absurd (omega (arith, z)))) in
    omega (arith, ih, b)

pub zero_number :
    (p : Entry → Bool) (table : List Entry) (k : ℕ)
    → number p table ≤ 0
    → k < length table
    → p (at table k) ≡ false
unfolding number
zero_number p [] k none_at_all lt = elim lt [ ]
zero_number p (x ∷ xs) zero none_at_all lt = elim (Bool-cases (p x)) [
  | inr f ↦ f
  | inl t ↦ absurd (let b : bit (p x) ≡ 1 = ap bit t in omega (arith, none_at_all, b))
]
zero_number p (x ∷ xs) (suc k) none_at_all lt =
    zero_number p xs k (omega (arith, none_at_all)) (omega arith)

-- Two slots that pass the test are one, where at most one does.
pub number_once :
    (p : Entry → Bool) (table : List Entry) (i k : ℕ)
    → number p table ≤ 1
    → i < length table
    → k < length table
    → p (at table i) ≡ true
    → i ≢ k
    → p (at table k) ≡ false
unfolding number
number_once p [] i k once lti ltk here ne = elim lti [ ]
number_once p (x ∷ xs) zero zero once lti ltk here ne = absurd (ne refl)
number_once p (x ∷ xs) zero (suc k) once lti ltk here ne =
    let b : bit (p x) ≡ 1 = ap bit here in zero_number p xs k (omega (arith, once, b)) (omega arith)
number_once p (x ∷ xs) (suc i) zero once lti ltk here ne = elim (Bool-cases (p x)) [
  | inr f ↦ f
  | inl t ↦
      let b : bit (p x) ≡ 1 = ap bit t in
      let f = zero_number p xs i (omega (arith, once, b)) (omega arith) in ground (arith, f, here)
]
number_once p (x ∷ xs) (suc i) (suc k) once lti ltk here ne =
    number_once p xs i k (omega (arith, once)) (omega arith) (omega arith) here (λ e. ne (ap suc e))
