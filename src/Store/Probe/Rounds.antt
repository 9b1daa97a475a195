-- ===== src/Store/Probe/Rounds.antt =====
-- Where the probe loops of crates/store/src/lib.rs stop: a loop that meets a record it does not go
-- past within one round of the table comes to the first such record.
use native.Mathlib.Nat.{mod-add-mod, mod-lt, mod-eq_of_lt, mod-eq-sub-mod}
use bonsaigrid.Base.{
  ℕ, zero, suc, ◌+◌, ◌-◌, ◌%◌, ◌≤◌, ◌<◌, ◌≡◌, sym, ap, subst, ◌∙◌, ◌⊎◌, inl, inr, Bool, true, false,
  Bool-cases, List, ltb, leb, length, arith,
}
use bonsaigrid.Store.Entry.{Entry, at}

-- Every slot is reached from every hash within one round.
pub reaches : (n h j : ℕ) → j < n → (d : ℕ) × (d < n) × ((h + d) % n ≡ j)
reaches n h j lt = elim (Bool-cases (leb (h % n) j)) [
  | inl le ↦ (j - h % n, omega arith, ahead (ground (arith, le)))
  | inr gt ↦ let past : j < h % n = ground (arith, gt) in (n - h % n + j, omega arith, around past)
]
  where
    ahead : h % n ≤ j → (h + (j - h % n)) % n ≡ j
    ahead le =
        sym (mod-add-mod h n (j - h % n))
        ∙ ap (λ k. k % n) (let e : h % n + (j - h % n) ≡ j = omega arith in e)
        ∙ mod-eq_of_lt lt

    around : j < h % n → (h + (n - h % n + j)) % n ≡ j
    around past =
        let below : h % n < n = mod-lt h (omega arith) in
        sym (mod-add-mod h n (n - h % n + j))
        ∙ ap (λ k. k % n) (let e : h % n + (n - h % n + j) ≡ n + j = omega (arith, below) in e)
        ∙ mod-eq-sub-mod (omega arith)
        ∙ ap (λ k. k % n) (let e : (n + j) - n ≡ j = omega arith in e)
        ∙ mod-eq_of_lt lt

-- The slot that is `d` steps from a hash.
abbrev pub slot : List Entry → ℕ → ℕ → ℕ
slot table h d = (h + d) % length table

-- The first `d` records from a hash on are passed by a loop that stops at some.
abbrev pub Passed : (Entry → Bool) → List Entry → ℕ → ℕ → Type 0
Passed stop table h d = (j : ℕ) → j < d → stop (at table (slot table h j)) ≡ false

unfoldable pub Halt : (Entry → Bool) → List Entry → ℕ → ℕ → Type 0
Halt stop table h f =
    (d : ℕ) × (d < f) × Passed stop table h d × (stop (at table (slot table h d)) ≡ true)

pub Passed-suc :
    (stop : Entry → Bool) (table : List Entry) (h f : ℕ)
    → Passed stop table h f
    → stop (at table (slot table h f)) ≡ false
    → Passed stop table h (suc f)
Passed-suc stop table h f passed here j lt = elim (Bool-cases (ltb j f)) [
  | inl less ↦ passed j (ground (arith, less))
  | inr last ↦
      subst (λ k. stop (at table (slot table h k)) ≡ false)
        (let e : f ≡ j = ground (arith, last) in e) here
]

pub first_stop :
    (stop : Entry → Bool) (table : List Entry) (h f : ℕ)
    → Passed stop table h f ⊎ Halt stop table h f
unfolding Halt
first_stop stop table h zero = inl (λ j lt. elim lt [ ])
first_stop stop table h (suc f) = elim (first_stop stop table h f) [
  | inr (d, lt, passed, stopped) ↦ inr (d, omega arith, passed, stopped)
  | inl passed ↦ elim (Bool-cases (stop (at table (slot table h f)))) [
    | inl here ↦ inr (f, omega arith, passed, here)
    | inr here ↦ inl (Passed-suc stop table h f passed here)
  ]
]

-- A loop that would stop somewhere in the table stops within one round from any hash.
pub stop_in_round :
    (stop : Entry → Bool) (table : List Entry) (h j : ℕ)
    → j < length table
    → stop (at table j) ≡ true
    → Halt stop table h (length table)
stop_in_round stop table h j lt here = elim (first_stop stop table h (length table)) [
  | inr s ↦ s
  | inl passed ↦
      let (d, below, there) = reaches (length table) h j lt in
      let past : stop (at table j) ≡ false =
        subst (λ k. stop (at table k) ≡ false) there (passed d below) in
      ground (arith, past, here)
]

pub later :
    (stop : Entry → Bool) (table : List Entry) (h d : ℕ)
    → Passed stop table h (suc d)
    → Passed stop table (suc h) d
later stop table h d p j lt =
    subst (λ k. stop (at table (k % length table)) ≡ false)
      (let e : h + suc j ≡ suc h + j = omega arith in e) (p (suc j) (omega arith))

pub next_slot : (n h : ℕ) → (h % n + 1) % n ≡ suc h % n
next_slot n h = mod-add-mod h n 1 ∙ ap (λ k. k % n) (let e : h + 1 ≡ suc h = omega arith in e)

pub at_hash :
    (stop : Entry → Bool) (table : List Entry) (h : ℕ) (b : Bool)
    → stop (at table (slot table h 0)) ≡ b
    → stop (at table (h % length table)) ≡ b
at_hash stop table h b s =
    subst (λ k. stop (at table (k % length table)) ≡ b) (let e : h + 0 ≡ h = omega arith in e) s
