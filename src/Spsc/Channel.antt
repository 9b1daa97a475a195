-- ===== src/Spsc/Channel.antt =====
-- A new channel of crates/spsc/src/lib.rs is a ring.
use bonsaigrid.Base.{
  ℕ, zero, suc, ◌*◌, ◌^◌, ◌≤◌, ◌<◌, ◌≡◌, refl, ap, ◌∙◌, ◌⊎◌, inl, inr, max, true, false, leb,
  Bool-cases, u64_mod, arith,
}
use bonsaigrid.Spsc.{power_from, channel, start}
use bonsaigrid.Spsc.Invariant.{IsRing}

-- `half` counts the powers of two up to 2^63 from the other side.
halvings : ℕ → ℕ
halvings zero = 1
halvings (suc f) = 2 * halvings f

-- The doublings stop at a divisor of 2^63, at or above the start, and at or above the capacity
-- unless the last doubling was needed.
power_from_lem :
    (f capacity p : ℕ)
    → 0 < p
    → p * halvings f ≡ 2 ^ 63
    → let c = power_from f capacity p in
      (q : ℕ) × (c * q ≡ 2 ^ 63) × (0 < q) × (0 < c) × ((capacity ≤ c) ⊎ (c ≡ 2 ^ 63))
unfolding power_from halvings
power_from_lem zero capacity p h e = (1, omega (arith, e), omega arith, h, inr (omega (arith, e)))
power_from_lem (suc f) capacity p h e = elim (Bool-cases (leb capacity p)) [
  | inl b ↦ rw b (2 * halvings f, e, halvings_pos f, h, inl (ground (arith, b)))
  | inr b ↦ rw b (power_from_lem f capacity (2 * p) (omega arith) (regroup ∙ e))
]
  where
    regroup : 2 * p * halvings f ≡ p * (2 * halvings f)
    regroup = grind arith

    halvings_pos : (k : ℕ) → 0 < 2 * halvings k
    halvings_pos zero = omega arith
    halvings_pos (suc k) = omega (arith, halvings_pos k)

at_most : (c q : ℕ) → c * q ≡ 2 ^ 63 → 0 < q → c ≤ 2 ^ 63
at_most c zero e h = elim h [ ]
at_most c (suc q) e h = grind arith

-- The capacity of a new channel: at least the one asked for, at least 2, and a divisor of 2^64.
pub channel_capacity :
    (A : Type 0) (capacity : ℕ)
    → capacity ≤ 2 ^ 63
    → let c = (channel A capacity).cap in
      (capacity ≤ c) × (2 ≤ c) × (c < u64_mod) × ((q : ℕ) × (c * q ≡ u64_mod))
unfolding channel
channel_capacity A capacity h =
    let start : 1 * halvings 63 ≡ 2 ^ 63 = unfold halvings in refl in
    let (q, e, pos, large, enough) = power_from_lem 63 capacity 1 (omega arith) start in
    let c = power_from 63 capacity 1 in
    let small = at_most c q e pos in
    elim (Bool-cases (leb 2 c)) [
      | inl b ↦ (omega arith, omega arith, omega arith, (2 * q, twice c q e b))
      | inr b ↦ (omega arith, omega arith, omega arith, (2 ^ 63, once c b large))
    ]
  where
    twice : (c q : ℕ) → c * q ≡ 2 ^ 63 → leb 2 c ≡ true → max c 2 * (2 * q) ≡ u64_mod
    twice c q e b =
        let k : max c 2 ≡ c = ground (arith, b) in
        let regroup : c * (2 * q) ≡ 2 * (c * q) = grind arith in
        ap (λ (x : ℕ). x * (2 * q)) k ∙ omega (arith, regroup, e)

    once : (c : ℕ) → leb 2 c ≡ false → 0 < c → max c 2 * 2 ^ 63 ≡ u64_mod
    once c b h = let k : max c 2 ≡ 2 = ground (arith, b) in rw k

pub start-IsRing : (A : Type 0) (capacity : ℕ) → capacity ≤ 2 ^ 63 → IsRing (start A capacity)
unfolding start
start-IsRing A capacity h =
    let c = channel_capacity A capacity h in
    record {
      divides = c.3;
      small = c.2;
      head = refl;
      tail = refl;
      bounded = omega arith;
      slots = λ i l u. absurd (omega arith);
      fifo = refl;
      head_seen_le = omega arith;
      head_seen_near = omega arith;
      tail_seen_ge = omega arith;
      tail_seen_le = omega arith;
      pushing = tt;
      popping = tt;
    }
