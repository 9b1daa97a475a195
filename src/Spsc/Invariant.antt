-- ===== src/Spsc/Invariant.antt =====
-- What holds of the ring of crates/spsc/src/lib.rs between any two accesses to shared memory.
use native.Mathlib.Nat.{
  mod-add-mod, mod-lt, mod-eq_of_lt, mod-eq-sub-mod, mod-add-div, mul_assoc, add-mul-mod_self_left,
}
use bonsaigrid.Base.{
  ℕ, ◌+◌, ◌-◌, ◌*◌, ◌/◌, ◌%◌, ◌≤◌, ◌<◌, ◌≡◌, ◌≢◌, sym, ap, ◌∙◌, inl, inr, false, Option, some, List,
  map, length, take, get_elem?, ltb, ◌==◌, sub64, u64_mod, Bool-cases, arith,
}
use bonsaigrid.Spsc.{
  Ring, Pushing, has_room, written, Popping, has_item, taken, System, slot, is_full,
}

-- Fewer than `c` steps round the ring do not come back.
pub mod-ne : (c i d : ℕ) → 0 < d → d < c → (i + d) % c ≢ i % c
mod-ne c i d hd hc e =
    let r = i % c in
    let small : r < c = mod-lt i (omega arith) in
    let same : (r + d) % c ≡ r = mod-add-mod i c d ∙ e in
    elim (Bool-cases (ltb (r + d) c)) [
      | inl h ↦ absurd (omega (arith, same, mod-eq_of_lt {n = r + d} {m = c} (ground (arith, h))))
      | inr h ↦
          let past : c ≤ r + d = ground (arith, h) in
          absurd (
            omega (
              arith,
              same,
              mod-eq-sub-mod {n = r + d} {m = c} past,
              mod-eq_of_lt {n = r + d - c} {m = c} (omega arith),
            ))
    ]

-- A wrapped index has the slot of the count, for a capacity that divides 2^64.
pub slot_of_word : (c q n : ℕ) → c * q ≡ u64_mod → (n % u64_mod) % c ≡ n % c
slot_of_word c q n e =
    let k = n / u64_mod in
    let split : n ≡ n % u64_mod + c * (q * k) =
      sym (mod-add-div n u64_mod)
      ∙ ap (λ (u : ℕ). n % u64_mod + u) (ap (λ (u : ℕ). u * k) (sym e) ∙ mul_assoc c q k) in
    sym (ap (λ (x : ℕ). x % c) split ∙ add-mul-mod_self_left (n % u64_mod) c (q * k))

module _ {A : Type 0} where
  -- What a producer relies on, by the slots, the capacity, the items and the head that it saw.
  abbrev pub PushingIs : (ℕ → Option A) → ℕ → List A → ℕ → Pushing A → Type 0
  PushingIs buf cap items seen Pushing.idle = Unit {0}
  PushingIs buf cap items seen (has_room x) = length items < seen + cap
  PushingIs buf cap items seen (written x) =
      (length items < seen + cap) × (buf (length items % cap) ≡ some x)

  -- What a consumer relies on, by the items, the count of those returned and the tail that it saw.
  abbrev pub PoppingIs : List A → ℕ → ℕ → Popping A → Type 0
  PoppingIs items n seen Popping.idle = Unit {0}
  PoppingIs items n seen has_item = n < seen
  PoppingIs items n seen (taken o) = (n < seen) × (o ≡ get_elem? items n)

  pub record IsRing (s : System A) : Type 0 where
    pub divides : (q : ℕ) × (s.ring.cap * q ≡ u64_mod)
    pub small : s.ring.cap < u64_mod
    pub head : s.ring.head ≡ length s.popped % u64_mod
    pub tail : s.ring.tail ≡ length s.pushed % u64_mod
    pub bounded : length s.pushed ≤ length s.popped + s.ring.cap
    pub slots :
        (i : ℕ)
        → length s.popped ≤ i
        → i < length s.pushed
        → s.ring.buf (i % s.ring.cap) ≡ get_elem? s.pushed i
    pub fifo : s.popped ≡ map some (take (length s.popped) s.pushed)
    pub head_seen_le : s.head_seen ≤ length s.popped
    pub head_seen_near : length s.pushed ≤ s.head_seen + s.ring.cap
    pub tail_seen_ge : length s.popped ≤ s.tail_seen
    pub tail_seen_le : s.tail_seen ≤ length s.pushed
    pub pushing : PushingIs s.ring.buf s.ring.cap s.pushed s.head_seen s.producer
    pub popping : PoppingIs s.pushed (length s.popped) s.tail_seen s.consumer

  -- A producer that reads a count of pops which is not too old sees a full ring by it exactly when
  -- `cap` items are past that count.
  pub is_full_iff :
      (r : Ring A) (m n : ℕ)
      → r.tail ≡ m % u64_mod
      → r.cap < u64_mod
      → n ≤ m
      → m ≤ n + r.cap
      → is_full r (n % u64_mod) ≡ (m - n == r.cap)
  unfolding is_full sub64
  is_full_iff r m n e c l b =
      let d : (r.tail + u64_mod - n % u64_mod) % u64_mod ≡ m - n = omega (arith, e) in
      ap (λ (x : ℕ). x == r.cap) d

  pub order : (s : System A) → IsRing s → length s.popped ≤ length s.pushed
  order s v = omega arith

  pub full_is_full :
      (s : System A) (n : ℕ)
      → IsRing s
      → s.head_seen ≤ n
      → n ≤ length s.popped
      → is_full s.ring (n % u64_mod) ≡ false
      → length s.pushed < n + s.ring.cap
  full_is_full s n v l b f =
      let e = is_full_iff s.ring (length s.pushed) n v.tail v.small (omega arith) (omega arith) in
      ground (arith, e, f, v.bounded, v.head_seen_near, v.tail_seen_ge, v.tail_seen_le)

  -- The present head shows room where there is room.
  pub room_is_seen :
      (s : System A)
      → IsRing s
      → length s.pushed < length s.popped + s.ring.cap
      → is_full s.ring (length s.popped % u64_mod) ≡ false
  room_is_seen s v h =
      let e =
        is_full_iff s.ring (length s.pushed) (length s.popped) v.tail v.small (omega arith)
          v.bounded in
      ground (arith, e, h, v.tail_seen_ge, v.tail_seen_le)

  -- The present tail shows an item where there is one.
  pub item_is_seen :
      (s : System A)
      → IsRing s
      → length s.popped < length s.pushed
      → (s.ring.head == length s.pushed % u64_mod) ≡ false
  item_is_seen s v h =
      let apart : s.ring.head ≢ length s.pushed % u64_mod =
        omega (arith, v.head, v.bounded, v.small, h) in
      ground (arith, apart)

  pub slot-tail : (s : System A) → IsRing s → slot s.ring s.ring.tail ≡ length s.pushed % s.ring.cap
  unfolding slot
  slot-tail s v =
      ap (λ (x : ℕ). x % s.ring.cap) v.tail
      ∙ slot_of_word s.ring.cap v.divides.0 (length s.pushed) v.divides.1

  pub slot-head : (s : System A) → IsRing s → slot s.ring s.ring.head ≡ length s.popped % s.ring.cap
  unfolding slot
  slot-head s v =
      ap (λ (x : ℕ). x % s.ring.cap) v.head
      ∙ slot_of_word s.ring.cap v.divides.0 (length s.popped) v.divides.1

  -- The slot that the producer may write holds no item that is still to be returned.
  pub slots_apart :
      (s : System A) (i : ℕ)
      → IsRing s
      → length s.pushed < s.head_seen + s.ring.cap
      → length s.popped ≤ i
      → i < length s.pushed
      → i % s.ring.cap ≢ length s.pushed % s.ring.cap
  slots_apart s i v r l u e =
      let d = length s.pushed - i in
      mod-ne s.ring.cap i d (omega arith) (omega (arith, r, v.head_seen_le))
        (ap (λ (x : ℕ). x % s.ring.cap) (omega arith) ∙ sym e)
