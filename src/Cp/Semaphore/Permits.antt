-- ===== src/Cp/Semaphore/Permits.antt =====
-- No permit of crates/raft/src/semaphore.rs is lost or made up.
use bonsaigrid.Base.{
  ℕ, ◌+◌, ◌-◌, ◌≤◌, ◌<◌, ◌≡◌, refl, ap, ◌∙◌, inl, inr, true, false, none, List, [], ◌∷◌, arith,
  Bool-cases, Option-cases,
}
use bonsaigrid.Base.Bytes.{Bytes}
use bonsaigrid.Base.Int.{
  ℤ, pos, negsuc, i32_half, add_i32, sub_i32, max_zero, pos_part, wrapping_add, wrapping_sub,
  of_word, to_word,
}
use bonsaigrid.Base.Maps.{bytes_eq, bytes_beq_iff}
use bonsaigrid.Cp.Wire.{CpReply, long, bool, blob, nil}
use bonsaigrid.Cp.Semaphore.{
  SemOp, init, acquire, release, drain, available_permits, SemaphoreSm, available, put_permits,
  init_permits, enough, run_op,
}

-- The permits that an operation put in, by its reply.
abbrev pub put_in : SemOp → CpReply → ℕ
put_in (init n) (bool true) = pos_part n
put_in (release n) _ = pos_part n
put_in _ _ = 0

-- The permits that it took out.
abbrev pub taken_out : SemOp → CpReply → ℕ
taken_out (acquire n) (bool true) = pos_part n
taken_out drain (long v) = pos_part v
taken_out _ _ = 0

-- What it could put in at most.
abbrev pub room : SemOp → ℕ
room (init n) = pos_part n
room (release n) = pos_part n
room _ = 0

available-put_permits :
    (sm : SemaphoreSm) (name : Bytes) (p : ℤ) → available (put_permits sm name p) name ≡ p
unfolding available put_permits
available-put_permits sm name p = ground (arith, bytes_beq_iff name name)

-- The balance of one operation on a semaphore with `p` permits.
abbrev pub Balanced : ℕ → SemaphoreSm × CpReply → Bytes → SemOp → Type 0
Balanced p r name op =
    (q : ℕ) × (available r.0 name ≡ pos q) × (q + taken_out op r.1 ≡ p + put_in op r.1)

vacant :
    (sm : SemaphoreSm) (name : Bytes) (p : ℕ)
    → sm.permits name ≡ none
    → available sm name ≡ pos p
    → p ≡ 0
unfolding available
vacant sm name p e h = ground (arith, e, h)

sub_eq : (p n : ℕ) → n ≤ p → p < i32_half → sub_i32 (pos p) (pos n) ≡ pos (p - n)
unfolding wrapping_sub of_word to_word
sub_eq p n h b = ground arith

add_eq : (p n : ℕ) → p + n < i32_half → add_i32 (pos p) (pos n) ≡ pos (p + n)
unfolding wrapping_add of_word to_word
add_eq p n b = ground arith

put :
    (sm : SemaphoreSm) (name : Bytes) (p : ℤ) (q : ℕ)
    → p ≡ pos q
    → available (put_permits sm name p) name ≡ pos q
put sm name p q e = available-put_permits sm name p ∙ e

acquired :
    (sm : SemaphoreSm) (name : Bytes) (n x : ℤ) (p : ℕ)
    → x ≡ pos p
    → p < i32_half
    → enough n x ≡ true
    → Balanced p (put_permits sm name (sub_i32 x n), bool true) name (acquire n)
acquired sm name (pos n) x p e b h =
    let fits : n ≤ p = ground (arith, h, e) in
    (p - n, put sm name _ (p - n) (ap (λ y. sub_i32 y (pos n)) e ∙ sub_eq p n fits b), omega arith)
acquired sm name (negsuc n) x p e b h = absurd (ground (arith, h))

acquire-Balanced :
    (sm : SemaphoreSm) (name : Bytes) (n : ℤ) (p : ℕ)
    → available sm name ≡ pos p
    → p < i32_half
    → Balanced p (run_op sm name (acquire n)) name (acquire n)
unfolding run_op
acquire-Balanced sm name n p e b = elim (Bool-cases (enough n (available sm name))) [
  | inl h ↦ rw h (acquired sm name n (available sm name) p e b h)
  | inr h ↦ rw h (p, put sm name _ p e, refl)
]

release_eq :
    (p : ℕ) (n : ℤ)
    → p + pos_part n < i32_half
    → add_i32 (pos p) (max_zero n) ≡ pos (p + pos_part n)
release_eq p (pos n) b = add_eq p n b
release_eq p (negsuc n) b = add_eq p 0 b

init_eq : (n : ℤ) → max_zero n ≡ pos (pos_part n)
init_eq (pos n) = refl
init_eq (negsuc n) = refl

-- What is available after an operation and what it took are what was available before and what it
-- put in, while the sum fits an i32.
pub run_op-Balanced :
    (sm : SemaphoreSm) (name : Bytes) (op : SemOp) (p : ℕ)
    → available sm name ≡ pos p
    → p + room op < i32_half
    → Balanced p (run_op sm name op) name op
unfolding run_op init_permits
run_op-Balanced sm name (init n) p e b = elim (Option-cases (sm.permits name)) [
  | inl v ↦
      rw (v, init_permits)
        (
          pos_part n,
          put sm name (max_zero n) (pos_part n) (init_eq n),
          omega (arith, vacant sm name p v e),
        )
  | inr (x, v) ↦ rw (v, init_permits) (p, e, refl)
]
run_op-Balanced sm name (acquire n) p e b = acquire-Balanced sm name n p e (omega arith)
run_op-Balanced sm name (release n) p e b = (
  p + pos_part n,
  put sm name _ (p + pos_part n) (ap (λ x. add_i32 x (max_zero n)) e ∙ release_eq p n b),
  omega arith,
)
run_op-Balanced sm name drain p e b = (0, put sm name (pos 0) 0 refl, rw e (omega arith))
run_op-Balanced sm name available_permits p e b = (p, e, refl)

-- A run of operations on one semaphore, with the sums of what they took and of what they put in.
unfoldable pub run_ops : SemaphoreSm → Bytes → List SemOp → SemaphoreSm × ℕ × ℕ
run_ops sm name [] = (sm, 0, 0)
run_ops sm name (op ∷ ops) =
    let r = run_op sm name op in
    let rest = run_ops r.0 name ops in (rest.0, taken_out op r.1 + rest.1, put_in op r.1 + rest.2)

-- What the operations could put in at most.
abbrev pub total_room : List SemOp → ℕ
total_room [] = 0
total_room (op ∷ ops) = room op + total_room ops

put_in-le : (op : SemOp) (r : CpReply) → put_in op r ≤ room op
put_in-le (init n) (bool true) = omega arith
put_in-le (init n) (bool false) = omega arith
put_in-le (init n) (long v) = omega arith
put_in-le (init n) (blob v) = omega arith
put_in-le (init n) nil = omega arith
put_in-le (release n) r = omega arith
put_in-le (acquire n) r = omega arith
put_in-le drain r = omega arith
put_in-le available_permits r = omega arith

-- Over any run of operations on one semaphore, the permits that are left and all that were taken
-- are those that it started with and all that were put in, while their sum fits an i32.
pub run_ops-Balanced :
    (sm : SemaphoreSm) (name : Bytes) (ops : List SemOp) (p : ℕ)
    → available sm name ≡ pos p
    → p + total_room ops < i32_half
    → let r = run_ops sm name ops in (q : ℕ) × (available r.0 name ≡ pos q) × (q + r.1 ≡ p + r.2)
unfolding run_ops
run_ops-Balanced sm name [] p e b = (p, e, refl)
run_ops-Balanced sm name (op ∷ ops) p e b =
    let r = run_op sm name op in
    let (q, f, s) = run_op-Balanced sm name op p e (omega arith) in
    let (t, g, u) = run_ops-Balanced r.0 name ops q f (omega (arith, s, put_in-le op r.1)) in
    (t, g, omega (arith, s, u))
