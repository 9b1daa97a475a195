-- ===== src/Cp/Semaphore.antt =====
-- crates/raft/src/semaphore.rs
pub mod Permits
use bonsaigrid.Base.{
  ℕ, zero, suc, ◌+◌, ◌-◌, ◌≤◌, ◌<◌, ◌≡◌, ◌≢◌, refl, sym, ap, ◌∙◌, inl, inr, Bool, true, false, ◌&&◌,
  Option, none, some, List, [], ◌∷◌, ◌++◌, get_or, ltb, ◌==◌, if◌then◌else◌, arith, Bool-cases,
  Option-cases,
}
use bonsaigrid.Base.Bytes.{Bytes, from_utf8, from_utf8-is_utf8, is_utf8}
use bonsaigrid.Base.Int.{
  ℤ, pos, negsuc, Fits, i32_half, add_i32, sub_i32, leb_ℤ, max_zero, ◌+ℤ◌, wrapping_add,
  wrapping_sub, of_word, to_word,
}
use bonsaigrid.Base.Maps.{HashMap, insert, bytes_eq, bytes_beq, bytes_beq_iff}
use bonsaigrid.Cp.Wire.{CpReply, long, bool, nil, ◌>>=◌, i32_bytes, i32_arg, i32_arg-i32_bytes}

pub data SemOp : Type 0 where
  init : ℤ → SemOp
  acquire : ℤ → SemOp
  release : ℤ → SemOp
  drain : SemOp
  available_permits : SemOp

-- The tag and the arguments that `encode` puts before the name.
unfoldable pub head_bytes : SemOp → Bytes
head_bytes (init n) = 0 ∷ i32_bytes n
head_bytes (acquire n) = 1 ∷ i32_bytes n
head_bytes (release n) = 2 ∷ i32_bytes n
head_bytes drain = 3 ∷ []
head_bytes available_permits = 4 ∷ []

unfoldable pub encode : Bytes → SemOp → Bytes
encode name op = head_bytes op ++ name

-- The operation of a tag, and the bytes that are left for the name.
unfoldable pub parse : ℕ → Bytes → Option (SemOp × Bytes)
parse tag rest =
    if tag == 0
    then i32_arg rest >>= (λ n. some (init n.0, n.1))
    else if tag == 1
    then i32_arg rest >>= (λ n. some (acquire n.0, n.1))
    else if tag == 2
    then i32_arg rest >>= (λ n. some (release n.0, n.1))
    else if tag == 3
    then some (drain, rest)
    else if tag == 4
    then some (available_permits, rest)
    else none

unfoldable pub decode : Bytes → Option (Bytes × SemOp)
decode [] = none
decode (tag ∷ rest) = do r ← parse tag rest; name ← from_utf8 r.1; some (name, r.0)

pub record SemaphoreSm : Type 0 where
  pub permits : HashMap Bytes ℤ

abbrev permits_or_zero : Option ℤ → ℤ
permits_or_zero none = pos 0
permits_or_zero (some p) = p

unfoldable pub available : SemaphoreSm → Bytes → ℤ
available sm name = permits_or_zero (sm.permits name)

unfoldable pub put_permits : SemaphoreSm → Bytes → ℤ → SemaphoreSm
put_permits sm name p = record { permits = insert name p sm.permits }

-- The permits of a name are set once.
unfoldable pub init_permits : SemaphoreSm → Bytes → ℤ → SemaphoreSm × CpReply
init_permits sm name n = elim (sm.permits name) [
  | none ↦ (put_permits sm name (max_zero n), bool true)
  | some p ↦ (sm, bool false)
]

-- `n >= 0 && *p >= n`.
abbrev pub enough : ℤ → ℤ → Bool
enough n p = leb_ℤ (pos 0) n && leb_ℤ n p

unfoldable pub run_op : SemaphoreSm → Bytes → SemOp → SemaphoreSm × CpReply
run_op sm name (init n) = init_permits sm name n
run_op sm name (acquire n) =
    let p = available sm name in
    if enough n p
    then (put_permits sm name (sub_i32 p n), bool true)
    else (put_permits sm name p, bool false)
run_op sm name (release n) =
    (put_permits sm name (add_i32 (available sm name) (max_zero n)), bool true)
run_op sm name drain = (put_permits sm name (pos 0), long (available sm name))
run_op sm name available_permits = (sm, long (available sm name))

unfoldable pub apply : SemaphoreSm → Bytes → SemaphoreSm × CpReply
apply sm body = elim (decode body) [ none ↦ (sm, nil) | some c ↦ run_op sm c.0 c.1 ]

-- The argument of the operation is an i32.
abbrev pub InRange : SemOp → Type 0
InRange (init n) = Fits i32_half n
InRange (acquire n) = Fits i32_half n
InRange (release n) = Fits i32_half n
InRange _ = Unit {0}

-- An encoded semaphore operation with an i32 argument and a UTF-8 name is decoded to itself.
pub decode-encode_semaphore :
    (name : Bytes) (op : SemOp)
    → is_utf8 name ≡ true
    → InRange op
    → decode (encode name op) ≡ some (name, op)
unfolding encode head_bytes parse decode
decode-encode_semaphore name (init n) u r =
    rw (i32_arg-i32_bytes n name r, from_utf8-is_utf8 name u)
decode-encode_semaphore name (acquire n) u r =
    rw (i32_arg-i32_bytes n name r, from_utf8-is_utf8 name u)
decode-encode_semaphore name (release n) u r =
    rw (i32_arg-i32_bytes n name r, from_utf8-is_utf8 name u)
decode-encode_semaphore name drain u r = rw (from_utf8-is_utf8 name u)
decode-encode_semaphore name available_permits u r = rw (from_utf8-is_utf8 name u)
