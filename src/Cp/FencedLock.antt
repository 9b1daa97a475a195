-- ===== src/Cp/FencedLock.antt =====
-- crates/raft/src/fencedlock.rs
pub mod Fences
pub mod History
use bonsaigrid.Base.{
  ℕ, ◌≡◌, refl, ap, ◌∙◌, Bool, true, false, ◌&&◌, not, Option, none, some, List, [], ◌∷◌, ◌++◌,
  length, get_or, take, drop, ltb, ◌==◌, if◌then◌else◌, arith,
}
use bonsaigrid.Base.Bytes.{Bytes, from_utf8, from_utf8-is_utf8, is_utf8}
use bonsaigrid.Base.Int.{ℤ, pos, negsuc, Fits, i64_half, i32_half, add_i64, add_i32, eq_ℤ}
use bonsaigrid.Base.Maps.{HashMap, insert, remove, retain, bytes_eq}
use bonsaigrid.Cp.Wire.{
  CpReply, long, bool, nil, ◌>>=◌, i64_bytes, i64_from, two_ints, Reads, two_ints-Reads,
}

pub data FlOp : Type 0 where
  lock : (session thread : ℤ) → FlOp
  try_lock : (session thread : ℤ) → FlOp
  unlock : (session thread : ℤ) → FlOp

unfoldable pub owner : FlOp → ℤ × ℤ
owner (lock s t) = (s, t)
owner (try_lock s t) = (s, t)
owner (unlock s t) = (s, t)

unfoldable pub tag_of : FlOp → ℕ
tag_of (lock _ _) = 0
tag_of (try_lock _ _) = 1
tag_of (unlock _ _) = 2

unfoldable pub encode : Bytes → FlOp → Bytes
encode name op = tag_of op ∷ two_ints (owner op).0 (owner op).1 name

unfoldable pub op_of : ℕ → ℤ → ℤ → Option FlOp
op_of tag s t =
    if tag == 0
    then some (lock s t)
    else if tag == 1
    then some (try_lock s t)
    else if tag == 2
    then some (unlock s t)
    else none

unfoldable pub decode : Bytes → Option (Bytes × FlOp)
unfolding op_of
decode body = if ltb (length body) 17 then none else do
  op ← op_of (get_or body 0 0) (i64_from (take 8 (drop 1 body))) (i64_from (take 8 (drop 9 body)))
  name ← from_utf8 (drop 17 body)
  some (name, op)

pub record LockState : Type 0 where
  pub fence : ℤ
  pub session : ℤ
  pub thread : ℤ
  pub count : ℤ

pub record FencedLockSm : Type 0 where
  pub locks : HashMap Bytes LockState
  pub next_fence : ℤ

abbrev pub initial : FencedLockSm
initial = record { locks = λ _. none; next_fence = pos 0 }

-- `count > 0`.
abbrev pub is_pos : ℤ → Bool
is_pos (pos n) = ltb 0 n
is_pos (negsuc n) = false

abbrev pub owns : LockState → ℤ → ℤ → Bool
owns l session thread = eq_ℤ l.session session && eq_ℤ l.thread thread

-- A free lock goes to the caller under the next fence.
unfoldable pub grant : FencedLockSm → Bytes → ℤ → ℤ → FencedLockSm × ℤ
grant sm name session thread =
    let f = add_i64 sm.next_fence (pos 1) in
    let l : LockState = record { fence = f; session = session; thread = thread; count = pos 1 } in
    (record { locks = insert name l sm.locks; next_fence = f }, f)

unfoldable pub reenter : FencedLockSm → Bytes → LockState → FencedLockSm
reenter sm name l = record sm {
  locks = insert name (record l { count = add_i32 l.count (pos 1) }) sm.locks;
}

unfoldable pub acquire : FencedLockSm → Bytes → ℤ → ℤ → FencedLockSm × ℤ
acquire sm name session thread = elim (sm.locks name) [
  | none ↦ grant sm name session thread
  | some l ↦
      if is_pos l.count
      then (if owns l session thread then (reenter sm name l, l.fence) else (sm, pos 0))
      else grant sm name session thread
]

-- One hold less, and none left frees the lock.
unfoldable pub drop_hold : FencedLockSm → Bytes → LockState → FencedLockSm
drop_hold sm name l =
    let c = add_i32 l.count (negsuc 0) in
    record sm {
      locks =
          if eq_ℤ c (pos 0)
          then remove name sm.locks
          else insert name (record l { count = c }) sm.locks;
    }

unfoldable pub release : FencedLockSm → Bytes → ℤ → ℤ → FencedLockSm × Bool
release sm name session thread = elim (sm.locks name) [
  | none ↦ (sm, false)
  | some l ↦
      if is_pos l.count && owns l session thread then (drop_hold sm name l, true) else (sm, false)
]

unfoldable pub release_session : FencedLockSm → ℤ → FencedLockSm
release_session sm session = record sm {
  locks = retain (λ l. not (eq_ℤ l.session session)) sm.locks;
}

-- `fence(name)`: 0 if unlocked.
abbrev fence_or_zero : Option LockState → ℤ
fence_or_zero none = pos 0
fence_or_zero (some l) = l.fence

unfoldable pub fence : FencedLockSm → Bytes → ℤ
fence sm name = fence_or_zero (sm.locks name)

abbrev held : Option LockState → Bool
held none = false
held (some l) = is_pos l.count

unfoldable pub is_locked : FencedLockSm → Bytes → Bool
is_locked sm name = held (sm.locks name)

unfoldable pub run_op : FencedLockSm → Bytes → FlOp → FencedLockSm × CpReply
run_op sm name (lock s t) = let r = acquire sm name s t in (r.0, long r.1)
run_op sm name (try_lock s t) = let r = acquire sm name s t in (r.0, long r.1)
run_op sm name (unlock s t) = let r = release sm name s t in (r.0, bool r.1)

unfoldable pub apply : FencedLockSm → Bytes → FencedLockSm × CpReply
apply sm body = elim (decode body) [ none ↦ (sm, nil) | some c ↦ run_op sm c.0 c.1 ]

op_of-owner : (op : FlOp) → op_of (tag_of op) (owner op).0 (owner op).1 ≡ some op
unfolding op_of tag_of owner
op_of-owner (lock s t) = refl
op_of-owner (try_lock s t) = refl
op_of-owner (unlock s t) = refl

decode-Reads :
    (a b : ℤ) (name bs : Bytes) (op : FlOp)
    → Reads a b name bs
    → is_utf8 name ≡ true
    → op_of (get_or bs 0 0) a b ≡ some op
    → decode bs ≡ some (name, op)
unfolding decode
decode-Reads a b name bs op r u e =
    rw (r.enough, r.first, r.second, e, r.rest, from_utf8-is_utf8 name u)

-- An encoded operation of i64 owners is decoded to its name and itself.
pub decode-encode_lock :
    (name : Bytes) (op : FlOp)
    → is_utf8 name ≡ true
    → Fits i64_half (owner op).0
    → Fits i64_half (owner op).1
    → decode (encode name op) ≡ some (name, op)
unfolding encode
decode-encode_lock name op u a b =
    decode-Reads (owner op).0 (owner op).1 name (encode name op) op
      (two_ints-Reads (tag_of op) (owner op).0 (owner op).1 name a b) u (op_of-owner op)
