-- ===== src/Cp/AtomicLong.antt =====
-- crates/raft/src/atomiclong.rs
use bonsaigrid.Base.{
  ◌+◌, ◌%◌, ◌≢◌, u64_mod, map, All, ℕ, ◌≡◌, refl, inl, inr, subst, sym, ap, ◌∙◌, Bool, true, false,
  Option, none, some, List, [], ◌∷◌, length, get_or, take, drop, ltb, ◌==◌, if◌then◌else◌, arith,
  Bool-cases,
}
use bonsaigrid.Base.Bytes.{Bytes, from_utf8, from_utf8-is_utf8, is_utf8}
use bonsaigrid.Base.Int.{
  ℤ, pos, Fits, i64_half, add_i64, eq_ℤ, to_word, of_word, to_word-lt, to_word-of_word,
  of_word-Fits, wrapping_add,
}
use bonsaigrid.Base.Maps.{HashMap, insert, bytes_eq, bytes_beq, bytes_beq_iff}
use bonsaigrid.Cp.Wire.{◌>>=◌, i64_from, two_ints, Reads, two_ints-Reads}

pub data AlOp : Type 0 where
  get : AlOp
  set : ℤ → AlOp
  get_and_set : ℤ → AlOp
  add_and_get : ℤ → AlOp
  get_and_add : ℤ → AlOp
  compare_and_set : ℤ → ℤ → AlOp

pub data AlReply : Type 0 where
  long : ℤ → AlReply
  bool : Bool → AlReply
  nothing : AlReply

-- The tag and the two operands of `encode`.
unfoldable pub fields : AlOp → ℕ × ℤ × ℤ
fields get = (0, pos 0, pos 0)
fields (set v) = (1, v, pos 0)
fields (get_and_set v) = (2, v, pos 0)
fields (add_and_get d) = (3, d, pos 0)
fields (get_and_add d) = (4, d, pos 0)
fields (compare_and_set e n) = (5, e, n)

unfoldable pub encode : Bytes → AlOp → Bytes
unfolding fields
encode name op = let (tag, a, b) = fields op in tag ∷ two_ints a b name

unfoldable pub op_of : ℕ → ℤ → ℤ → Option AlOp
op_of tag a b =
    if tag == 0
    then some get
    else if tag == 1
    then some (set a)
    else if tag == 2
    then some (get_and_set a)
    else if tag == 3
    then some (add_and_get a)
    else if tag == 4
    then some (get_and_add a)
    else if tag == 5
    then some (compare_and_set a b)
    else none

unfoldable pub decode : Bytes → Option (Bytes × AlOp)
unfolding op_of
decode bytes = if ltb (length bytes) 17 then none else do
  name ← from_utf8 (drop 17 bytes)
  op ←
      op_of (get_or bytes 0 0) (i64_from (take 8 (drop 1 bytes))) (i64_from (take 8 (drop 9 bytes)))
  some (name, op)

pub record AtomicLongSm : Type 0 where
  pub values : HashMap Bytes ℤ

abbrev value_or_zero : Option ℤ → ℤ
value_or_zero none = pos 0
value_or_zero (some v) = v

unfoldable pub value : AtomicLongSm → Bytes → ℤ
value sm name = value_or_zero (sm.values name)

-- `*v = x` on the entry of a name.
unfoldable pub store : AtomicLongSm → Bytes → ℤ → AtomicLongSm
store sm name v = record { values = insert name v sm.values }

-- One operation on the entry, which `or_insert(0)` has put in the map.
unfoldable pub run_op : AtomicLongSm → Bytes → AlOp → AtomicLongSm × AlReply
run_op sm name get = (store sm name (value sm name), long (value sm name))
run_op sm name (set n) = (store sm name n, nothing)
run_op sm name (get_and_set n) = (store sm name n, long (value sm name))
run_op sm name (add_and_get d) = let v = add_i64 (value sm name) d in (store sm name v, long v)
run_op sm name (get_and_add d) = (store sm name (add_i64 (value sm name) d), long (value sm name))
run_op sm name (compare_and_set e n) =
    if eq_ℤ (value sm name) e
    then (store sm name n, bool true)
    else (store sm name (value sm name), bool false)

unfoldable pub apply : AtomicLongSm → Bytes → AtomicLongSm × AlReply
unfolding run_op
apply sm command = elim (decode command) [ none ↦ (sm, nothing) | some c ↦ run_op sm c.0 c.1 ]

abbrev pub InRange : AlOp → Type 0
InRange get = Unit {0}
InRange (set v) = Fits i64_half v
InRange (get_and_set v) = Fits i64_half v
InRange (add_and_get d) = Fits i64_half d
InRange (get_and_add d) = Fits i64_half d
InRange (compare_and_set e n) = Fits i64_half e × Fits i64_half n

op_of-fields : (op : AlOp) → let (tag, a, b) = fields op in op_of tag a b ≡ some op
unfolding op_of fields
op_of-fields get = refl
op_of-fields (set v) = refl
op_of-fields (get_and_set v) = refl
op_of-fields (add_and_get d) = refl
op_of-fields (get_and_add d) = refl
op_of-fields (compare_and_set e n) = refl

fields-Fits : (op : AlOp) → InRange op → Fits i64_half (fields op).1 × Fits i64_half (fields op).2
unfolding fields
fields-Fits get r = (omega arith, omega arith)
fields-Fits (set v) r = (r, omega arith)
fields-Fits (get_and_set v) r = (r, omega arith)
fields-Fits (add_and_get d) r = (r, omega arith)
fields-Fits (get_and_add d) r = (r, omega arith)
fields-Fits (compare_and_set e n) r = r

decode-Reads :
    (a b : ℤ) (name bs : Bytes) (op : AlOp)
    → Reads a b name bs
    → is_utf8 name ≡ true
    → op_of (get_or bs 0 0) a b ≡ some op
    → decode bs ≡ some (name, op)
unfolding decode
decode-Reads a b name bs op r u e =
    rw (r.enough, r.rest, from_utf8-is_utf8 name u, r.first, r.second, e)

-- An encoded operation of i64 operands is decoded to its name and itself.
pub decode-encode :
    (name : Bytes) (op : AlOp)
    → is_utf8 name ≡ true
    → InRange op
    → decode (encode name op) ≡ some (name, op)
unfolding encode
decode-encode name op u r =
    let (tag, a, b) = fields op in
    let fits = fields-Fits op r in
    decode-Reads a b name (encode name op) op (two_ints-Reads tag a b name fits.0 fits.1) u
      (op_of-fields op)

-- A committed operation runs on the entry of its name.
pub apply-encode :
    (sm : AtomicLongSm) (name : Bytes) (op : AlOp)
    → is_utf8 name ≡ true
    → InRange op
    → apply sm (encode name op) ≡ run_op sm name op
unfolding apply
apply-encode sm name op u r = rw (decode-encode name op u r, apply)

value-store :
    (sm : AtomicLongSm) (name other : Bytes) (v : ℤ)
    → value (store sm name v) other ≡ (if bytes_beq name other then v else value sm other)
unfolding value store
value-store sm name other v = ground arith

value-store_self : (sm : AtomicLongSm) (name : Bytes) (v : ℤ) → value (store sm name v) name ≡ v
value-store_self sm name v = ground (arith, value-store sm name name v, bytes_beq_iff name name)

store-other :
    (sm : AtomicLongSm) (name other : Bytes) (v : ℤ)
    → name ≢ other
    → value (store sm name v) other ≡ value sm other
store-other sm name other v h =
    ground (arith, value-store sm name other v, bytes_beq_iff name other)

-- An operation on one name leaves the value of every other name alone.
pub run_op-other :
    (sm : AtomicLongSm) (name other : Bytes) (op : AlOp)
    → name ≢ other
    → value (run_op sm name op).0 other ≡ value sm other
unfolding run_op
run_op-other sm name other get h = store-other sm name other _ h
run_op-other sm name other (set v) h = store-other sm name other _ h
run_op-other sm name other (get_and_set v) h = store-other sm name other _ h
run_op-other sm name other (add_and_get d) h = store-other sm name other _ h
run_op-other sm name other (get_and_add d) h = store-other sm name other _ h
run_op-other sm name other (compare_and_set e n) h = elim (Bool-cases (eq_ℤ (value sm name) e)) [
  | inl p ↦ rw p (store-other sm name other _ h)
  | inr p ↦ rw p (store-other sm name other _ h)
]

add-value :
    (sm : AtomicLongSm) (name : Bytes) (d : ℤ)
    → is_utf8 name ≡ true
    → Fits i64_half d
    → value (apply sm (encode name (add_and_get d))).0 name ≡ add_i64 (value sm name) d
unfolding run_op
add-value sm name d u h =
    ap (λ (r : AtomicLongSm × AlReply). value r.0 name) (apply-encode sm name (add_and_get d) u h)
    ∙ value-store_self sm name (add_i64 (value sm name) d)

add-word :
    (sm : AtomicLongSm) (name : Bytes) (d : ℤ)
    → is_utf8 name ≡ true
    → Fits i64_half d
    → value (apply sm (encode name (add_and_get d))).0 name
      ≡ of_word i64_half ((to_word i64_half (value sm name) + to_word i64_half d) % u64_mod)
unfolding wrapping_add
add-word sm name d u h = add-value sm name d u h

-- The commands that add each number to one name, and a run of commands.
abbrev pub adds : Bytes → List ℤ → List Bytes
adds name ds = map (λ d. encode name (add_and_get d)) ds

pub run_all : AtomicLongSm → List Bytes → AtomicLongSm
run_all sm [] = sm
run_all sm (c ∷ cs) = run_all (apply sm c).0 cs

-- The total of a list of numbers as i64 words.
abbrev pub word_sum : List ℤ → ℕ
word_sum [] = 0
word_sum (d ∷ ds) = to_word i64_half d + word_sum ds

-- No addition is lost: after any list of them the counter holds its first value and all of them,
-- modulo 2^64.
pub value-run_all-adds :
    (sm : AtomicLongSm) (name : Bytes) (ds : List ℤ)
    → is_utf8 name ≡ true
    → All (Fits i64_half) ds
    → Fits i64_half (value sm name)
    → to_word i64_half (value (run_all sm (adds name ds)) name)
      ≡ (to_word i64_half (value sm name) + word_sum ds) % u64_mod
unfolding run_all
value-run_all-adds sm name [] u f b = omega (arith, to_word-lt i64_half (value sm name) b)
value-run_all-adds sm name (d ∷ ds) u f b =
    let v = value sm name in
    let w = (to_word i64_half v + to_word i64_half d) % u64_mod in
    let here : value (apply sm (encode name (add_and_get d))).0 name ≡ of_word i64_half w =
      add-word sm name d u f.0 in
    let in_range : Fits i64_half (value (apply sm (encode name (add_and_get d))).0 name) =
      subst (Fits i64_half) (sym here) (of_word-Fits i64_half w (omega arith)) in
    omega (
      arith,
      value-run_all-adds (apply sm (encode name (add_and_get d))).0 name ds u f.1 in_range,
      ap (to_word i64_half) here,
      to_word-of_word i64_half w (omega arith),
    )
