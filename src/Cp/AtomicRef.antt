-- ===== src/Cp/AtomicRef.antt =====
-- crates/raft/src/atomicref.rs
use bonsaigrid.Base.{
  ℕ, ◌^◌, ◌<◌, ◌≡◌, refl, Bool, true, false, Option, none, some, [], ◌∷◌, ◌++◌, length,
  append_assoc, ◌==◌, if◌then◌else◌, arith,
}
use bonsaigrid.Base.Bytes.{Bytes, from_utf8, from_utf8-is_utf8, is_utf8}
use bonsaigrid.Base.Maps.{HashMap, insert, remove, bytes_eq, bytes_beq, bytes_beq_iff}
use bonsaigrid.Cp.Wire.{CpReply, blob, bool, nil, ◌>>=◌, put_blob, get_blob, get_blob-put_blob}

pub data ArOp : Type 0 where
  get : ArOp
  set : Option Bytes → ArOp
  get_and_set : Option Bytes → ArOp
  compare_and_set : Option Bytes → Option Bytes → ArOp
  contains : Option Bytes → ArOp
  is_null : ArOp
  clear : ArOp

unfoldable pub put_opt : Option Bytes → Bytes
put_opt none = 0 ∷ []
put_opt (some b) = 1 ∷ put_blob b

-- The value at the front, and the bytes behind it.
unfoldable pub get_opt : Bytes → Option (Option Bytes × Bytes)
get_opt [] = none
get_opt (tag ∷ rest) =
    if tag == 0 then some (none, rest) else get_blob rest >>= (λ r. some (some r.0, r.1))

-- The tag and the arguments that `encode` puts before the name.
unfoldable pub head_bytes : ArOp → Bytes
head_bytes get = 0 ∷ []
head_bytes (set v) = 1 ∷ put_opt v
head_bytes (get_and_set v) = 2 ∷ put_opt v
head_bytes (compare_and_set e u) = 3 ∷ (put_opt e ++ put_opt u)
head_bytes (contains v) = 4 ∷ put_opt v
head_bytes is_null = 5 ∷ []
head_bytes clear = 6 ∷ []

unfoldable pub encode : Bytes → ArOp → Bytes
encode name op = head_bytes op ++ name

-- The operation of a tag, and the bytes that are left for the name.
unfoldable pub parse : ℕ → Bytes → Option (ArOp × Bytes)
parse tag rest =
    if tag == 0
    then some (get, rest)
    else if tag == 1
    then get_opt rest >>= (λ v. some (set v.0, v.1))
    else if tag == 2
    then get_opt rest >>= (λ v. some (get_and_set v.0, v.1))
    else if tag == 3
    then get_opt rest >>= (λ e. get_opt e.1 >>= (λ u. some (compare_and_set e.0 u.0, u.1)))
    else if tag == 4
    then get_opt rest >>= (λ v. some (contains v.0, v.1))
    else if tag == 5
    then some (is_null, rest)
    else if tag == 6
    then some (clear, rest)
    else none

unfoldable pub decode : Bytes → Option (Bytes × ArOp)
decode [] = none
decode (tag ∷ rest) = do r ← parse tag rest; name ← from_utf8 r.1; some (name, r.0)

pub record AtomicReferenceSm : Type 0 where
  pub values : HashMap Bytes Bytes

unfoldable pub store : AtomicReferenceSm → Bytes → Option Bytes → AtomicReferenceSm
store sm name none = record { values = remove name sm.values }
store sm name (some b) = record { values = insert name b sm.values }

-- `==` on `Option<Vec<u8>>`.
abbrev pub same_value : Option Bytes → Option Bytes → Bool
same_value none none = true
same_value none (some b) = false
same_value (some a) none = false
same_value (some a) (some b) = bytes_beq a b

unfoldable pub run_op : AtomicReferenceSm → Bytes → ArOp → AtomicReferenceSm × CpReply
run_op sm name get = (sm, blob (sm.values name))
run_op sm name (set v) = (store sm name v, nil)
run_op sm name (get_and_set v) = (store sm name v, blob (sm.values name))
run_op sm name (compare_and_set e u) =
    if same_value (sm.values name) e then (store sm name u, bool true) else (sm, bool false)
run_op sm name (contains v) = (sm, bool (same_value (sm.values name) v))
run_op sm name is_null = (sm, bool (same_value (sm.values name) none))
run_op sm name clear = (store sm name none, nil)

unfoldable pub apply : AtomicReferenceSm → Bytes → AtomicReferenceSm × CpReply
apply sm body = elim (decode body) [ none ↦ (sm, nil) | some c ↦ run_op sm c.0 c.1 ]

-- A value whose length is a u32.
abbrev pub Short : Option Bytes → Type 0
Short none = Unit {0}
Short (some b) = length b < 2 ^ 32

abbrev pub InRange : ArOp → Type 0
InRange (set v) = Short v
InRange (get_and_set v) = Short v
InRange (compare_and_set e u) = Short e × Short u
InRange (contains v) = Short v
InRange _ = Unit {0}

get_opt-put_opt :
    (v : Option Bytes) (rest : Bytes) → Short v → get_opt (put_opt v ++ rest) ≡ some (v, rest)
unfolding get_opt put_opt
get_opt-put_opt none rest h = refl
get_opt-put_opt (some b) rest h = rw (get_blob-put_blob b rest h)

-- An encoded reference operation with values shorter than 2^32 bytes and a UTF-8 name is decoded to
-- itself.
pub decode-encode_ref :
    (name : Bytes) (op : ArOp)
    → is_utf8 name ≡ true
    → InRange op
    → decode (encode name op) ≡ some (name, op)
unfolding encode head_bytes parse decode
decode-encode_ref name get u r = rw (from_utf8-is_utf8 name u)
decode-encode_ref name (set v) u r = rw (get_opt-put_opt v name r, from_utf8-is_utf8 name u)
decode-encode_ref name (get_and_set v) u r = rw (get_opt-put_opt v name r, from_utf8-is_utf8 name u)
decode-encode_ref name (compare_and_set e n) u r = rw (
  append_assoc (put_opt e) (put_opt n) name,
  get_opt-put_opt e (put_opt n ++ name) r.0,
  get_opt-put_opt n name r.1,
  from_utf8-is_utf8 name u,
)
decode-encode_ref name (contains v) u r = rw (get_opt-put_opt v name r, from_utf8-is_utf8 name u)
decode-encode_ref name is_null u r = rw (from_utf8-is_utf8 name u)
decode-encode_ref name clear u r = rw (from_utf8-is_utf8 name u)

values-store :
    (sm : AtomicReferenceSm) (name : Bytes) (u : Option Bytes) → (store sm name u).values name ≡ u
unfolding store
values-store sm name none = ground (arith, bytes_beq_iff name name)
values-store sm name (some b) = ground (arith, bytes_beq_iff name name)

-- Two compare-and-sets from the same expected value to others: after one that succeeds, the second
-- fails and leaves its value in place.
pub compare_and_set_once :
    (sm : AtomicReferenceSm) (name : Bytes) (e u v : Option Bytes)
    → same_value (sm.values name) e ≡ true
    → same_value u e ≡ false
    → let one = run_op sm name (compare_and_set e u) in
      let two = run_op one.0 name (compare_and_set e v) in
      (one.1 ≡ bool true) × (two.1 ≡ bool false) × (two.0.values name ≡ u)
unfolding run_op
compare_and_set_once sm name e u v h ne =
    let there : (store sm name u).values name ≡ u = values-store sm name u in
    rw (h, there, ne) (refl, refl, there)
