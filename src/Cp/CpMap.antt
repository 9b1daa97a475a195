-- ===== src/Cp/CpMap.antt =====
-- crates/raft/src/cpmap.rs. A named map is an association list, since `len` counts its entries.
use bonsaigrid.Base.{
  ℕ, suc, ◌+◌, ◌^◌, ◌<◌, ◌≡◌, ◌≢◌, refl, sym, ap, ◌∙◌, inl, inr, Bool, true, false, not, Option,
  none, some, List, [], ◌∷◌, ◌++◌, length, append_assoc, append-nil, ◌==◌, if◌then◌else◌, arith,
  Bool-cases, get_or,
}
use bonsaigrid.Base.Bytes.{Bytes, from_utf8, from_utf8-is_utf8, is_utf8}
use bonsaigrid.Base.Int.{ℤ, pos, i64_half, of_word}
use bonsaigrid.Base.Maps.{HashMap, insert, bytes_eq, bytes_beq}
use bonsaigrid.Cp.Wire.{
  CpReply, long, blob, bool, nil, ◌>>=◌, put_blob, get_blob, get_blob-put_blob,
}
pub mod Entries

pub data MapOp : Type 0 where
  get : Bytes → MapOp
  put : (k v : Bytes) → MapOp
  set : (k v : Bytes) → MapOp
  put_if_absent : (k v : Bytes) → MapOp
  remove : Bytes → MapOp
  remove_if_equals : (k v : Bytes) → MapOp
  replace : (k v : Bytes) → MapOp
  compare_and_set : (k e n : Bytes) → MapOp
  contains_key : Bytes → MapOp
  size : MapOp
  clear : MapOp

unfoldable pub tag_of : MapOp → ℕ
tag_of (get k) = 0
tag_of (put k v) = 1
tag_of (set k v) = 2
tag_of (put_if_absent k v) = 3
tag_of (remove k) = 4
tag_of (remove_if_equals k v) = 5
tag_of (replace k v) = 6
tag_of (compare_and_set k e n) = 7
tag_of (contains_key k) = 8
tag_of size = 9
tag_of clear = 10

-- The blobs that follow the name.
unfoldable pub args_of : MapOp → List Bytes
args_of (get k) = k ∷ []
args_of (put k v) = k ∷ v ∷ []
args_of (set k v) = k ∷ v ∷ []
args_of (put_if_absent k v) = k ∷ v ∷ []
args_of (remove k) = k ∷ []
args_of (remove_if_equals k v) = k ∷ v ∷ []
args_of (replace k v) = k ∷ v ∷ []
args_of (compare_and_set k e n) = k ∷ e ∷ n ∷ []
args_of (contains_key k) = k ∷ []
args_of size = []
args_of clear = []

unfoldable pub put_blobs : List Bytes → Bytes
put_blobs [] = []
put_blobs (b ∷ bs) = put_blob b ++ put_blobs bs

unfoldable pub encode : Bytes → MapOp → Bytes
encode name op = tag_of op ∷ (put_blob name ++ put_blobs (args_of op))

abbrev one : (Bytes → MapOp) → Bytes → Option MapOp
one f rest = get_blob rest >>= (λ k. some (f k.0))

abbrev two : (Bytes → Bytes → MapOp) → Bytes → Option MapOp
two f rest = get_blob rest >>= (λ k. get_blob k.1 >>= (λ v. some (f k.0 v.0)))

abbrev three : (Bytes → Bytes → Bytes → MapOp) → Bytes → Option MapOp
three f rest =
    get_blob rest >>= (λ k. get_blob k.1 >>= (λ e. get_blob e.1 >>= (λ n. some (f k.0 e.0 n.0))))

-- The operation of a tag, read from the bytes behind the name.
unfoldable pub parse : ℕ → Bytes → Option MapOp
parse tag rest =
    if tag == 0
    then one get rest
    else if tag == 1
    then two put rest
    else if tag == 2
    then two set rest
    else if tag == 3
    then two put_if_absent rest
    else if tag == 4
    then one remove rest
    else if tag == 5
    then two remove_if_equals rest
    else if tag == 6
    then two replace rest
    else if tag == 7
    then three compare_and_set rest
    else if tag == 8
    then one contains_key rest
    else if tag == 9
    then some size
    else if tag == 10
    then some clear
    else none

unfoldable pub decode : Bytes → Option (Bytes × MapOp)
decode [] = none
decode (tag ∷ rest) = do
  b ← get_blob rest
  name ← from_utf8 b.0
  op ← parse tag b.1
  some (name, op)

-- `m.get(&k)`, `m.insert(k, v)` and `m.remove(&k)`.
unfoldable pub lookup : List (Bytes × Bytes) → Bytes → Option Bytes
lookup [] k = none
lookup ((j, v) ∷ m) k = if bytes_beq j k then some v else lookup m k

unfoldable pub insert_entry : List (Bytes × Bytes) → Bytes → Bytes → List (Bytes × Bytes)
insert_entry [] k v = (k, v) ∷ []
insert_entry ((j, w) ∷ m) k v = if bytes_beq j k then (j, v) ∷ m else (j, w) ∷ insert_entry m k v

unfoldable pub remove_entry : List (Bytes × Bytes) → Bytes → List (Bytes × Bytes)
remove_entry [] k = []
remove_entry ((j, w) ∷ m) k =
    let rest = remove_entry m k in if bytes_beq j k then m else (j, w) ∷ rest

-- `m.get(&k) == Some(&v)`.
abbrev pub is_value : Option Bytes → Bytes → Bool
is_value none v = false
is_value (some w) v = bytes_beq w v

abbrev pub present : Option Bytes → Bool
present none = false
present (some w) = true

-- One operation on one named map.
unfoldable pub run_op : List (Bytes × Bytes) → MapOp → List (Bytes × Bytes) × CpReply
run_op m (get k) = (m, blob (lookup m k))
run_op m (put k v) = (insert_entry m k v, blob (lookup m k))
run_op m (set k v) = (insert_entry m k v, nil)
run_op m (put_if_absent k v) =
    (if present (lookup m k) then m else insert_entry m k v, blob (lookup m k))
run_op m (remove k) = (remove_entry m k, blob (lookup m k))
run_op m (remove_if_equals k v) =
    if is_value (lookup m k) v then (remove_entry m k, bool true) else (m, bool false)
run_op m (replace k v) = (if present (lookup m k) then insert_entry m k v else m, blob (lookup m k))
run_op m (compare_and_set k e n) =
    if is_value (lookup m k) e then (insert_entry m k n, bool true) else (m, bool false)
run_op m (contains_key k) = (m, bool (present (lookup m k)))
run_op m size = (m, long (of_word i64_half (length m)))
run_op m clear = ([], nil)

pub record CpMapSm : Type 0 where
  pub maps : HashMap Bytes (List (Bytes × Bytes))

abbrev or_default : Option (List (Bytes × Bytes)) → List (Bytes × Bytes)
or_default none = []
or_default (some m) = m

unfoldable pub map_of : CpMapSm → Bytes → List (Bytes × Bytes)
map_of sm name = or_default (sm.maps name)

unfoldable pub apply : CpMapSm → Bytes → CpMapSm × CpReply
apply sm body = elim (decode body) [
  | none ↦ (sm, nil)
  | some c ↦ let r = run_op (map_of sm c.0) c.1 in (record { maps = insert c.0 r.0 sm.maps }, r.1)
]
