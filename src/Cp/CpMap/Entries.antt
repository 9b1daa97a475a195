-- ===== src/Cp/CpMap/Entries.antt =====
-- The codec and the entries of crates/raft/src/cpmap.rs.
use bonsaigrid.Base.{
  ◌^◌, ◌<◌, ◌≡◌, refl, sym, ap, ◌∙◌, inl, inr, true, none, some, List, [], ◌∷◌, ◌++◌, length,
  if◌then◌else◌, arith, Bool-cases, All,
}
use bonsaigrid.Base.Bytes.{Bytes, from_utf8-is_utf8, is_utf8}
use bonsaigrid.Base.Maps.{bytes_beq, bytes_beq_iff}
use bonsaigrid.Cp.Wire.{put_blob, get_blob-put_blob}
use bonsaigrid.Cp.CpMap.{
  MapOp, get, put, set, put_if_absent, remove, remove_if_equals, replace, compare_and_set,
  contains_key, size, clear, tag_of, args_of, put_blobs, encode, parse, decode, lookup,
  insert_entry, remove_entry,
}

-- Bytes whose length is a u32.
abbrev pub Short : Bytes → Type 0
Short b = length b < 2 ^ 32

parse-args_of :
    (op : MapOp) → All Short (args_of op) → parse (tag_of op) (put_blobs (args_of op)) ≡ some op
unfolding parse tag_of args_of put_blobs
parse-args_of (get k) r = rw (get_blob-put_blob k [] r.0)
parse-args_of (put k v) r =
    rw (get_blob-put_blob k (put_blob v ++ []) r.0, get_blob-put_blob v [] r.1.0)
parse-args_of (set k v) r =
    rw (get_blob-put_blob k (put_blob v ++ []) r.0, get_blob-put_blob v [] r.1.0)
parse-args_of (put_if_absent k v) r =
    rw (get_blob-put_blob k (put_blob v ++ []) r.0, get_blob-put_blob v [] r.1.0)
parse-args_of (remove k) r = rw (get_blob-put_blob k [] r.0)
parse-args_of (remove_if_equals k v) r =
    rw (get_blob-put_blob k (put_blob v ++ []) r.0, get_blob-put_blob v [] r.1.0)
parse-args_of (replace k v) r =
    rw (get_blob-put_blob k (put_blob v ++ []) r.0, get_blob-put_blob v [] r.1.0)
parse-args_of (compare_and_set k e n) r = rw (
  get_blob-put_blob k (put_blob e ++ (put_blob n ++ [])) r.0,
  get_blob-put_blob e (put_blob n ++ []) r.1.0,
  get_blob-put_blob n [] r.1.1.0,
)
parse-args_of (contains_key k) r = rw (get_blob-put_blob k [] r.0)
parse-args_of size r = refl
parse-args_of clear r = refl

-- An encoded map operation is decoded to itself, for a UTF-8 name, and with the name, the keys and
-- the values shorter than 2^32 bytes.
pub decode-encode_map :
    (name : Bytes) (op : MapOp)
    → is_utf8 name ≡ true
    → Short name
    → All Short (args_of op)
    → decode (encode name op) ≡ some (name, op)
unfolding encode decode
decode-encode_map name op u s r = rw (
  get_blob-put_blob name (put_blobs (args_of op)) s,
  from_utf8-is_utf8 name u,
  parse-args_of op r,
)

lookup-insert_entry :
    (m : List (Bytes × Bytes)) (k v j : Bytes)
    → lookup (insert_entry m k v) j ≡ (if bytes_beq k j then some v else lookup m j)
unfolding lookup insert_entry
lookup-insert_entry [] k v j = ground arith
lookup-insert_entry ((i, w) ∷ m) k v j =
    ground
      (arith, lookup-insert_entry m k v j, bytes_beq_iff i k, bytes_beq_iff i j, bytes_beq_iff k j)

-- No key has two entries.
pub Distinct : List (Bytes × Bytes) → Type 0
Distinct [] = Unit {0}
Distinct ((k, v) ∷ m) = (lookup m k ≡ none) × Distinct m

lookup-remove_entry :
    (m : List (Bytes × Bytes)) (k j : Bytes)
    → Distinct m
    → lookup (remove_entry m k) j ≡ (if bytes_beq k j then none else lookup m j)
unfolding lookup remove_entry Distinct
lookup-remove_entry [] k j d = ground arith
lookup-remove_entry ((i, w) ∷ m) k j (a, d) = elim (Bool-cases (bytes_beq i j)) [
  | inl e ↦
      let same : lookup m j ≡ none =
        ap (lookup m) (sym (ground (arith, bytes_beq_iff i j, e))) ∙ a in
      ground (
        arith,
        e,
        same,
        lookup-remove_entry m k j d,
        bytes_beq_iff i k,
        bytes_beq_iff i j,
        bytes_beq_iff k j,
      )
  | inr e ↦ ground (
    arith,
    e,
    lookup-remove_entry m k j d,
    bytes_beq_iff i k,
    bytes_beq_iff i j,
    bytes_beq_iff k j,
  )
]

insert_entry-Distinct :
    (m : List (Bytes × Bytes)) (k v : Bytes) → Distinct m → Distinct (insert_entry m k v)
unfolding Distinct insert_entry
insert_entry-Distinct [] k v d = (unfold lookup in refl, tt)
insert_entry-Distinct ((i, w) ∷ m) k v (a, d) = elim (Bool-cases (bytes_beq i k)) [
  | inl e ↦ rw e (a, d)
  | inr e ↦ rw e (
    ground (arith, lookup-insert_entry m k v i, a, e, bytes_beq_iff i k, bytes_beq_iff k i),
    insert_entry-Distinct m k v d,
  )
]

remove_entry-Distinct :
    (m : List (Bytes × Bytes)) (k : Bytes) → Distinct m → Distinct (remove_entry m k)
unfolding Distinct remove_entry
remove_entry-Distinct [] k d = tt
remove_entry-Distinct ((i, w) ∷ m) k (a, d) = elim (Bool-cases (bytes_beq i k)) [
  | inl e ↦ rw e d
  | inr e ↦ rw e (
    ground (arith, lookup-remove_entry m k i d, a, e, bytes_beq_iff i k, bytes_beq_iff k i),
    remove_entry-Distinct m k d,
  )
]
