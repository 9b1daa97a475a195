-- ===== src/Base/Blobs.antt =====
-- What the byte formats share: `?` on options, and the length-prefixed byte strings that
-- `put_blob` writes and `get_blob` reads in crates/raft/src/cpmap.rs, crates/raft/src/atomicref.rs
-- and crates/wan/src/record.rs.
use bonsaigrid.Base.{
  ℕ, ◌+◌, ◌%◌, ◌^◌, ◌<◌, ◌≡◌, sym, ap, ◌∙◌, Option, none, some, ◌++◌, length, length-append,
  append_assoc, append-nil, [], u64_mod, arith,
}
use bonsaigrid.Base.Bytes.{
  split_at, split_at-append, Bytes, le_bytes, from_le, from_le-le_bytes, length-le_bytes,
}

infixl 5 ◌>>=◌
abbrev pub ◌>>=◌ {ℓ κ} : {A : Type ℓ} {B : Type κ} → Option A → (A → Option B) → Option B
none >>= f = none
some a >>= f = f a

-- `[u32 length][bytes]` and its reader, which leaves the bytes behind
-- it. The length is cut to a u32.
unfoldable pub put_blob : Bytes → Bytes
put_blob b = le_bytes 4 (length b % 2 ^ 32) ++ b

unfoldable pub get_blob : Bytes → Option (Bytes × Bytes)
get_blob bs = do n ← split_at 4 bs; split_at (from_le n.0) n.1

pub split_at-le_bytes :
    (k w : ℕ) (rest : Bytes) → split_at k (le_bytes k w ++ rest) ≡ some (le_bytes k w, rest)
split_at-le_bytes k w rest =
    ap (λ j. split_at j (le_bytes k w ++ rest)) (sym (length-le_bytes k w))
    ∙ split_at-append (le_bytes k w) rest

pub get_blob-put_blob :
    (b rest : Bytes) → length b < 2 ^ 32 → get_blob (put_blob b ++ rest) ≡ some (b, rest)
unfolding get_blob put_blob
get_blob-put_blob b rest h =
    let n = length b % 2 ^ 32 in
    let same : from_le (le_bytes 4 n) ≡ length b =
      omega (arith, from_le-le_bytes 4 n (omega arith)) in
    ap get_blob (append_assoc (le_bytes 4 n) b rest)
    ∙ ap (λ o. o >>= (λ (r : Bytes × Bytes). split_at (from_le r.0) r.1))
        (split_at-le_bytes 4 n (b ++ rest))
    ∙ ap (λ k. split_at k (b ++ rest)) same
    ∙ split_at-append b rest

pub get_last_blob : (b : Bytes) → length b < 2 ^ 32 → get_blob (put_blob b) ≡ some (b, [])
get_last_blob b h = ap get_blob (sym (append-nil (put_blob b))) ∙ get_blob-put_blob b [] h

pub length-put_blob : (b : Bytes) → length (put_blob b) ≡ 4 + length b
unfolding put_blob
length-put_blob b =
    let n = length b % 2 ^ 32 in omega (arith, length-append (le_bytes 4 n) b, length-le_bytes 4 n)

-- `u64::from_le_bytes(b[p..p + 8])` with the bytes behind it, where there are eight.
unfoldable pub take_u64 : Bytes → Option (ℕ × Bytes)
take_u64 bs = do n ← split_at 8 bs; some (from_le n.0, n.1)

pub take_u64-le_bytes :
    (v : ℕ) (rest : Bytes) → v < u64_mod → take_u64 (le_bytes 8 v ++ rest) ≡ some (v, rest)
unfolding take_u64
take_u64-le_bytes v rest h =
    ap (λ o. o >>= (λ (n : Bytes × Bytes). some (from_le n.0, n.1))) (split_at-le_bytes 8 v rest)
    ∙ ap (λ w. some (w, rest)) (from_le-le_bytes 8 v h)
