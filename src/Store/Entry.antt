-- ===== src/Store/Entry.antt =====
-- The records of the table in crates/store/src/lib.rs, with the two hash values that mark a slot as
-- empty or as a tombstone, and the hash of a key.
use bonsaigrid.Base.{
  ℕ, ◌+◌, ◌^◌, ◌%◌, bit_xor, Bool, List, [], ◌∷◌, ltb, ◌==◌, get_or, mul64, if◌then◌else◌,
}
use bonsaigrid.Base.Bytes.{Bytes, le_bytes}

-- Where the slab has stored the bytes of an entry.
pub record Handle : Type 0 where
  pub class : ℕ
  pub slot : ℕ

pub record Entry : Type 0 where
  pub hash : ℕ
  pub map_id : ℕ
  pub handle : Handle
  pub key_len : ℕ
  pub val_len : ℕ
  pub expire_at : ℕ
  pub stamp : ℕ
  pub last_access_ms : ℕ
  pub hits : ℕ

-- `Entry::EMPTY`; a tombstone has hash 1.
abbrev pub no_entry : Entry
no_entry = record {
  hash = 0;
  map_id = 0;
  handle = record { class = 0; slot = 0 };
  key_len = 0;
  val_len = 0;
  expire_at = 0;
  stamp = 0;
  last_access_ms = 0;
  hits = 0;
}

abbrev pub is_empty : Entry → Bool
is_empty e = e.hash == 0

abbrev pub is_tombstone : Entry → Bool
is_tombstone e = e.hash == 1

abbrev pub occupied : Entry → Bool
occupied e = ltb 1 e.hash

-- `table[i]`.
abbrev pub at : List Entry → ℕ → Entry
at table i = get_or table i no_entry

unfoldable pub fold_hash : ℕ → Bytes → ℕ
fold_hash h [] = h
fold_hash h (b ∷ bs) = fold_hash (mul64 (bit_xor h b) 0x100000001b3) bs

-- `h | (1 << 63)`.
unfoldable pub set_msb : ℕ → ℕ
set_msb h = if ltb h (2 ^ 63) then h + 2 ^ 63 else h

unfoldable pub hash : ℕ → Bytes → ℕ
hash map_id key = set_msb (fold_hash (fold_hash 0xcbf29ce484222325 (le_bytes 4 map_id)) key)

unfoldable pub shard_of : Bytes → Bytes → ℕ → ℕ
shard_of map key n = fold_hash (fold_hash 0xcbf29ce484222325 map) key % n
