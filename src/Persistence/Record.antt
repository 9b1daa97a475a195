-- ===== src/Persistence/Record.antt =====
-- crates/persistence/src/record.rs and wal.rs: the frames of the write-ahead log, and the reader of
-- a segment. The checksum of the crate crc32fast is the parameter `crc`.
use bonsaigrid.Base.{
  ℕ, suc, ◌+◌, ◌%◌, ◌^◌, Option, none, some, List, [], ◌∷◌, ◌++◌, length, take, drop, ltb, ◌==◌,
  if◌then◌else◌,
}
use bonsaigrid.Base.Bytes.{Bytes, le_bytes, from_le, from_utf8}
use bonsaigrid.Base.Blobs.{◌>>=◌, put_blob, get_blob, take_u64}
use bonsaigrid.Frames.{u32_bytes, read_all}
use bonsaigrid.Persistence.{StoreOp, put_merge, remove, install_aux}
pub mod Format

pub data RecordType : Type 0 where
  map_put : RecordType
  map_remove : RecordType
  aux_state : RecordType

unfoldable pub tag_of : RecordType → ℕ
tag_of map_put = 1
tag_of map_remove = 2
tag_of aux_state = 3

unfoldable pub from_u16 : ℕ → Option RecordType
from_u16 v =
    if v == 1
    then some map_put
    else if v == 2
    then some map_remove
    else if v == 3
    then some aux_state
    else none

pub data Decoded : Type 0 where
  decoded : (rtype : RecordType) (payload : Bytes) (consumed : ℕ) → Decoded
  need_more : Decoded
  torn : Decoded

-- The calls of the store's sink, which are encoded one by one.
pub data Mutation : Type 0 where
  puts : (stamp ttl_ms : ℕ) (map key value : Bytes) → Mutation
  removes : (stamp : ℕ) (map key : Bytes) → Mutation
  states : (kind : ℕ) (name state : Bytes) → Mutation

unfoldable pub type_of : Mutation → RecordType
type_of (puts stamp ttl_ms map key value) = map_put
type_of (removes stamp map key) = map_remove
type_of (states kind name state) = aux_state

-- The payloads of `encode_map_put`, `encode_map_remove` and `encode_aux_state`.
unfoldable pub payload_of : Mutation → Bytes
payload_of (puts stamp ttl_ms map key value) =
    le_bytes 8 stamp ++ (le_bytes 8 ttl_ms ++ (put_blob map ++ (put_blob key ++ put_blob value)))
payload_of (removes stamp map key) = le_bytes 8 stamp ++ (put_blob map ++ put_blob key)
payload_of (states kind name state) = kind ∷ (put_blob name ++ put_blob state)

-- `parse_map_put`, `parse_map_remove` and `parse_aux_state`, with the call of the store that
-- `recover` makes of what they find.
unfoldable pub parse_map_put : Bytes → Option StoreOp
parse_map_put payload = do
  stamp ← take_u64 payload
  ttl_ms ← take_u64 stamp.1
  map ← get_blob ttl_ms.1
  key ← get_blob map.1
  value ← get_blob key.1
  name ← from_utf8 map.0
  some (put_merge name key.0 value.0 ttl_ms.0 stamp.0)

unfoldable pub parse_map_remove : Bytes → Option StoreOp
parse_map_remove payload = do
  stamp ← take_u64 payload
  map ← get_blob stamp.1
  key ← get_blob map.1
  name ← from_utf8 map.0
  some (remove name key.0)

unfoldable pub parse_aux_state : Bytes → Option StoreOp
parse_aux_state [] = none
parse_aux_state (kind ∷ rest) = do
  name ← get_blob rest
  state ← get_blob name.1
  text ← from_utf8 name.0
  some (install_aux kind text state.0)

unfoldable pub parse : RecordType → Bytes → Option StoreOp
parse map_put payload = parse_map_put payload
parse map_remove payload = parse_map_remove payload
parse aux_state payload = parse_aux_state payload

unfoldable pub typed : ℕ → Bytes → Option RecordType → Decoded
typed frame_len payload none = torn
typed frame_len payload (some rtype) = decoded rtype payload frame_len

unfoldable pub past : Bytes → Decoded → Option ((RecordType × Bytes) × Bytes)
past bs (decoded rtype payload consumed) = some ((rtype, payload), drop consumed bs)
past bs need_more = none
past bs torn = none

unfoldable pub record_body : RecordType → Bytes → Bytes
record_body rtype payload = le_bytes 2 (tag_of rtype) ++ payload

module _ (crc : Bytes → ℕ) where
  unfoldable pub frame : RecordType → Bytes → Bytes
  frame rtype payload =
      let body = record_body rtype payload in
      u32_bytes (length body % 2 ^ 32) ++ (u32_bytes (crc body) ++ body)

  unfoldable pub encode : Mutation → Bytes
  encode m = frame (type_of m) (payload_of m)

  unfoldable pub decode_record : Bytes → Decoded
  decode_record bytes =
      let body_len = from_le (take 4 bytes) in
      let body = take body_len (drop 8 bytes) in
      if ltb (length bytes) 8
      then need_more
      else if ltb body_len 2
      then torn
      else if ltb (length bytes) (8 + body_len)
      then need_more
      else if crc body == from_le (take 4 (drop 4 bytes))
      then typed (8 + body_len) (drop 2 body) (from_u16 (from_le (take 2 body)))
      else torn

  -- One round of the loop of `read_segment`, and its records in order.
  unfoldable pub next_record : Bytes → Option ((RecordType × Bytes) × Bytes)
  unfolding past
  next_record bs = past bs (decode_record bs)

  unfoldable pub read_segment : Bytes → List (RecordType × Bytes)
  read_segment bytes = read_all next_record (suc (length bytes)) bytes
