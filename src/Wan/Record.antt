-- ===== src/Wan/Record.antt =====
-- crates/wan/src/record.rs: `WanRecord` and its frame. The checksum of the crate crc32fast is the
-- parameter `crc`, and `off` positions are the bytes that are left.
use bonsaigrid.Base.{
  ℕ, suc, ◌+◌, ◌-◌, Option, none, some, List, [], ◌∷◌, ◌++◌, length, take, drop, ltb, ◌==◌,
  if◌then◌else◌,
}
use bonsaigrid.Base.Bytes.{Bytes, le_bytes, from_le, from_utf8}
use bonsaigrid.Base.Blobs.{◌>>=◌, put_blob, get_blob, take_u64}
use bonsaigrid.Frames.{frame, read_all}
pub mod Format

pub data WanOp : Type 0 where
  put : WanOp
  remove : WanOp
  aux : (kind : ℕ) → WanOp

pub record WanRecord : Type 0 where
  pub op : WanOp
  pub stamp : ℕ
  pub ttl_ms : ℕ
  pub map : Bytes
  pub key : Bytes
  pub value : Bytes

pub data Decoded : Type 0 where
  decoded : (rec : WanRecord) (consumed : ℕ) → Decoded
  need_more : Decoded
  torn : Decoded

unfoldable pub op_bytes : WanOp → Bytes
op_bytes put = 1 ∷ []
op_bytes remove = 2 ∷ []
op_bytes (aux kind) = 3 ∷ kind ∷ []

unfoldable pub record_body : WanRecord → Bytes
record_body r =
    op_bytes r.op
    ++ (le_bytes 8 r.stamp
        ++ (le_bytes 8 r.ttl_ms ++ (put_blob r.map ++ (put_blob r.key ++ put_blob r.value))))

unfoldable pub aux_op : Bytes → Option (WanOp × Bytes)
aux_op [] = none
aux_op (kind ∷ bs) = some (aux kind, bs)

-- The operation, and the bytes from `base` on.
unfoldable pub parse_op : Bytes → Option (WanOp × Bytes)
unfolding aux_op
parse_op [] = none
parse_op (tag ∷ bs) =
    if tag == 1
    then some (put, bs)
    else if tag == 2
    then some (remove, bs)
    else if tag == 3
    then aux_op bs
    else none

-- `decode` of a body whose checksum is right: `none` is `Torn`.
unfoldable pub parse_body : Bytes → Option WanRecord
parse_body body = do
  o ← parse_op body
  stamp ← take_u64 o.1
  ttl_ms ← take_u64 stamp.1
  map ← get_blob ttl_ms.1
  key ← get_blob map.1
  value ← get_blob key.1
  name ← from_utf8 map.0
  some (record {
    op = o.0;
    stamp = stamp.0;
    ttl_ms = ttl_ms.0;
    map = name;
    key = key.0;
    value = value.0;
  })

unfoldable pub parsed : ℕ → Option WanRecord → Decoded
parsed end none = torn
parsed end (some r) = decoded r end

-- The record that was decoded, and the bytes behind it.
unfoldable pub past : Bytes → Decoded → Option (WanRecord × Bytes)
past bs (decoded r consumed) = some (r, drop consumed bs)
past bs need_more = none
past bs torn = none

module _ (crc : Bytes → ℕ) where
  unfoldable pub encode : WanRecord → Bytes
  encode r = frame crc (record_body r)

  unfoldable pub decode : Bytes → Decoded
  decode bytes =
      let len = from_le (take 4 bytes) in
      let body = take (len - 4) (drop 8 bytes) in
      if ltb (length bytes) 8
      then need_more
      else if ltb len 21
      then torn
      else if ltb (length bytes) (4 + len)
      then need_more
      else if crc body == from_le (take 4 (drop 4 bytes))
      then parsed (4 + len) (parse_body body)
      else torn

  -- One round of the loop of `WanQueue::open` and of `decode_msg`.
  unfoldable pub next_record : Bytes → Option (WanRecord × Bytes)
  unfolding past
  next_record bs = past bs (decode bs)

  -- The loop of `WanQueue::open`.
  unfoldable pub read_records : Bytes → List WanRecord
  read_records buf = read_all next_record (suc (length buf)) buf
