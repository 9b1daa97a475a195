-- ===== src/Wan/Wire.antt =====
-- crates/wan/src/wire.rs: the messages between two clusters.
use bonsaigrid.Base.{
  ℕ, zero, suc, ◌%◌, ◌^◌, Option, none, some, List, [], ◌∷◌, ◌++◌, length, ◌==◌, if◌then◌else◌,
}
use bonsaigrid.Base.Bytes.{Bytes, le_bytes, from_le, split_at}
use bonsaigrid.Base.Blobs.{◌>>=◌, take_u64}
use bonsaigrid.Frames.{write_all}
use bonsaigrid.Wan.Record.{WanRecord, encode, next_record}
pub mod RoundTrip

pub data WanMsg : Type 0 where
  batch : (up_to_seq : ℕ) (records : List WanRecord) → WanMsg
  ack : (up_to_seq : ℕ) → WanMsg

unfoldable pub decode_ack : Bytes → Option WanMsg
decode_ack bs = do n ← take_u64 bs; some (ack n.0)

module _ (crc : Bytes → ℕ) where
  unfoldable pub encode_msg : WanMsg → Bytes
  encode_msg (batch up_to_seq records) =
      0
      ∷ (le_bytes 8 up_to_seq
          ++ (le_bytes 4 (length records % 2 ^ 32) ++ write_all (encode crc) records))
  encode_msg (ack up_to_seq) = 1 ∷ le_bytes 8 up_to_seq

  -- The loop over the `n` records of a batch.
  unfoldable pub get_records : ℕ → Bytes → Option (List WanRecord)
  get_records zero bs = some []
  get_records (suc n) bs = do r ← next_record crc bs; rs ← get_records n r.1; some (r.0 ∷ rs)

  unfoldable pub decode_batch : Bytes → Option WanMsg
  decode_batch bs = do
    up_to ← take_u64 bs
    n ← split_at 4 up_to.1
    records ← get_records (from_le n.0) n.1
    some (batch up_to.0 records)

  unfoldable pub decode_msg : Bytes → Option WanMsg
  decode_msg [] = none
  decode_msg (tag ∷ bs) =
      if tag == 0 then decode_batch bs else if tag == 1 then decode_ack bs else none
