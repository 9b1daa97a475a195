-- ===== src/Wan/Wire/RoundTrip.antt =====
-- A message of crates/wan/src/wire.rs is decoded as it was encoded.
use bonsaigrid.Base.{
  ℕ, ◌%◌, ◌^◌, ◌<◌, ◌≡◌, refl, sym, ap, ◌∙◌, some, List, [], ◌∷◌, ◌++◌, length, append-nil, All,
  u64_mod, arith,
}
use bonsaigrid.Base.Bytes.{Bytes, le_bytes, from_le, from_le-le_bytes}
use bonsaigrid.Base.Blobs.{◌>>=◌, take_u64, take_u64-le_bytes, split_at-le_bytes}
use bonsaigrid.Frames.{write_all}
use bonsaigrid.Wan.Record.{WanRecord, encode}
use bonsaigrid.Wan.Record.Format.{RecordFits, encode-IsFormat}
use bonsaigrid.Wan.Wire.{
  WanMsg, batch, ack, decode_ack, encode_msg, get_records, decode_batch, decode_msg,
}

abbrev pub MsgFits : WanMsg → Type 0
MsgFits (batch up_to_seq records) =
    (up_to_seq < u64_mod) × (length records < 2 ^ 32) × All RecordFits records
MsgFits (ack up_to_seq) = up_to_seq < u64_mod

module _ (crc : Bytes → ℕ) (small : (body : Bytes) → crc body < 2 ^ 32) where
  get_records-write_all :
      (rs : List WanRecord)
      → All RecordFits rs
      → get_records crc (length rs) (write_all (encode crc) rs) ≡ some rs
  unfolding get_records write_all
  get_records-write_all [] f = refl
  get_records-write_all (r ∷ rs) f =
      let first = (encode-IsFormat crc small).reads r (write_all (encode crc) rs) f.0 in
      rw (first, get_records-write_all rs f.1)

  -- A message between clusters whose numbers and records fit their fields is decoded as it was
  -- encoded, for a checksum that is a u32.
  pub decode_msg-encode_wan : (m : WanMsg) → MsgFits m → decode_msg crc (encode_msg crc m) ≡ some m
  unfolding decode_msg encode_msg decode_batch decode_ack
  decode_msg-encode_wan (batch up_to records) f =
      let frames = write_all (encode crc) records in
      let n = length records % 2 ^ 32 in
      let count : from_le (le_bytes 4 n) ≡ length records =
        omega (arith, f.1, from_le-le_bytes 4 n (omega arith)) in
      rw (
        take_u64-le_bytes up_to (le_bytes 4 n ++ frames) f.0,
        split_at-le_bytes 4 n frames,
        count,
        get_records-write_all records f.2,
      )
  decode_msg-encode_wan (ack up_to) f =
      ap (λ bs. do n ← take_u64 bs; some (ack n.0)) (sym (append-nil (le_bytes 8 up_to)))
      ∙ rw (take_u64-le_bytes up_to [] f)
