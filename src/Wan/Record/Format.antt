-- ===== src/Wan/Record/Format.antt =====
-- A frame of crates/wan/src/record.rs is decoded as it was encoded, and no shorter part of it is.
use bonsaigrid.Base.{
  ℕ, ◌+◌, ◌-◌, ◌^◌, ◌≤◌, ◌<◌, ◌≡◌, refl, sym, ap, ◌∙◌, true, none, some, [], ◌++◌, length,
  length-append, length-take, append-nil, drop-length-append, take, take-take, drop, leb,
  Bool-cases, inl, inr, u64_mod, arith,
}
use bonsaigrid.Base.Bytes.{Bytes, le_bytes, from_le, length-le_bytes, is_utf8, from_utf8-is_utf8}
use bonsaigrid.Base.Blobs.{
  put_blob, get_blob-put_blob, get_last_blob, length-put_blob, take_u64-le_bytes,
}
use bonsaigrid.Frames.{frame, length-frame, framed-Slices, Slices, IsFormat}
use bonsaigrid.Wan.Record.{
  WanOp, put, remove, aux, WanRecord, decoded, need_more, op_bytes, record_body, parse_op, aux_op,
  parse_body, parsed, encode, decode, next_record, past,
}

-- A record whose numbers are u64, whose name is UTF-8 and whose frame has a u32 length.
pub record RecordFits (r : WanRecord) : Type 0 where
  pub stamp : r.stamp < u64_mod
  pub ttl_ms : r.ttl_ms < u64_mod
  pub name : is_utf8 r.map ≡ true
  pub size : length r.map + length r.key + length r.value + 34 < 2 ^ 32

parse_op-op_bytes : (op : WanOp) (rest : Bytes) → parse_op (op_bytes op ++ rest) ≡ some (op, rest)
unfolding parse_op op_bytes aux_op
parse_op-op_bytes put rest = refl
parse_op-op_bytes remove rest = refl
parse_op-op_bytes (aux kind) rest = refl

length-op_bytes : (op : WanOp) → (1 ≤ length (op_bytes op)) × (length (op_bytes op) ≤ 2)
unfolding op_bytes
length-op_bytes put = (omega arith, omega arith)
length-op_bytes remove = (omega arith, omega arith)
length-op_bytes (aux kind) = (omega arith, omega arith)

length-record_body :
    (r : WanRecord)
    → length (record_body r)
      ≡ length (op_bytes r.op) + 28 + length r.map + length r.key + length r.value
unfolding record_body
length-record_body r =
    let blobs = put_blob r.map ++ (put_blob r.key ++ put_blob r.value) in
    omega (
      arith,
      length-append (op_bytes r.op) (le_bytes 8 r.stamp ++ (le_bytes 8 r.ttl_ms ++ blobs)),
      length-append (le_bytes 8 r.stamp) (le_bytes 8 r.ttl_ms ++ blobs),
      length-append (le_bytes 8 r.ttl_ms) blobs,
      length-append (put_blob r.map) (put_blob r.key ++ put_blob r.value),
      length-append (put_blob r.key) (put_blob r.value),
      length-le_bytes 8 r.stamp,
      length-le_bytes 8 r.ttl_ms,
      length-put_blob r.map,
      length-put_blob r.key,
      length-put_blob r.value,
    )

body-size : (r : WanRecord) → RecordFits r → length (record_body r) + 4 < 2 ^ 32
body-size r f = omega (arith, length-record_body r, length-op_bytes r.op, f.size)

body-least : (r : WanRecord) → 17 ≤ length (record_body r)
body-least r = omega (arith, length-record_body r, length-op_bytes r.op)

parse_body-record_body : (r : WanRecord) → RecordFits r → parse_body (record_body r) ≡ some r
unfolding parse_body record_body
parse_body-record_body r f =
    let blobs = put_blob r.map ++ (put_blob r.key ++ put_blob r.value) in
    rw (
      parse_op-op_bytes r.op (le_bytes 8 r.stamp ++ (le_bytes 8 r.ttl_ms ++ blobs)),
      take_u64-le_bytes r.stamp (le_bytes 8 r.ttl_ms ++ blobs) f.stamp,
      take_u64-le_bytes r.ttl_ms blobs f.ttl_ms,
      get_blob-put_blob r.map (put_blob r.key ++ put_blob r.value) (omega (arith, f.size)),
      get_blob-put_blob r.key (put_blob r.value) (omega (arith, f.size)),
      get_last_blob r.value (omega (arith, f.size)),
      from_utf8-is_utf8 r.map f.name,
    )

module _ (crc : Bytes → ℕ) where
  decode-Slices :
      (body rest buf : Bytes)
      → Slices (length body + 4) (crc body) body rest buf
      → 17 ≤ length body
      → decode crc buf ≡ parsed (8 + length body) (parse_body body)
  unfolding decode
  decode-Slices body rest buf s h =
      let len : from_le (take 4 buf) - 4 ≡ length body = omega (arith, s.first) in
      let end : 4 + from_le (take 4 buf) ≡ 8 + length body = omega (arith, s.first) in
      let there : take (from_le (take 4 buf) - 4) (drop 8 buf) ≡ body =
        ap (λ k. take k (drop 8 buf)) len ∙ s.middle in
      ground (arith, s.size, s.first, s.second, there, end)

  length-encode : (r : WanRecord) → length (encode crc r) ≡ 8 + length (record_body r)
  unfolding encode
  length-encode r = length-frame crc (record_body r)

  pub encode_least : (r : WanRecord) → 25 ≤ length (encode crc r)
  encode_least r = omega (arith, length-encode r, body-least r)

  -- A record that fits is decoded from its frame, whatever follows it, with the frame's length as
  -- what was consumed, for a checksum that is a u32.
  pub decode-encode_record :
      (r : WanRecord) (rest : Bytes)
      → ((body : Bytes) → crc body < 2 ^ 32)
      → RecordFits r
      → decode crc (encode crc r ++ rest) ≡ decoded r (length (encode crc r))
  unfolding encode parsed
  decode-encode_record r rest small f =
      let body = record_body r in
      decode-Slices body rest (frame crc body ++ rest)
        (framed-Slices crc body rest (body-size r f) (small body)) (body-least r)
      ∙ ap (parsed (8 + length body)) (parse_body-record_body r f)
      ∙ ap (decoded r) (sym (length-frame crc body))

  next_record-encode :
      (r : WanRecord) (rest : Bytes)
      → ((body : Bytes) → crc body < 2 ^ 32)
      → RecordFits r
      → next_record crc (encode crc r ++ rest) ≡ some (r, rest)
  unfolding next_record past
  next_record-encode r rest small f =
      ap (past (encode crc r ++ rest)) (decode-encode_record r rest small f)
      ∙ ap (λ bs. some (r, bs)) (drop-length-append (encode crc r) rest)

  -- The frames of the records are a format, with a checksum that is a u32.
  pub encode-IsFormat :
      ((body : Bytes) → crc body < 2 ^ 32) → IsFormat (encode crc) (next_record crc) RecordFits
  encode-IsFormat small = record {
    reads = λ r rest f. next_record-encode r rest small f;
    takes = λ r. omega (arith, length-encode r);
  }

  first_length :
      (r : WanRecord)
      → crc (record_body r) < 2 ^ 32
      → RecordFits r
      → from_le (take 4 (encode crc r)) ≡ length (record_body r) + 4
  unfolding encode
  first_length r small f =
      let body = record_body r in
      ap (λ bs. from_le (take 4 bs)) (sym (append-nil (frame crc body)))
      ∙ (framed-Slices crc body [] (body-size r f) small).first

  -- No proper prefix of a frame is decoded: the decoder asks for more bytes, for a record that fits
  -- and a checksum that is a u32.
  pub decode-prefix :
      (r : WanRecord) (n : ℕ)
      → ((body : Bytes) → crc body < 2 ^ 32)
      → RecordFits r
      → n < length (encode crc r)
      → decode crc (take n (encode crc r)) ≡ need_more
  unfolding decode
  decode-prefix r n small f h =
      let bs = encode crc r in
      let size : length (take n bs) ≡ n = omega (arith, length-take n bs) in
      elim (Bool-cases (leb 4 n)) [
        | inl enough ↦
            let first : from_le (take 4 (take n bs)) ≡ length (record_body r) + 4 =
              ap from_le (take-take 4 n bs (ground (arith, enough)))
              ∙ first_length r (small (record_body r)) f in
            ground (arith, size, first, length-encode r, body-least r)
        | inr few ↦ ground (arith, size, few)
      ]

  -- The reader of the log stops at an incomplete frame.
  pub next_record-prefix :
      (r : WanRecord) (n : ℕ)
      → ((body : Bytes) → crc body < 2 ^ 32)
      → RecordFits r
      → n < length (encode crc r)
      → next_record crc (take n (encode crc r)) ≡ none
  unfolding next_record past
  next_record-prefix r n small f h = ap (past (take n (encode crc r))) (decode-prefix r n small f h)
