-- ===== src/Persistence/Record/Format.antt =====
-- The frames of crates/persistence/src/record.rs are read back as they were written.
use bonsaigrid.Base.{
  ℕ, ◌+◌, ◌%◌, ◌^◌, ◌≤◌, ◌<◌, ◌≡◌, refl, sym, ap, ◌∙◌, true, Bool-cases, inl, inr, none, some, [],
  ◌++◌, length, length-append, length-take, append-nil, append_assoc, take, take-take, drop,
  drop-length-append, leb, u64_mod, arith,
}
use bonsaigrid.Base.Bytes.{
  Bytes, le_bytes, from_le, length-le_bytes, is_utf8, from_utf8-is_utf8, take-le_bytes,
  drop-le_bytes,
}
use bonsaigrid.Base.Blobs.{put_blob, get_blob-put_blob, get_last_blob, take_u64-le_bytes}
use bonsaigrid.Frames.{u32_bytes, frame-Slices, Slices, IsFormat}
use bonsaigrid.Persistence.{StoreOp, put_merge, remove, install_aux}
use bonsaigrid.Persistence.Record.{
  RecordType, map_put, map_remove, aux_state, tag_of, from_u16, decoded, need_more, Mutation, puts,
  removes, states, type_of, payload_of, parse_map_put, parse_map_remove, parse_aux_state, parse,
  typed, past, record_body, frame, decode_record, next_record,
}

-- A mutation whose numbers are u64, whose name is UTF-8 and whose byte strings have u32 lengths.
abbrev pub MutationFits : Mutation → Type 0
MutationFits (puts stamp ttl_ms name key value) =
    (stamp < u64_mod)
    × (ttl_ms < u64_mod)
    × (is_utf8 name ≡ true)
    × (length name < 2 ^ 32)
    × (length key < 2 ^ 32)
    × (length value < 2 ^ 32)
MutationFits (removes stamp name key) =
    (stamp < u64_mod) × (is_utf8 name ≡ true) × (length name < 2 ^ 32) × (length key < 2 ^ 32)
MutationFits (states kind name state) =
    (is_utf8 name ≡ true) × (length name < 2 ^ 32) × (length state < 2 ^ 32)

-- What recovery does of a mutation.
abbrev pub effect : Mutation → StoreOp
effect (puts stamp ttl_ms name key value) = put_merge name key value ttl_ms stamp
effect (removes stamp name key) = remove name key
effect (states kind name state) = install_aux kind name state

-- A mutation is parsed from its payload.
pub parse-payload_of :
    (m : Mutation) → MutationFits m → parse (type_of m) (payload_of m) ≡ some (effect m)
unfolding parse type_of payload_of parse_map_put parse_map_remove parse_aux_state
parse-payload_of (puts stamp ttl_ms name key value) f =
    let blobs = put_blob name ++ (put_blob key ++ put_blob value) in
    rw (
      take_u64-le_bytes stamp (le_bytes 8 ttl_ms ++ blobs) f.0,
      take_u64-le_bytes ttl_ms blobs f.1,
      get_blob-put_blob name (put_blob key ++ put_blob value) f.3,
      get_blob-put_blob key (put_blob value) f.4,
      get_last_blob value f.5,
      from_utf8-is_utf8 name f.2,
    )
parse-payload_of (removes stamp name key) f = rw (
  take_u64-le_bytes stamp (put_blob name ++ put_blob key) f.0,
  get_blob-put_blob name (put_blob key) f.2,
  get_last_blob key f.3,
  from_utf8-is_utf8 name f.1,
)
parse-payload_of (states kind name state) f = rw (
  get_blob-put_blob name (put_blob state) f.1,
  get_last_blob state f.2,
  from_utf8-is_utf8 name f.0,
)

from_u16-tag_of : (t : RecordType) → from_u16 (from_le (le_bytes 2 (tag_of t))) ≡ some t
unfolding from_u16 tag_of le_bytes from_le
from_u16-tag_of map_put = refl
from_u16-tag_of map_remove = refl
from_u16-tag_of aux_state = refl

-- A payload whose frame has a u32 length.
abbrev pub PayloadFits : RecordType × Bytes → Type 0
PayloadFits r = length r.1 + 2 < 2 ^ 32

module _ (crc : Bytes → ℕ) where
  length-record_body :
      (t : RecordType) (payload : Bytes) → length (record_body t payload) ≡ 2 + length payload
  unfolding record_body
  length-record_body t payload =
      omega (arith, length-append (le_bytes 2 (tag_of t)) payload, length-le_bytes 2 (tag_of t))

  pub length-frame_record :
      (t : RecordType) (payload : Bytes) → length (frame crc t payload) ≡ 10 + length payload
  unfolding frame
  length-frame_record t payload =
      let body = record_body t payload in
      let n = length body % 2 ^ 32 in
      omega (
        arith,
        length-record_body t payload,
        length-append (u32_bytes n) (u32_bytes (crc body) ++ body),
        length-append (u32_bytes (crc body)) body,
        length-le_bytes 4 n,
        length-le_bytes 4 (crc body),
      )

  framed-Slices :
      (t : RecordType) (payload rest : Bytes)
      → PayloadFits (t, payload)
      → crc (record_body t payload) < 2 ^ 32
      → let body = record_body t payload in
        Slices (length body) (crc body) body rest (frame crc t payload ++ rest)
  unfolding frame
  framed-Slices t payload rest fits small =
      let body = record_body t payload in
      let size : length body < 2 ^ 32 = omega (arith, length-record_body t payload) in
      let n : length body % 2 ^ 32 ≡ length body = omega arith in
      rw
        (
          n,
          append_assoc (u32_bytes (length body)) (u32_bytes (crc body) ++ body) rest,
          append_assoc (u32_bytes (crc body)) body rest,
        )
        (frame-Slices (length body) (crc body) body rest size small)

  decode_record-Slices :
      (body rest buf : Bytes)
      → Slices (length body) (crc body) body rest buf
      → 2 ≤ length body
      → decode_record crc buf
        ≡ typed (8 + length body) (drop 2 body) (from_u16 (from_le (take 2 body)))
  unfolding decode_record
  decode_record-Slices body rest buf s h =
      let there : take (from_le (take 4 buf)) (drop 8 buf) ≡ body =
        ap (λ k. take k (drop 8 buf)) s.first ∙ s.middle in
      ground (arith, s.size, s.first, s.second, there, h)

  decode_record-frame :
      (t : RecordType) (payload rest : Bytes)
      → ((body : Bytes) → crc body < 2 ^ 32)
      → PayloadFits (t, payload)
      → decode_record crc (frame crc t payload ++ rest)
        ≡ decoded t payload (length (frame crc t payload))
  unfolding record_body typed
  decode_record-frame t payload rest small fits =
      let body = record_body t payload in
      decode_record-Slices body rest (frame crc t payload ++ rest)
        (framed-Slices t payload rest fits (small body))
        (omega (arith, length-record_body t payload))
      ∙ ap (λ b. typed (8 + length body) (drop 2 body) (from_u16 (from_le b)))
          (take-le_bytes 2 (tag_of t) payload)
      ∙ ap (typed (8 + length body) (drop 2 body)) (from_u16-tag_of t)
      ∙ ap (λ p. decoded t p (8 + length body)) (drop-le_bytes 2 (tag_of t) payload)
      ∙ ap (decoded t payload)
          (omega (arith, length-record_body t payload, length-frame_record t payload))

  -- The frames of the log are a format, with a checksum that is a u32.
  pub frame-IsFormat :
      ((body : Bytes) → crc body < 2 ^ 32)
      → IsFormat (λ (r : RecordType × Bytes). frame crc r.0 r.1) (next_record crc) PayloadFits
  unfolding next_record past
  frame-IsFormat small = record {
    reads = λ r rest f.
        ap (past (frame crc r.0 r.1 ++ rest)) (decode_record-frame r.0 r.1 rest small f)
        ∙ ap (λ bs. some (r, bs)) (drop-length-append (frame crc r.0 r.1) rest);
    takes = λ r. omega (arith, length-frame_record r.0 r.1);
  }

  first_length :
      (t : RecordType) (payload : Bytes)
      → ((body : Bytes) → crc body < 2 ^ 32)
      → PayloadFits (t, payload)
      → from_le (take 4 (frame crc t payload)) ≡ length (record_body t payload)
  first_length t payload small fits =
      ap (λ bs. from_le (take 4 bs)) (sym (append-nil (frame crc t payload)))
      ∙ (framed-Slices t payload [] fits (small (record_body t payload))).first

  decode_record-cut :
      (t : RecordType) (payload : Bytes) (n : ℕ)
      → ((body : Bytes) → crc body < 2 ^ 32)
      → PayloadFits (t, payload)
      → n < length (frame crc t payload)
      → decode_record crc (take n (frame crc t payload)) ≡ need_more
  unfolding decode_record
  decode_record-cut t payload n small fits h =
      let bs = frame crc t payload in
      let size : length (take n bs) ≡ n = omega (arith, length-take n bs) in
      elim (Bool-cases (leb 4 n)) [
        | inl enough ↦
            let start : from_le (take 4 (take n bs)) ≡ length (record_body t payload) =
              ap from_le (take-take 4 n bs (ground (arith, enough)))
              ∙ first_length t payload small fits in
            ground (arith, size, start, length-frame_record t payload, length-record_body t payload)
        | inr few ↦ ground (arith, size, few)
      ]

  -- The reader of a segment stops at an incomplete frame.
  pub next_record-cut :
      (t : RecordType) (payload : Bytes) (n : ℕ)
      → ((body : Bytes) → crc body < 2 ^ 32)
      → PayloadFits (t, payload)
      → n < length (frame crc t payload)
      → next_record crc (take n (frame crc t payload)) ≡ none
  unfolding next_record past
  next_record-cut t payload n small fits h =
      ap (past (take n (frame crc t payload))) (decode_record-cut t payload n small fits h)
