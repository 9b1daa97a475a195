-- ===== src/Raft/Durable/Format.antt =====
-- The frames of a durable log, crates/raft/src/log.rs, are read back as they were written.
use bonsaigrid.Base.{
  ℕ, ◌+◌, ◌-◌, ◌^◌, ◌≤◌, ◌<◌, ◌≡◌, ap, ◌∙◌, Option, none, some, ◌++◌, length, length-append, take,
  drop, drop-drop, u64_mod, arith,
}
use bonsaigrid.Base.Bytes.{
  Bytes, le_bytes, from_le, length-le_bytes, from_le-take-le_bytes, drop-le_bytes, from_le-le_bytes,
}
use bonsaigrid.Frames.{Slices, IsFormat, framed-Slices, frame, length-frame}
use bonsaigrid.Raft.Log.{Entry}
use bonsaigrid.Raft.Durable.{
  entry_body, body_entry, frame_entry, next_entry, write_meta, read_meta, has_vote, vote_or_zero,
}

-- An entry whose numbers are u64 and whose frame has a u32 length.
pub record EntryFits (e : Entry) : Type 0 where
  pub term : e.term < u64_mod
  pub index : e.index < u64_mod
  pub size : length e.command + 20 < 2 ^ 32

length-entry_body : (e : Entry) → length (entry_body e) ≡ 16 + length e.command
unfolding entry_body
length-entry_body e = omega (
  arith,
  length-append (le_bytes 8 e.term) (le_bytes 8 e.index ++ e.command),
  length-append (le_bytes 8 e.index) e.command,
  length-le_bytes 8 e.term,
  length-le_bytes 8 e.index,
)

body_entry-entry_body : (e : Entry) → EntryFits e → body_entry (entry_body e) ≡ e
unfolding body_entry entry_body
body_entry-entry_body e f =
    let rest = le_bytes 8 e.index ++ e.command in
    let past = drop-le_bytes 8 e.term rest in
    rw (
      from_le-take-le_bytes 8 e.term rest f.term,
      drop-drop 8 8 (le_bytes 8 e.term ++ rest),
      past,
      from_le-take-le_bytes 8 e.index e.command f.index,
      drop-le_bytes 8 e.index e.command,
    )

module _ (crc : Bytes → ℕ) where
  next_entry-Slices :
      (body rest buf : Bytes)
      → Slices (length body + 4) (crc body) body rest buf
      → 16 ≤ length body
      → next_entry crc buf ≡ some (body_entry body, rest)
  unfolding next_entry
  next_entry-Slices body rest buf s h =
      let len : from_le (take 4 buf) - 4 ≡ length body = omega (arith, s.first) in
      let end : 4 + from_le (take 4 buf) ≡ 8 + length body = omega (arith, s.first) in
      let there : take (from_le (take 4 buf) - 4) (drop 8 buf) ≡ body =
        ap (λ k. take k (drop 8 buf)) len ∙ s.middle in
      let behind : drop (4 + from_le (take 4 buf)) buf ≡ rest =
        ap (λ k. drop k buf) end ∙ s.behind in
      ground (arith, s.size, s.first, s.second, there, behind)

  next_entry-frame_entry :
      (e : Entry) (rest : Bytes)
      → EntryFits e
      → crc (entry_body e) < 2 ^ 32
      → next_entry crc (frame_entry crc e ++ rest) ≡ some (e, rest)
  unfolding frame_entry
  next_entry-frame_entry e rest f small =
      let body = entry_body e in
      let size : length body + 4 < 2 ^ 32 = omega (arith, length-entry_body e, f.size) in
      next_entry-Slices body rest (frame crc body ++ rest) (framed-Slices crc body rest size small)
        (omega (arith, length-entry_body e))
      ∙ ap (λ x. some (x, rest)) (body_entry-entry_body e f)

  length-frame_entry : (e : Entry) → 0 < length (frame_entry crc e)
  unfolding frame_entry
  length-frame_entry e = omega (arith, length-frame crc (entry_body e))

  -- The frames of the log are a format, with a checksum that is a u32.
  pub frame_entry-IsFormat :
      ((body : Bytes) → crc body < 2 ^ 32) → IsFormat (frame_entry crc) (next_entry crc) EntryFits
  frame_entry-IsFormat small = record {
    reads = λ e rest f. next_entry-frame_entry e rest f (small (entry_body e));
    takes = length-frame_entry;
  }

  -- The reader stops at a tail that is shorter than a header, and at one whose length is too small.
  pub next_entry-short : (buf : Bytes) → length buf < 8 → next_entry crc buf ≡ none
  unfolding next_entry
  next_entry-short buf h = ground arith

  pub next_entry-blocked : (buf : Bytes) → from_le (take 4 buf) < 20 → next_entry crc buf ≡ none
  unfolding next_entry
  next_entry-blocked buf h = ground arith

-- A term and a vote of u64 size come back from the meta file as they were.
pub read_meta-write_meta :
    (term : ℕ) (vote : Option ℕ)
    → term < u64_mod
    → vote_or_zero vote < u64_mod
    → read_meta (write_meta term vote) ≡ (term, vote)
unfolding read_meta write_meta le_bytes has_vote vote_or_zero
read_meta-write_meta term none ht hv = ap (λ t. (t, none)) (from_le-le_bytes 8 term ht)
read_meta-write_meta term (some c) ht hv =
    ap (λ t. (t, some (from_le (le_bytes 8 c)))) (from_le-le_bytes 8 term ht)
    ∙ ap (λ v. (term, some v)) (from_le-le_bytes 8 c hv)
