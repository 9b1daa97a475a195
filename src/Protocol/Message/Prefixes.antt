-- ===== src/Protocol/Message/Prefixes.antt =====
-- A written frame of crates/protocol/src/frame.rs as a reader finds it between other bytes.
use bonsaigrid.Base.{
  ℕ, ◌+◌, ◌%◌, ◌^◌, ◌<◌, ◌≡◌, ap, ◌∙◌, true, false, some, List, [], ◌∷◌, ◌++◌, length,
  length-append, append_assoc, take, take-length-append, drop, drop-drop, drop-length-append, add64,
  add64-eq_of_lt, arith,
}
use bonsaigrid.Base.Bytes.{
  Bytes, le_bytes, from_le, length-le_bytes, drop-le_bytes, from_le-take-le_bytes,
}
use bonsaigrid.Protocol.Message.{
  Frame, is_final, set_final, write_frame, final_frame, usize_of_i32, read_prefix,
}

-- A frame with flags of 16 bits whose length is an i32.
pub record FrameFits (f : Frame) : Type 0 where
  pub flags : f.flags < 2 ^ 16
  pub size : 6 + length f.content < 2 ^ 31

-- The frames of a message: none but the last may be final.
abbrev pub MessageFits : List Frame → Type 0
MessageFits [] = ⊥
MessageFits (f ∷ []) = FrameFits f
MessageFits (f ∷ g ∷ fs) = FrameFits f × (is_final f.flags ≡ false) × MessageFits (g ∷ fs)

-- The frames as they are read back.
abbrev pub mark_last : List Frame → List Frame
mark_last [] = []
mark_last (f ∷ []) = final_frame f ∷ []
mark_last (f ∷ g ∷ fs) = f ∷ mark_last (g ∷ fs)

pub is_final-set_final : (flags : ℕ) → is_final (set_final flags) ≡ true
unfolding is_final set_final
is_final-set_final flags = ground arith

set_final-lt : (flags : ℕ) → flags < 2 ^ 16 → set_final flags < 2 ^ 16
unfolding is_final set_final
set_final-lt flags h = ground arith

pub final_frame-FrameFits : (f : Frame) → FrameFits f → FrameFits (final_frame f)
unfolding final_frame
final_frame-FrameFits f v = record { flags = set_final-lt f.flags v.flags; size = v.size }

-- A written frame between other bytes.
pub record FrameAt (f : Frame) (off : ℕ) (rest bs : Bytes) : Type 0 where
  pub len : from_le (take 4 (drop off bs)) ≡ 6 + length f.content
  pub flags : from_le (take 2 (drop (off + 4) bs)) ≡ f.flags
  pub content : take (length f.content) (drop (off + 6) bs) ≡ f.content
  pub size : length bs ≡ off + 6 + length f.content + length rest

pub length-write_frame : (f : Frame) → length (write_frame f) ≡ 6 + length f.content
unfolding write_frame
length-write_frame f =
    let n = (6 + length f.content) % 2 ^ 32 in
    omega (
      arith,
      length-append (le_bytes 4 n) (le_bytes 2 f.flags ++ f.content),
      length-append (le_bytes 2 f.flags) f.content,
      length-le_bytes 4 n,
      length-le_bytes 2 f.flags,
    )

pub write_frame-FrameAt :
    (pre : Bytes) (f : Frame) (rest : Bytes)
    → FrameFits f
    → FrameAt f (length pre) rest (pre ++ (write_frame f ++ rest))
unfolding write_frame
write_frame-FrameAt pre f rest v =
    let n = (6 + length f.content) % 2 ^ 32 in
    let same : n ≡ 6 + length f.content = omega (arith, v.size) in
    let two = le_bytes 2 f.flags ++ (f.content ++ rest) in
    let bs = pre ++ (write_frame f ++ rest) in
    let here : drop (length pre) bs ≡ le_bytes 4 n ++ two =
      drop-length-append pre (write_frame f ++ rest)
      ∙ append_assoc (le_bytes 4 n) (le_bytes 2 f.flags ++ f.content) rest
      ∙ ap (λ t. le_bytes 4 n ++ t) (append_assoc (le_bytes 2 f.flags) f.content rest) in
    let past_len : drop (length pre + 4) bs ≡ two =
      drop-drop (length pre) 4 bs ∙ ap (drop 4) here ∙ drop-le_bytes 4 n two in
    let past_flags : drop (length pre + 6) bs ≡ f.content ++ rest =
      ap (λ k. drop k bs) (let e : length pre + 6 ≡ length pre + 4 + 2 = omega arith in e)
      ∙ drop-drop (length pre + 4) 2 bs
      ∙ ap (drop 2) past_len
      ∙ drop-le_bytes 2 f.flags (f.content ++ rest) in
    record {
      len = ap (λ t. from_le (take 4 t)) here ∙ from_le-take-le_bytes 4 n two (omega arith) ∙ same;
      flags =
          ap (λ t. from_le (take 2 t)) past_len
          ∙ from_le-take-le_bytes 2 f.flags (f.content ++ rest) (omega (arith, v.flags));
      content = ap (take (length f.content)) past_flags ∙ take-length-append f.content rest;
      size = omega (
        arith,
        length-append pre (write_frame f ++ rest),
        length-append (write_frame f) rest,
        length-write_frame f,
      );
    }

pub read_prefix-FrameAt :
    (f : Frame) (off : ℕ) (rest bs : Bytes)
    → FrameAt f off rest bs
    → 6 + length f.content < 2 ^ 31
    → length bs < 2 ^ 63
    → read_prefix bs off ≡ some (6 + length f.content, f.flags)
unfolding read_prefix usize_of_i32
read_prefix-FrameAt f off rest bs a v small =
    let four : add64 off 4 ≡ off + 4 = add64-eq_of_lt off 4 (omega (arith, a.size)) in
    let six : add64 off 6 ≡ off + 6 = add64-eq_of_lt off 6 (omega (arith, a.size)) in
    let n = 6 + length f.content in
    let end : add64 off n ≡ off + n = add64-eq_of_lt off n (omega (arith, a.size)) in
    let flags = ap (λ k. from_le (take 2 (drop k bs))) four ∙ a.flags in
    ground (arith, four, six, end, flags, a.len, a.size)

pub next_of :
    (f : Frame) (off : ℕ) (rest bs : Bytes)
    → FrameAt f off rest bs
    → length bs < 2 ^ 63
    → add64 off (6 + length f.content) ≡ off + (6 + length f.content)
next_of f off rest bs a small = add64-eq_of_lt off (6 + length f.content) (omega (arith, a.size))
