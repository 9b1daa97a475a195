-- ===== src/Protocol/Message/Reading.antt =====
-- What `read_message` of crates/protocol/src/frame.rs makes of a written message.
use bonsaigrid.Base.{
  ℕ, zero, suc, ◌+◌, ◌-◌, ◌^◌, ◌<◌, ◌≤◌, ◌≡◌, refl, sym, ap, ◌∙◌, true, false, List, [], ◌∷◌, ◌++◌,
  length, length-append, append_assoc, take, drop, ltb, arith,
}
use bonsaigrid.Base.Bytes.{Bytes}
use bonsaigrid.Protocol.Message.{
  Frame, is_final, write_frame, final_frame, write_message, complete, push_frame, read_message,
}
use bonsaigrid.Protocol.Message.Prefixes.{
  MessageFits, mark_last, is_final-set_final, final_frame-FrameFits, FrameAt, length-write_frame,
  write_frame-FrameAt, read_prefix-FrameAt, next_of,
}

read_last :
    (fuel : ℕ) (f : Frame) (off : ℕ) (rest bs : Bytes)
    → FrameAt f off rest bs
    → 6 + length f.content < 2 ^ 31
    → length bs < 2 ^ 63
    → is_final f.flags ≡ true
    → read_message (suc fuel) bs off ≡ complete (f ∷ [], off + (6 + length f.content))
unfolding read_message
read_last fuel f off rest bs a v small fin =
    let n = length f.content in
    let cut : take (off + (6 + n) - (off + 6)) (drop (off + 6) bs) ≡ f.content =
      ap (λ k. take k (drop (off + 6) bs)) (omega arith) ∙ a.content in
    let onward : ltb (off + (6 + n)) (off + 6) ≡ false = ground arith in
    rw
      (
        read_prefix-FrameAt f off rest bs a v small,
        next_of f off rest bs a small,
        cut,
        onward,
        fin,
        read_message,
      )
      refl

read_more :
    (fuel : ℕ) (f : Frame) (off : ℕ) (rest bs : Bytes)
    → FrameAt f off rest bs
    → 6 + length f.content < 2 ^ 31
    → length bs < 2 ^ 63
    → is_final f.flags ≡ false
    → read_message (suc fuel) bs off
      ≡ push_frame f (read_message fuel bs (off + (6 + length f.content)))
unfolding read_message
read_more fuel f off rest bs a v small fin =
    let n = length f.content in
    let cut : take (off + (6 + n) - (off + 6)) (drop (off + 6) bs) ≡ f.content =
      ap (λ k. take k (drop (off + 6) bs)) (omega arith) ∙ a.content in
    let onward : ltb (off + (6 + n)) (off + 6) ≡ false = ground arith in
    rw
      (
        read_prefix-FrameAt f off rest bs a v small,
        next_of f off rest bs a small,
        cut,
        onward,
        fin,
        read_message,
      )
      refl

final_frame-final : (f : Frame) → is_final (final_frame f).flags ≡ true
unfolding final_frame
final_frame-final f = is_final-set_final f.flags

marked :
    (f g : Frame) (fs : List Frame) (n : ℕ)
    → push_frame f (complete (mark_last (g ∷ fs), n)) ≡ complete (f ∷ mark_last (g ∷ fs), n)
unfolding push_frame
marked f g fs n = refl

-- A message that has been written is read back whole, whatever follows it and wherever it stands in
-- the buffer, with its last frame marked as final, by as much fuel as it has frames. The message has
-- at least one frame, none before the last is marked as final, every frame's length is below 2^31
-- and the buffer's below 2^63.
pub read_message-write_message :
    (fs : List Frame) (pre rest : Bytes) (fuel : ℕ)
    → MessageFits fs
    → length (pre ++ (write_message fs ++ rest)) < 2 ^ 63
    → length fs ≤ fuel
    → read_message fuel (pre ++ (write_message fs ++ rest)) (length pre)
      ≡ complete (mark_last fs, length pre + length (write_message fs))
unfolding write_message
read_message-write_message [] pre rest fuel v small h = elim v [ ]
read_message-write_message (f ∷ []) pre rest zero v small h = absurd (omega arith)
read_message-write_message (f ∷ []) pre rest (suc fuel) v small h =
    let l = final_frame f in
    let fits = final_frame-FrameFits f v in
    read_last fuel l (length pre) rest (pre ++ (write_frame l ++ rest))
      (write_frame-FrameAt pre l rest fits) fits.size small (final_frame-final f)
    ∙ ap (λ n. complete (l ∷ [], length pre + n)) (sym (length-write_frame l))
read_message-write_message (f ∷ g ∷ fs) pre rest zero v small h = absurd (omega arith)
read_message-write_message (f ∷ g ∷ fs) pre rest (suc fuel) v small h =
    let later = write_message (g ∷ fs) in
    let bs = pre ++ (write_frame f ++ (later ++ rest)) in
    let bs' = (pre ++ write_frame f) ++ (later ++ rest) in
    let whole : pre ++ ((write_frame f ++ later) ++ rest) ≡ bs =
      ap (λ t. pre ++ t) (append_assoc (write_frame f) later rest) in
    let moved : bs' ≡ bs = append_assoc pre (write_frame f) (later ++ rest) in
    let size : length bs < 2 ^ 63 = omega (arith, small, ap length whole) in
    let off : length (pre ++ write_frame f) ≡ length pre + (6 + length f.content) =
      omega (arith, length-append pre (write_frame f), length-write_frame f) in
    let end : length (pre ++ write_frame f) + length later
        ≡ length pre + length (write_frame f ++ later) =
      omega (arith, length-append pre (write_frame f), length-append (write_frame f) later) in
    let behind =
      read_message-write_message (g ∷ fs) (pre ++ write_frame f) rest fuel v.2
        (omega (arith, ap length moved, size)) (omega arith) in
    ap (λ t. read_message (suc fuel) t (length pre)) whole
    ∙ read_more fuel f (length pre) (later ++ rest) bs
        (write_frame-FrameAt pre f (later ++ rest) v.0) v.0.size size v.1
    ∙ ap (λ k. push_frame f (read_message fuel bs k)) (sym off)
    ∙ ap (λ t. push_frame f (read_message fuel t (length (pre ++ write_frame f)))) (sym moved)
    ∙ ap (push_frame f) behind
    ∙ marked f g fs (length (pre ++ write_frame f) + length later)
    ∙ ap (λ n. complete (f ∷ mark_last (g ∷ fs), n)) end
