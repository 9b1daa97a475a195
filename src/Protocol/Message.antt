-- ===== src/Protocol/Message.antt =====
-- crates/protocol/src/frame.rs: messages as sequences of frames `[u32 length][u16 flags][content]`,
-- the last of them with IS_FINAL, which is bit 13 of the flags. Positions are usize, and their sums
-- wrap as in a release build. The two readers loop without a bound, so they are given fuel, and say
-- where it runs out.
use bonsaigrid.Base.{
  ℕ, zero, suc, ◌+◌, ◌-◌, ◌/◌, ◌%◌, ◌^◌, Bool, true, false, ◌||◌, Option, none, some, List, [], ◌∷◌,
  ◌++◌, length, take, drop, ltb, ◌==◌, add64, if◌then◌else◌,
}
use bonsaigrid.Base.Bytes.{Bytes, le_bytes, from_le}
pub mod Prefixes
pub mod Reading
pub mod Lengths
pub mod Spinning

pub record Frame : Type 0 where
  pub flags : ℕ
  pub content : Bytes

-- `flags & IS_FINAL != 0` and `flags | IS_FINAL`.
unfoldable pub is_final : ℕ → Bool
is_final flags = flags / 8192 % 2 == 1

unfoldable pub set_final : ℕ → ℕ
set_final flags = if is_final flags then flags else flags + 8192

unfoldable pub write_frame : Frame → Bytes
write_frame f = le_bytes 4 ((6 + length f.content) % 2 ^ 32) ++ (le_bytes 2 f.flags ++ f.content)

unfoldable pub final_frame : Frame → Frame
final_frame f = record f { flags = set_final f.flags }

unfoldable pub write_message : List Frame → Bytes
write_message [] = []
write_message (f ∷ []) = write_frame (final_frame f)
write_message (f ∷ g ∷ fs) = write_frame f ++ write_message (g ∷ fs)

-- `read_i32_le(bytes, off) as usize`: a negative length is a large one.
unfoldable pub usize_of_i32 : ℕ → ℕ
usize_of_i32 w = if ltb w (2 ^ 31) then w else w + (2 ^ 64 - 2 ^ 32)

-- The prefix at a position, where the frame is there whole.
unfoldable pub read_prefix : Bytes → ℕ → Option (ℕ × ℕ)
read_prefix bytes off =
    let len = usize_of_i32 (from_le (take 4 (drop off bytes))) in
    let flags = from_le (take 2 (drop (add64 off 4) bytes)) in
    if ltb (length bytes) (add64 off 6)
    then none
    else if ltb len 6 || ltb (length bytes) (add64 off len)
    then none
    else some (len, flags)

-- What a reader comes to: `None`, a result, a panic of a slice, or no end within the fuel.
pub data Outcome (A : Type 0) : Type 0 where
  incomplete : Outcome A
  complete : A → Outcome A
  panics : Outcome A
  spinning : Outcome A

unfoldable pub message_len : ℕ → Bytes → ℕ → Outcome ℕ
message_len zero bytes off = spinning
message_len (suc fuel) bytes off = elim (read_prefix bytes off) [
  | none ↦ incomplete
  | some p ↦
      let next = add64 off p.0 in
      let rest = message_len fuel bytes next in if is_final p.1 then complete next else rest
]

unfoldable pub push_frame : Frame → Outcome (List Frame × ℕ) → Outcome (List Frame × ℕ)
push_frame f incomplete = incomplete
push_frame f (complete r) = complete (f ∷ r.0, r.1)
push_frame f panics = panics
push_frame f spinning = spinning

-- A position is never behind the end of the bytes, so that `off + 6` does not wrap where the slice
-- of the content is taken.
unfoldable pub read_message : ℕ → Bytes → ℕ → Outcome (List Frame × ℕ)
read_message zero bytes off = spinning
read_message (suc fuel) bytes off = elim (read_prefix bytes off) [
  | none ↦ incomplete
  | some p ↦
      let next = add64 off p.0 in
      let f : Frame = record {
        flags = p.1;
        content = take (next - (off + 6)) (drop (off + 6) bytes);
      } in
      let rest = read_message fuel bytes next in
      if ltb next (off + 6)
      then panics
      else if is_final p.1
      then complete (f ∷ [], next)
      else push_frame f rest
]
