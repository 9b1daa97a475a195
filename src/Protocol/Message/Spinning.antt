-- ===== src/Protocol/Message/Spinning.antt =====
-- A message on which a reader of crates/protocol/src/frame.rs does not end.
use bonsaigrid.Base.{ℕ, zero, suc, ◌≡◌, refl, some, [], ◌∷◌, ◌++◌, add64, arith}
use bonsaigrid.Base.Bytes.{Bytes, from_le}
use bonsaigrid.Protocol.Message.{read_prefix, usize_of_i32, is_final, message_len, spinning}

-- An empty frame, and a prefix with the length -6.
abbrev pub backwards : Bytes
backwards = 6 ∷ 0 ∷ 0 ∷ 0 ∷ 0 ∷ 0 ∷ 250 ∷ 255 ∷ 255 ∷ 255 ∷ 0 ∷ 0 ∷ []

first_prefix : (rest : Bytes) → read_prefix (backwards ++ rest) 0 ≡ some (6, 0)
unfolding read_prefix usize_of_i32 from_le add64
first_prefix rest = ground arith

second_prefix : (rest : Bytes) → read_prefix (backwards ++ rest) 6 ≡ some (18446744073709551610, 0)
unfolding read_prefix usize_of_i32 from_le add64
second_prefix rest = ground arith

-- Where an empty frame is followed by one of length -6, `message_len` goes back and forth between
-- the two: however long it runs, and whatever follows, it does not end.
pub message_len_spins :
    (fuel : ℕ) (rest : Bytes) → message_len fuel (backwards ++ rest) 0 ≡ spinning
unfolding message_len is_final add64
message_len_spins zero rest = refl
message_len_spins (suc zero) rest = rw (first_prefix rest, message_len) refl
message_len_spins (suc (suc fuel)) rest =
    rw (first_prefix rest, second_prefix rest, message_len) (message_len_spins fuel rest)
