-- ===== src/Tests/ProtocolRuns.antt =====
-- The theorems about the client protocol's messages, crates/protocol/src, at concrete bytes.
use bonsaigrid.Base.{◌+◌, ◌^◌, ◌<◌, ◌≡◌, refl, List, [], ◌∷◌, ◌++◌, length, arith}
use bonsaigrid.Base.Bytes.{le_bytes}
use bonsaigrid.Protocol.Message.{
  Frame, is_final, write_frame, final_frame, write_message, complete, spinning, message_len,
  read_message,
}
use bonsaigrid.Protocol.Message.Prefixes.{MessageFits, mark_last}
use bonsaigrid.Protocol.Message.Reading.{read_message-write_message}
use bonsaigrid.Protocol.Message.Lengths.{message_len-read_message}
use bonsaigrid.Protocol.Message.Spinning.{backwards, message_len_spins}

-- An unfragmented first frame, and a second one.
abbrev message : List Frame
message =
    record { flags = 0xC000; content = 7 ∷ [] } ∷ record { flags = 0; content = 1 ∷ 2 ∷ [] } ∷ []

message-fits : MessageFits message
unfolding is_final
message-fits = (
  record { flags = omega arith; size = omega arith },
  refl,
  record { flags = omega arith; size = omega arith },
)

message-size : length ((9 ∷ []) ++ (write_message message ++ 8 ∷ [])) < 2 ^ 63
unfolding write_message write_frame final_frame le_bytes
message-size = omega arith

read_message-write_message_example :
    read_message 2 ((9 ∷ []) ++ (write_message message ++ 8 ∷ [])) 1
    ≡ complete (mark_last message, 1 + length (write_message message))
read_message-write_message_example =
    read_message-write_message message (9 ∷ []) (8 ∷ []) 2 message-fits message-size (omega arith)

message_len-read_message_example :
    message_len 2 ((9 ∷ []) ++ (write_message message ++ 8 ∷ [])) 1
    ≡ complete (1 + length (write_message message))
message_len-read_message_example =
    message_len-read_message 2 ((9 ∷ []) ++ (write_message message ++ 8 ∷ [])) 1 (mark_last message)
      (1 + length (write_message message))
      (read_message-write_message message (9 ∷ []) (8 ∷ []) 2 message-fits message-size
        (omega arith))

message_len_spins_example : message_len 100 (backwards ++ 1 ∷ []) 0 ≡ spinning
message_len_spins_example = message_len_spins 100 (1 ∷ [])
