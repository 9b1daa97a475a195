-- ===== src/Tests/GroupRuns.antt =====
-- The theorems about a member of a CP group, crates/raft/src/cp.rs, at concrete states.
use bonsaigrid.Base.{◌≡◌, none, [], ◌∷◌}
use bonsaigrid.Base.Bytes.{Bytes}
use bonsaigrid.Base.Maps.{insert, nat_eq}
use bonsaigrid.Raft.Log.{empty}
use bonsaigrid.Raft.Node.{RaftNode}
use bonsaigrid.Raft.Node.Timers
use bonsaigrid.Cp.Group.{CpMsg, CpGroup, new, submit}
use bonsaigrid.Cp.Group.Answers.{Placed, submit-Placed}
use bonsaigrid.Base.{arith, some}
use bonsaigrid.Raft.Node.{append_entries}
use bonsaigrid.Cp.Messages.{encode_msg, decode_msg}
use bonsaigrid.Cp.Messages.RoundTrip.{decode_msg-encode_msg}

-- One committed entry that adds 3 to the counter "a".
abbrev command : Bytes
command = 0 ∷ 3 ∷ 3 ∷ 0 ∷ 0 ∷ 0 ∷ 0 ∷ 0 ∷ 0 ∷ 0 ∷ 0 ∷ 0 ∷ 0 ∷ 0 ∷ 0 ∷ 0 ∷ 0 ∷ 0 ∷ 97 ∷ []

abbrev node : RaftNode
node = record (Timers.new 1 (0 ∷ 1 ∷ 2 ∷ []) empty 7) {
  log = record empty { entries = record { term = 1; index = 1; command = command } ∷ [] };
  commit_index = 1;
}

abbrev member : CpGroup
member = record (new node) { id = 1; pending = insert 1 (40, 1) (λ _. none) }

submit-Placed_example : Placed member 41 command (submit member 41 command)
submit-Placed_example = submit-Placed member 41 command

abbrev append_message : CpMsg
append_message =
    CpMsg.raft (append_entries 4 1 2 3 (record { term = 4; index = 3; command = command } ∷ []) 2)

decode_msg-encode_msg_example : decode_msg (encode_msg append_message) ≡ some append_message
decode_msg-encode_msg_example = decode_msg-encode_msg append_message (
  omega arith,
  omega arith,
  omega arith,
  omega arith,
  omega arith,
  (record { term = omega arith; index = omega arith; size = omega arith }, tt),
  omega arith,
)
