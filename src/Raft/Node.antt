-- ===== src/Raft/Node.antt =====
-- The state of one consensus node, crates/raft/src/lib.rs. The handlers are in the modules below;
-- each returns the new node and the messages that the source pushes to `out`, in order. An index
-- out of a vector's range is a panic in the source; here a read gives a default and a write
-- changes nothing.
pub mod Timers
pub mod Elections
pub mod Replication
pub mod Handlers
pub mod Matching
pub mod Append
pub mod Gap
pub mod Commit
pub mod Moves
pub mod Votes
pub mod Appends
pub mod Promises
pub mod Steps
use bonsaigrid.Base.{
  ℕ, suc, ◌+◌, ◌/◌, ◌≡◌, Option, none, some, Bool, true, false, List, [], ◌∷◌, length, replicate,
  ltb, if◌then◌else◌, max, mul64, bit_or,
}
use bonsaigrid.Raft.Log.{Entry, RaftLog}

pub data RaftMsg : Type 0 where
  request_vote : (term candidate last_log_index last_log_term : ℕ) → RaftMsg
  request_vote_resp : (term : ℕ) (granted : Bool) → RaftMsg
  append_entries :
      (term leader prev_log_index prev_log_term : ℕ) (entries : List Entry) (leader_commit : ℕ)
      → RaftMsg
  append_entries_resp : (term : ℕ) (success : Bool) (match_index : ℕ) → RaftMsg

pub data Role : Type 0 where
  follower candidate leader : Role

pub record RaftNode : Type 0 where
  pub id : ℕ
  pub peers : List ℕ
  pub role : Role
  pub current_term : ℕ
  pub voted_for : Option ℕ
  pub log : RaftLog
  pub commit_index : ℕ
  pub last_applied : ℕ
  pub leader_id : Option ℕ
  pub votes : List Bool
  pub next_index : List ℕ
  pub match_index : List ℕ
  pub elapsed : ℕ
  pub election_timeout : ℕ
  pub heartbeat_period : ℕ
  pub contacted : List Bool
  pub since_majority : ℕ
  pub rng : ℕ

-- What a handler leaves: the node, and the messages with their receivers.
abbrev pub Outcome : Type 0
Outcome = RaftNode × List (ℕ × RaftMsg)

abbrev pub is_role_leader : Role → Bool
is_role_leader leader = true
is_role_leader _ = false

abbrev pub is_role_candidate : Role → Bool
is_role_candidate candidate = true
is_role_candidate _ = false

unfoldable pub is_leader : RaftNode → Bool
is_leader n = is_role_leader n.role

unfoldable pub majority : RaftNode → ℕ
majority n = length n.peers / 2 + 1

-- `v.iter().filter(|&&b| b).count()`.
unfoldable pub count_true : List Bool → ℕ
count_true [] = 0
count_true (true ∷ bs) = suc (count_true bs)
count_true (false ∷ bs) = count_true bs

unfoldable pub msg_term : RaftMsg → ℕ
msg_term (request_vote term _ _ _) = term
msg_term (request_vote_resp term _) = term
msg_term (append_entries term _ _ _ _ _) = term
msg_term (append_entries_resp term _ _) = term

-- `peers.iter().copied().max().unwrap_or(0)`.
unfoldable pub max_peer : List ℕ → ℕ
max_peer [] = 0
max_peer (p ∷ ps) = max p (max_peer ps)
