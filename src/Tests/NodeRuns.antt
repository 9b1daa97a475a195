-- ===== src/Tests/NodeRuns.antt =====
-- The theorems about one node of crates/raft/src/lib.rs and its log, at concrete states.
use bonsaigrid.Base.{ℕ, ◌≤◌, ◌<◌, ◌≡◌, refl, none, some, true, false, List, [], ◌∷◌, length, arith}
use bonsaigrid.Raft.Log.{Entry, RaftLog, last_index, entry_at, term_at, compact}
use bonsaigrid.Raft.Log.Contiguous.{IsContiguous}
use bonsaigrid.Raft.Log.Entries.{find_index, entry_at-eq-find_index, term_at-compact}
use bonsaigrid.Raft.Node.{
  request_vote, append_entries_resp, Role, follower, candidate, leader, RaftNode, majority,
}
use bonsaigrid.Raft.Node.Timers.{reset_election_timeout, election_timeout_range}
use bonsaigrid.Raft.Node.Elections.{send_append}
use bonsaigrid.Raft.Node.Replication.{
  advance_commit, take_committed, can_commit, replicas, scan_commit,
}
use bonsaigrid.Raft.Node.Handlers.{step, tick}
use bonsaigrid.Raft.Node.Commit.{Commits, InOrder, advance_commit-Commits, take_committed-InOrder}
use bonsaigrid.Raft.Node.Gap.{compacted_leader_leaves_gap}
use bonsaigrid.Raft.Node.Promises.{KeepsVote, step-KeepsVote, tick-KeepsVote}

abbrev entry : ℕ → ℕ → Entry
entry term index = record { term = term; index = index; command = index ∷ [] }

abbrev log_of : ℕ → ℕ → List Entry → RaftLog
log_of s t es = record {
  entries = es;
  term = 3;
  vote = none;
  durable = false;
  snapshot_index = s;
  snapshot_term = t;
}

abbrev node_of : ℕ → Role → RaftLog → ℕ → ℕ → RaftNode
node_of id role log commit applied = record {
  id = id;
  peers = 0 ∷ 1 ∷ 2 ∷ [];
  role = role;
  current_term = 3;
  voted_for = none;
  log = log;
  commit_index = commit;
  last_applied = applied;
  leader_id = none;
  votes = false ∷ false ∷ false ∷ [];
  next_index = 6 ∷ 3 ∷ 2 ∷ [];
  match_index = 5 ∷ 4 ∷ 0 ∷ [];
  elapsed = 0;
  election_timeout = 12;
  heartbeat_period = 1;
  contacted = true ∷ false ∷ false ∷ [];
  since_majority = 0;
  rng = 1;
}

-- Indices 4 and 5 are live, and 3 was folded away.
abbrev compacted : RaftLog
compacted = log_of 3 2 (entry 3 4 ∷ entry 3 5 ∷ [])

abbrev whole : RaftLog
whole = log_of 0 0 (entry 1 1 ∷ entry 3 2 ∷ entry 3 3 ∷ [])

compacted-IsContiguous : IsContiguous compacted
compacted-IsContiguous = record { run = (refl, (refl, tt)); fits = omega arith }

whole-IsContiguous : IsContiguous whole
whole-IsContiguous = record { run = (refl, (refl, (refl, tt))); fits = omega arith }

entry_at-eq-find_index_example : entry_at compacted 5 ≡ find_index 5 compacted.entries
entry_at-eq-find_index_example = entry_at-eq-find_index compacted 5 compacted-IsContiguous

term_at-compact_example : term_at (compact whole 2) 2 ≡ term_at whole 2
term_at-compact_example = term_at-compact whole 2 2 whole-IsContiguous (omega arith)

election_timeout_range_example :
    (10 ≤ (reset_election_timeout (node_of 0 follower whole 0 0)).election_timeout)
    × ((reset_election_timeout (node_of 0 follower whole 0 0)).election_timeout < 20)
    × ((reset_election_timeout (node_of 0 follower whole 0 0)).elapsed ≡ 0)
election_timeout_range_example = election_timeout_range (node_of 0 follower whole 0 0) (omega arith)

abbrev behind : RaftNode
behind = node_of 1 follower whole 1 0

abbrev leading : RaftNode
leading = node_of 0 leader compacted 3 3

advance_commit-Commits_example : Commits leading 5 (advance_commit leading).commit_index
unfolding last_index
advance_commit-Commits_example = advance_commit-Commits leading (omega arith)

advances_to_four : (advance_commit leading).commit_index ≡ 4
unfolding advance_commit last_index can_commit term_at replicas majority scan_commit
advances_to_four = refl

take_committed-InOrder_example :
    InOrder whole 1 (take_committed (node_of 1 follower whole 3 1)).1
    × (length (take_committed (node_of 1 follower whole 3 1)).1 ≡ 2)
    × ((take_committed (node_of 1 follower whole 3 1)).0.last_applied ≡ 3)
    × ((take_committed (take_committed (node_of 1 follower whole 3 1)).0).1 ≡ [])
unfolding last_index
take_committed-InOrder_example =
    take_committed-InOrder (node_of 1 follower whole 3 1) whole-IsContiguous (omega arith)
      (omega arith) (omega arith)

-- Member 2 has an empty log, and the leader has folded indices 1 to 3 away.
abbrev empty_peer : RaftNode
empty_peer = node_of 2 follower (log_of 0 0 []) 0 0

compacted_leader_leaves_gap_example :
    ((step empty_peer 0 (send_append leading 2).1).1 ≡ (0, append_entries_resp 3 true 5) ∷ [])
    × ¬ IsContiguous (step empty_peer 0 (send_append leading 2).1).0.log
unfolding last_index
compacted_leader_leaves_gap_example =
    compacted_leader_leaves_gap leading empty_peer 2 compacted-IsContiguous
      (record { run = tt; fits = omega arith }) (omega arith) (omega arith) (omega arith)
      (omega arith)

-- A candidate that has voted for itself in term 3.
abbrev voter : RaftNode
voter = record (node_of 0 candidate (record whole { vote = some 0 }) 1 0) {
  voted_for = some 0;
  elapsed = 50;
}

-- It is asked for its vote by member 2 in the same term.
step-KeepsVote_example : KeepsVote voter 0 (step voter 2 (request_vote 3 2 9 9))
step-KeepsVote_example =
    step-KeepsVote voter 2 (request_vote 3 2 9 9) 0 (record { term = refl; vote = refl }) refl

-- Its election times out.
tick-KeepsVote_example : KeepsVote voter 0 (tick voter)
tick-KeepsVote_example =
    tick-KeepsVote voter 0 (omega arith) (record { term = refl; vote = refl }) refl
