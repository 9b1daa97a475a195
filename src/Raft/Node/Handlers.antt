-- ===== src/Raft/Node/Handlers.antt =====
-- The two entry points of a node in crates/raft/src/lib.rs: a message and a tick of the clock.
use bonsaigrid.Base.{ℕ, ◌+◌, true, [], set, ltb, leb, if◌then◌else◌, add64, min, u64_max}
use bonsaigrid.Raft.Node.{
  RaftMsg, request_vote, request_vote_resp, append_entries, append_entries_resp, RaftNode, Outcome,
  msg_term, is_leader,
}
use bonsaigrid.Raft.Node.Elections.{
  become_follower, start_election, on_request_vote, on_vote_resp, broadcast_append, clear,
}
use bonsaigrid.Raft.Node.Replication.{on_append, on_append_resp}

unfoldable pub dispatch : RaftNode → ℕ → RaftMsg → Outcome
dispatch n from (request_vote term cand last_log_index last_log_term) =
    on_request_vote n term cand last_log_index last_log_term
dispatch n from (request_vote_resp term granted) = on_vote_resp n from term granted
dispatch n from (append_entries term lead prev_log_index prev_log_term entries leader_commit) =
    on_append n term lead prev_log_index prev_log_term entries leader_commit
dispatch n from (append_entries_resp term success match_index) =
    on_append_resp n from term success match_index

-- A message with a newer term first makes the node a follower of that term.
unfoldable pub catch_up : RaftNode → RaftMsg → RaftNode
catch_up n msg = if ltb n.current_term (msg_term msg) then become_follower n (msg_term msg) else n

unfoldable pub step : RaftNode → ℕ → RaftMsg → Outcome
step n from msg = dispatch (catch_up n msg) from msg

-- `since_majority.saturating_add(1)`.
abbrev saturating_suc : ℕ → ℕ
saturating_suc t = min (t + 1) u64_max

-- A fresh round of contacts, in which the leader itself counts.
unfoldable pub new_round : RaftNode → RaftNode
new_round n = record n { elapsed = 0; contacted = set (clear n.contacted) n.id true }

unfoldable pub leader_tick : RaftNode → Outcome
leader_tick n =
    let m = record n { since_majority = saturating_suc n.since_majority } in
    if leb m.heartbeat_period m.elapsed
    then (new_round m, broadcast_append (new_round m))
    else (m, [])

unfoldable pub follower_tick : RaftNode → Outcome
follower_tick n = if leb n.election_timeout n.elapsed then start_election n else (n, [])

unfoldable pub tick : RaftNode → Outcome
tick n =
    let m = record n { elapsed = add64 n.elapsed 1 } in
    if is_leader m then leader_tick m else follower_tick m
