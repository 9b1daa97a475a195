-- ===== src/Raft/Node/Replication.antt =====
-- Log replication: the append handlers, the commit rule and the drain of committed commands of
-- crates/raft/src/lib.rs.
use bonsaigrid.Base.{
  ℕ, zero, suc, ◌+◌, ◌-◌, Option, none, some, Bool, true, false, ◌&&◌, ◌||◌, List, [], ◌∷◌, length,
  get_or, set, ltb, leb, ◌==◌, if◌then◌else◌, add64, min, max,
}
use bonsaigrid.Raft.Log.{
  Entry, RaftLog, last_index, term_at, command_at, compact, append, truncate_from,
}
use bonsaigrid.Raft.Node.{
  append_entries_resp, follower, RaftNode, Outcome, is_leader, majority, count_true,
}
use bonsaigrid.Raft.Node.Timers.{reset_election_timeout}
use bonsaigrid.Raft.Node.Elections.{send_append}

-- The peers that are known to hold the entry at an index.
unfoldable pub replicas : List ℕ → List ℕ → ℕ → ℕ
replicas match_index [] idx = 0
replicas match_index (p ∷ ps) idx =
    let rest = replicas match_index ps idx in
    if leb idx (get_or match_index p 0) then suc rest else rest

unfoldable pub can_commit : RaftNode → ℕ → Bool
can_commit n idx =
    (term_at n.log idx == n.current_term) && leb (majority n) (replicas n.match_index n.peers idx)

-- `for idx in (commit_index + 1..=last).rev()`, with `k` indices left above the commit index.
unfoldable pub scan_commit : RaftNode → ℕ → ℕ
scan_commit n zero = n.commit_index
scan_commit n (suc k) =
    let rest = scan_commit n k in
    if can_commit n (n.commit_index + suc k) then n.commit_index + suc k else rest

unfoldable pub advance_commit : RaftNode → RaftNode
advance_commit n = record n { commit_index = scan_commit n (last_index n.log - n.commit_index) }

-- The leader's own entry, as `propose` builds it.
unfoldable pub next_entry : RaftNode → List ℕ → Entry
next_entry n command = record {
  term = n.current_term;
  index = add64 (last_index n.log) 1;
  command = command;
}

unfoldable pub add_entry : RaftNode → Entry → RaftNode
add_entry n e = record n { log = append n.log e; match_index = set n.match_index n.id e.index }

unfoldable pub propose : RaftNode → List ℕ → RaftNode × Option ℕ
propose n command =
    if is_leader n
    then (advance_commit (add_entry n (next_entry n command)), some (next_entry n command).index)
    else (n, none)

-- One round of the loop over the entries of an AppendEntries.
unfoldable pub store_entry : RaftLog → Entry → RaftLog
store_entry log e =
    if leb e.index log.snapshot_index
    then log
    else if (term_at log e.index == e.term) && leb e.index (last_index log)
    then log
    else append (truncate_from log e.index) e

-- The whole loop, with the index of the last entry that it saw.
unfoldable pub store_entries : RaftLog → ℕ → List Entry → RaftLog × ℕ
store_entries log idx [] = (log, idx)
store_entries log idx (e ∷ es) = store_entries (store_entry log e) e.index es

unfoldable pub prev_matches : RaftLog → ℕ → ℕ → Bool
prev_matches log prev_log_index prev_log_term =
    (prev_log_index == 0)
    || (leb prev_log_index log.snapshot_index || (term_at log prev_log_index == prev_log_term))

-- What an AppendEntries of a valid leader does to the node before the log is looked at.
unfoldable pub follow : RaftNode → ℕ → RaftNode
follow n leader = reset_election_timeout (record n { role = follower; leader_id = some leader })

-- The log and the commit index once the previous entry agrees.
unfoldable pub accept : RaftNode → ℕ → List Entry → ℕ → RaftNode × ℕ
accept n prev_log_index entries leader_commit =
    let (log, idx) = store_entries n.log prev_log_index entries in
    (
      record n {
        log = log;
        commit_index =
            if ltb n.commit_index leader_commit
            then min leader_commit (last_index log)
            else n.commit_index;
      },
      max idx prev_log_index,
    )

unfoldable pub on_append : RaftNode → ℕ → ℕ → ℕ → ℕ → List Entry → ℕ → Outcome
on_append n term leader prev_log_index prev_log_term entries leader_commit =
    let taken = accept (follow n leader) prev_log_index entries leader_commit in
    if leb n.current_term term
    then (if prev_matches n.log prev_log_index prev_log_term
        then (taken.0, (leader, append_entries_resp n.current_term true taken.1) ∷ [])
        else (follow n leader, (leader, append_entries_resp n.current_term false 0) ∷ []))
    else (n, (leader, append_entries_resp n.current_term false 0) ∷ [])

-- The bookkeeping of an acknowledgement, before the commit rule.
unfoldable pub acknowledge : RaftNode → ℕ → ℕ → RaftNode
acknowledge n from match_index =
    let reached = max (get_or n.match_index from 0) match_index in
    let contacted = set n.contacted from true in
    record n {
      match_index = set n.match_index from reached;
      next_index = set n.next_index from (add64 reached 1);
      contacted = contacted;
      since_majority = if leb (majority n) (count_true contacted) then 0 else n.since_majority;
    }

-- Back off by one, never below 1.
unfoldable pub back_off : RaftNode → ℕ → RaftNode
back_off n from = record n {
  next_index = set n.next_index from (max (get_or n.next_index from 0 - 1) 1);
}

unfoldable pub on_append_resp : RaftNode → ℕ → ℕ → Bool → ℕ → Outcome
on_append_resp n from term success match_index =
    if is_leader n && (term == n.current_term)
    then if success
      then (advance_commit (acknowledge n from match_index), [])
      else (back_off n from, send_append (back_off n from) from ∷ [])
    else (n, [])

-- `while last_applied < commit_index`, with `k` rounds left.
unfoldable pub drain : RaftLog → ℕ → ℕ → List (ℕ × List ℕ)
drain log applied zero = []
drain log applied (suc k) =
    let rest = drain log (suc applied) k in
    elim (command_at log (suc applied)) [ none ↦ rest | some cmd ↦ (suc applied, cmd) ∷ rest ]

unfoldable pub take_committed : RaftNode → RaftNode × List (ℕ × List ℕ)
take_committed n = (
  record n { last_applied = max n.last_applied n.commit_index },
  drain n.log n.last_applied (n.commit_index - n.last_applied),
)

-- `peers.iter().map(|&p| match_index[p]).min()`.
unfoldable pub least_match : List ℕ → List ℕ → Option ℕ
least_match match_index [] = none
least_match match_index (p ∷ ps) = elim (least_match match_index ps) [
  | none ↦ some (get_or match_index p 0)
  | some m ↦ some (min (get_or match_index p 0) m)
]

abbrev or_zero : Option ℕ → ℕ
or_zero none = 0
or_zero (some m) = m

unfoldable pub safe_compact_index : RaftNode → ℕ
safe_compact_index n =
    if is_leader n
    then min (or_zero (least_match n.match_index n.peers)) n.last_applied
    else n.last_applied

unfoldable pub maybe_compact : RaftNode → ℕ → RaftNode
maybe_compact n keep =
    if leb (length n.log.entries) keep
    then n
    else record n { log = compact n.log (safe_compact_index n) }
