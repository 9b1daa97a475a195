-- ===== src/Raft/Node/Elections.antt =====
-- Elections: the vote handlers of crates/raft/src/lib.rs.
use bonsaigrid.Base.{
  ℕ, Option, none, some, Bool, true, false, ◌&&◌, ◌||◌, List, [], ◌∷◌, ◌++◌, map, get_or, set, ltb,
  leb, ◌==◌, if◌then◌else◌, add64, sub64,
}
use bonsaigrid.Raft.Log.{RaftLog, last_index, last_term, term_at, entries_from, persist_term_vote}
use bonsaigrid.Raft.Node.{
  RaftMsg, request_vote, request_vote_resp, append_entries, follower, candidate, leader, RaftNode,
  Outcome, is_role_candidate, majority, count_true,
}
use bonsaigrid.Raft.Node.Timers.{reset_election_timeout}

-- `v.iter_mut().for_each(|b| *b = false)`.
abbrev pub clear : List Bool → List Bool
clear bs = map (λ _. false) bs

unfoldable pub become_follower : RaftNode → ℕ → RaftNode
become_follower n term = reset_election_timeout (record n {
  current_term = term;
  voted_for = none;
  role = follower;
  leader_id = none;
  log = persist_term_vote n.log term none;
})

unfoldable pub send_append : RaftNode → ℕ → ℕ × RaftMsg
send_append n peer =
    let next = get_or n.next_index peer 0 in
    let prev = sub64 next 1 in
    (
      peer,
      append_entries n.current_term n.id prev (term_at n.log prev) (entries_from n.log next)
          n.commit_index,
    )

-- One message to each peer but the node itself, in the order of `peers`.
unfoldable pub to_others : ℕ → (ℕ → ℕ × RaftMsg) → List ℕ → List (ℕ × RaftMsg)
to_others self make [] = []
to_others self make (p ∷ ps) =
    let rest = to_others self make ps in if p == self then rest else make p ∷ rest

unfoldable pub broadcast_append : RaftNode → List (ℕ × RaftMsg)
broadcast_append n = to_others n.id (send_append n) n.peers

-- `for p in &self.peers { v[*p] = x; }`.
unfoldable pub set_all : List ℕ → List ℕ → ℕ → List ℕ
set_all v [] x = v
set_all v (p ∷ ps) x = set_all (set v p x) ps x

-- What winning the election writes.
unfoldable pub take_office : RaftNode → RaftNode
take_office n =
    let last = last_index n.log in
    let contacted = set (clear n.contacted) n.id true in
    record n {
      role = leader;
      leader_id = some n.id;
      next_index = set_all n.next_index n.peers (add64 last 1);
      match_index = set (set_all n.match_index n.peers 0) n.id last;
      contacted = contacted;
      since_majority = if leb (majority n) (count_true contacted) then 0 else n.election_timeout;
      elapsed = n.heartbeat_period;
    }

unfoldable pub wins : RaftNode → Bool
wins n = is_role_candidate n.role && leb (majority n) (count_true n.votes)

unfoldable pub maybe_become_leader : RaftNode → Outcome
maybe_become_leader n =
    if wins n then (take_office n, broadcast_append (take_office n)) else (n, [])

-- The node as a candidate of the next term, before the requests go out.
unfoldable pub stand : RaftNode → RaftNode
stand n =
    let term = add64 n.current_term 1 in
    reset_election_timeout (record n {
      current_term = term;
      role = candidate;
      voted_for = some n.id;
      leader_id = none;
      log = persist_term_vote n.log term (some n.id);
      votes = set (clear n.votes) n.id true;
    })

unfoldable pub ask_vote : RaftNode → ℕ → ℕ × RaftMsg
ask_vote c p = (p, request_vote c.current_term c.id (last_index c.log) (last_term c.log))

unfoldable pub start_election : RaftNode → Outcome
start_election n =
    let c = stand n in
    let won = maybe_become_leader c in (won.0, to_others c.id (ask_vote c) c.peers ++ won.1)

-- The candidate's log is at least as up to date as this node's.
unfoldable pub up_to_date : RaftLog → ℕ → ℕ → Bool
up_to_date log last_log_index last_log_term =
    ltb (last_term log) last_log_term
    || ((last_log_term == last_term log) && leb (last_index log) last_log_index)

-- `voted_for.is_none() || voted_for == Some(candidate)`.
abbrev pub can_vote : Option ℕ → ℕ → Bool
can_vote none c = true
can_vote (some v) c = v == c

unfoldable pub grant_vote : RaftNode → ℕ → RaftNode
grant_vote n cand =
    reset_election_timeout
      (record n { voted_for = some cand; log = persist_term_vote n.log n.current_term (some cand) })

unfoldable pub grants : RaftNode → ℕ → ℕ → ℕ → ℕ → Bool
grants n term cand last_log_index last_log_term =
    leb n.current_term term
    && (can_vote n.voted_for cand && up_to_date n.log last_log_index last_log_term)

unfoldable pub on_request_vote : RaftNode → ℕ → ℕ → ℕ → ℕ → Outcome
on_request_vote n term cand last_log_index last_log_term =
    if grants n term cand last_log_index last_log_term
    then (grant_vote n cand, (cand, request_vote_resp n.current_term true) ∷ [])
    else (n, (cand, request_vote_resp n.current_term false) ∷ [])

unfoldable pub on_vote_resp : RaftNode → ℕ → ℕ → Bool → Outcome
on_vote_resp n from term granted =
    if is_role_candidate n.role && (term == n.current_term) && granted
    then maybe_become_leader (record n { votes = set n.votes from true })
    else (n, [])
