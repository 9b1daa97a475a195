-- ===== src/Raft/Node/Steps.antt =====
-- `Moves` for the whole handlers of crates/raft/src/lib.rs: an election, an append, a message and
-- a tick.
use bonsaigrid.Base.{
  ℕ, ◌+◌, ◌<◌, ◌≡◌, min, u64_max, refl, subst, sym, ◌⊎◌, inl, inr, Bool, true, false, ◌&&◌, List,
  [], length, length-set, get_or, set, ltb, leb, ◌==◌, add64, arith, Bool-cases, u64_mod, ltb→lt,
}
use bonsaigrid.Raft.Log.{RaftLog, append, compact, fold_prefix}
use bonsaigrid.Raft.Log.Contiguous.{compact_cases}
use bonsaigrid.Raft.Node.{
  RaftMsg, request_vote, request_vote_resp, append_entries, append_entries_resp, candidate,
  RaftNode, majority, is_role_candidate, is_leader, msg_term,
}
use bonsaigrid.Raft.Node.Elections.{
  to_others, maybe_become_leader, stand, ask_vote, start_election, on_vote_resp,
}
use bonsaigrid.Raft.Node.Replication.{
  propose, add_entry, take_committed, maybe_compact, safe_compact_index, advance_commit,
}
use bonsaigrid.Raft.Node.Handlers.{
  dispatch, catch_up, step, new_round, leader_tick, follower_tick, tick,
}
use bonsaigrid.Raft.Node.Moves.{
  IsActive, IsLeader, Source, Moves, Silence, SameBallot-refl, SameBallot-Moves, Moves-trans,
  Moves-send,
}
use bonsaigrid.Raft.Node.Votes.{
  nothing_sent, to_others-IsBacked, broadcast_append-IsBacked, is_candidate_eq,
  become_follower-Moves, maybe_become_leader-Moves, on_request_vote-Moves, get_or-set-true,
  stand-Moves,
}
use bonsaigrid.Raft.Node.Appends.{on_append-Moves, on_append_resp-Moves}

abbrev quiet : (v t : ℕ) → Silence v t → Silence v t
quiet v t x = x

pub start_election-Moves :
    (n : RaftNode)
    → n.current_term + 1 < u64_mod
    → Moves Silence n (start_election n).0 (start_election n).1
unfolding start_election
start_election-Moves n h =
    let c = stand n in
    let won = maybe_become_leader c in
    Moves-send n won.0 won.1 (to_others c.id (ask_vote c) c.peers)
      (Moves-trans quiet quiet n c won.0 won.1 (stand-Moves n h) (maybe_become_leader-Moves c))
      (to_others-IsBacked won.0 c.id (ask_vote c) c.peers (unfold ask_vote in λ p. tt))

-- The ballot that a granted vote brings.
abbrev pub Ballot : ℕ → ℕ → Bool → ℕ → ℕ → Type 0
Ballot from term granted v t = (v ≡ from) × (t ≡ term) × (granted ≡ true)

count_ballot-Moves :
    (n : RaftNode) (from term : ℕ) (granted : Bool)
    → n.role ≡ candidate
    → term ≡ n.current_term
    → granted ≡ true
    → Moves (Ballot from term granted) n (record n { votes = set n.votes from true }) []
unfolding majority
count_ballot-Moves n from term granted r e g = record {
  same_id = refl;
  same_peers = refl;
  same_size = length-set n.votes from true;
  mirrors = λ k. record { term = k.term; vote = k.vote };
  term_le = omega arith;
  vote_kept = λ c _ k. k;
  backed = tt;
  counted = λ v a k. origin v a (get_or-set-true n.votes from v k);
  office = λ _ a. absurd (subst IsLeader r a);
}
  where
    origin :
        (v : ℕ)
        → IsActive n.role
        → (v ≡ from) ⊎ (get_or n.votes v false ≡ true)
        → Source (Ballot from term granted) n (record n { votes = set n.votes from true }) v
    origin v a (inl p) = inr (inr (p, sym e, g))
    origin v a (inr p) = inr (inl (a, refl, p))

pub on_vote_resp-Moves :
    (n : RaftNode) (from term : ℕ) (granted : Bool)
    → let r = on_vote_resp n from term granted in Moves (Ballot from term granted) n r.0 r.1
unfolding on_vote_resp
on_vote_resp-Moves n from term granted =
    elim (Bool-cases (is_role_candidate n.role && (term == n.current_term) && granted)) [
      | inl e ↦
          let k : RaftNode = record n { votes = set n.votes from true } in
          let r = maybe_become_leader k in
          rw e (
            Moves-trans (λ v t x. x) (λ v t x. absurd x) n k r.0 r.1
              (count_ballot-Moves n from term granted (is_candidate_eq n.role (ground (arith, e)))
                (ground (arith, e)) (ground (arith, e)))
              (maybe_become_leader-Moves k))
      | inr e ↦ rw e (SameBallot-Moves n n [] (SameBallot-refl n) (inl refl) tt)
    ]

-- The ballots that a message names.
abbrev pub Heard : ℕ → RaftMsg → ℕ → ℕ → Type 0
Heard from (request_vote_resp term granted) = Ballot from term granted
Heard from (request_vote _ _ _ _) = Silence
Heard from (append_entries _ _ _ _ _ _) = Silence
Heard from (append_entries_resp _ _ _) = Silence

dispatch-Moves :
    (n : RaftNode) (from : ℕ) (msg : RaftMsg)
    → Moves (Heard from msg) n (dispatch n from msg).0 (dispatch n from msg).1
unfolding dispatch
dispatch-Moves n from (request_vote term cand lli llt) = on_request_vote-Moves n term cand lli llt
dispatch-Moves n from (request_vote_resp term granted) = on_vote_resp-Moves n from term granted
dispatch-Moves n from (append_entries term lead pli plt es commit) =
    on_append-Moves n term lead pli plt es commit
dispatch-Moves n from (append_entries_resp term success idx) =
    on_append_resp-Moves n from term success idx

catch_up-Moves : (n : RaftNode) (msg : RaftMsg) → Moves Silence n (catch_up n msg) []
unfolding catch_up
catch_up-Moves n msg = elim (Bool-cases (ltb n.current_term (msg_term msg))) [
  | inl e ↦ rw e (become_follower-Moves n (msg_term msg) (ltb→lt _ _ e))
  | inr e ↦ rw e (nothing_sent n)
]

-- Whatever message arrives, from whomever.
pub step-Moves :
    (n : RaftNode) (from : ℕ) (msg : RaftMsg)
    → Moves (Heard from msg) n (step n from msg).0 (step n from msg).1
unfolding step
step-Moves n from msg =
    let k = catch_up n msg in
    let r = dispatch k from msg in
    Moves-trans (λ v t x. absurd x) (λ v t x. x) n k r.0 r.1 (catch_up-Moves n msg)
      (dispatch-Moves k from msg)

leader_tick-Moves : (n : RaftNode) → Moves Silence n (leader_tick n).0 (leader_tick n).1
unfolding leader_tick
leader_tick-Moves n =
    let m : RaftNode = record n { since_majority = min (n.since_majority + 1) u64_max } in
    elim (Bool-cases (leb n.heartbeat_period n.elapsed)) [
      | inl e ↦ rw e (
          SameBallot-Moves n (new_round m) _ (unfold new_round in ground arith)
            (inl (unfold new_round in refl)) (broadcast_append-IsBacked (new_round m)))
      | inr e ↦ rw e (SameBallot-Moves n m [] (ground arith) (inl refl) tt)
    ]

follower_tick-Moves :
    (n : RaftNode)
    → n.current_term + 1 < u64_mod
    → Moves Silence n (follower_tick n).0 (follower_tick n).1
unfolding follower_tick
follower_tick-Moves n h = elim (Bool-cases (leb n.election_timeout n.elapsed)) [
  | inl e ↦ rw e (start_election-Moves n h)
  | inr e ↦ rw e (nothing_sent n)
]

pub tick-Moves :
    (n : RaftNode) → n.current_term + 1 < u64_mod → Moves Silence n (tick n).0 (tick n).1
unfolding tick
tick-Moves n h =
    let m : RaftNode = record n { elapsed = add64 n.elapsed 1 } in
    let aged : Moves Silence n m [] = SameBallot-Moves n m [] (ground arith) (inl refl) tt in
    elim (Bool-cases (is_leader m)) [
      | inl e ↦ rw e (
          Moves-trans quiet quiet n m (leader_tick m).0 (leader_tick m).1 aged
            (leader_tick-Moves m))
      | inr e ↦ rw e (
          Moves-trans quiet quiet n m (follower_tick m).0 (follower_tick m).1 aged
            (follower_tick-Moves m h))
    ]

pub propose-Moves : (n : RaftNode) (command : List ℕ) → Moves Silence n (propose n command).0 []
unfolding propose
propose-Moves n command = elim (Bool-cases (is_leader n)) [
  | inl e ↦ rw e (
      SameBallot-Moves n _ [] (unfold advance_commit add_entry append in ground arith)
        (inl (unfold advance_commit add_entry in refl)) tt)
  | inr e ↦ rw e (nothing_sent n)
]

pub take_committed-Moves : (n : RaftNode) → Moves Silence n (take_committed n).0 []
unfolding take_committed
take_committed-Moves n = SameBallot-Moves n _ [] (ground arith) (inl refl) tt

compact-vote :
    (log : RaftLog) (up_to : ℕ)
    → ((compact log up_to).term ≡ log.term) × ((compact log up_to).vote ≡ log.vote)
unfolding fold_prefix
compact-vote log up_to =
    compact_cases (λ m. (m.term ≡ log.term) × (m.vote ≡ log.vote)) log up_to (refl, refl)
      (λ _ _. (refl, refl))

pub maybe_compact-Moves : (n : RaftNode) (keep : ℕ) → Moves Silence n (maybe_compact n keep) []
unfolding maybe_compact
maybe_compact-Moves n keep = elim (Bool-cases (leb (length n.log.entries) keep)) [
  | inl e ↦ rw e (nothing_sent n)
  | inr e ↦ rw e (
      SameBallot-Moves n _ [] (ground (arith, compact-vote n.log (safe_compact_index n))) (inl refl)
        tt)
]
