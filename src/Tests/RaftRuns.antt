-- ===== src/Tests/RaftRuns.antt =====
-- Three nodes of crates/raft/src/lib.rs elect one of them, and the theorems about nodes and groups
-- at such states.
use bonsaigrid.Base.{
  ℕ, zero, suc, ◌+◌, ◌≡◌, refl, inl, Bool, true, ◌&&◌, ltb, arith, u64_mod, add64, mul64,
}
use bonsaigrid.Raft.Log.{last_index, last_term, persist_term_vote}
use bonsaigrid.Raft.Node.{
  request_vote, request_vote_resp, is_leader, majority, count_true, msg_term, max_peer,
}
use bonsaigrid.Raft.Node.Timers.{new, reset_election_timeout, next_rand, splitmix}
use bonsaigrid.Raft.Node.Elections.{
  become_follower, send_append, to_others, broadcast_append, set_all, take_office, wins,
  maybe_become_leader, stand, ask_vote, start_election, grant_vote, grants, up_to_date,
  on_request_vote, on_vote_resp,
}
use bonsaigrid.Raft.Node.Handlers.{dispatch, catch_up, step, leader_tick, follower_tick, tick}
use bonsaigrid.Raft.Cluster.{Packet, Cluster, after, deliver, ticks, Reach, here, next, initial}
use bonsaigrid.Raft.Cluster.Safety.{election_safety}

abbrev seeds : ℕ → ℕ
seeds i = i + 1

after_tick : Cluster → Cluster
after_tick s = after s 0 (tick (s.nodes 0)).0 (tick (s.nodes 0)).1

ticking : ℕ → Cluster → Cluster
ticking zero s = s
ticking (suc k) s = ticking k (after_tick s)

abbrev first_group : Cluster
first_group = initial 3 seeds

-- No tick of the run brings the term to its end.
in_terms : ℕ → Cluster → Bool
in_terms zero s = true
in_terms (suc k) s = ltb ((s.nodes 0).current_term + 1) u64_mod && in_terms k (after_tick s)

ticking-Reach :
    (k : ℕ) (s t : Cluster) → Reach 3 s t → in_terms k t ≡ true → Reach 3 s (ticking k t)
unfolding ticking in_terms after_tick
ticking-Reach zero s t r h = r
ticking-Reach (suc k) s t r h =
    ticking-Reach k s (after_tick t) (next r (ticks 0 (omega arith) (ground (arith, h))))
      (ground (arith, h))

-- Member 0 after its election timeout of ten ticks.
standing : Cluster
unfolding ticking after_tick initial new reset_election_timeout next_rand splitmix tick
    follower_tick leader_tick start_election stand maybe_become_leader wins after is_leader majority
    count_true max_peer add64 mul64 persist_term_vote to_others ask_vote last_index last_term
standing = ticking 10 first_group

request : Packet
request = record { from = 0; to = 1; msg = request_vote 1 0 0 0 }

answered : Cluster
unfolding step catch_up become_follower msg_term dispatch on_request_vote grants up_to_date
    grant_vote on_vote_resp take_office broadcast_append send_append set_all
answered =
    after standing 1 (step (standing.nodes 1) 0 (request_vote 1 0 0 0)).0
      (step (standing.nodes 1) 0 (request_vote 1 0 0 0)).1

elected : Cluster
elected =
    after answered 0 (step (answered.nodes 0) 1 (request_vote_resp 1 true)).0
      (step (answered.nodes 0) 1 (request_vote_resp 1 true)).1

elected_leader : is_leader (elected.nodes 0) ≡ true
unfolding elected answered standing
elected_leader = refl

in-Reach : Reach 3 first_group elected
unfolding elected answered standing in_terms
in-Reach =
    next
      (next (ticking-Reach 10 first_group first_group here refl) (
        deliver (record { from = 0; to = 1; msg = request_vote 1 0 0 0 }) (inl refl) (omega arith)))
      (deliver (record { from = 1; to = 0; msg = request_vote_resp 1 true }) (inl refl)
        (omega arith))

election_safety_example : ◌≡◌ {A = ℕ} 0 0
election_safety_example =
    election_safety 3 seeds {s = elected} 0 0 in-Reach (omega arith) (omega arith) elected_leader
      elected_leader refl
