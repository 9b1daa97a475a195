-- ===== src/Raft/Node/Timers.antt =====
-- The seeded timers of crates/raft/src/lib.rs, and the construction of a node.
use bonsaigrid.Base.{
  ℕ, suc, ◌*◌, ◌/◌, ◌%◌, ◌^◌, ◌≤◌, ◌<◌, ◌≡◌, none, false, List, replicate, ltb, max, bit_xor,
  bit_or, add64, mul64, arith, u64_mod, Bool, ◌&&◌,
}
use bonsaigrid.Raft.Log.{RaftLog}
use bonsaigrid.Raft.Node.{RaftNode, follower, max_peer, is_leader}

-- `z ^ (z >> k)`.
abbrev xor_shr : ℕ → ℕ → ℕ
xor_shr z k = bit_xor z (z / 2 ^ k)

-- The output of splitmix64 at a state.
unfoldable pub splitmix : ℕ → ℕ
splitmix s =
    let a = mul64 (xor_shr s 30) 0xBF58476D1CE4E5B9 in
    let b = mul64 (xor_shr a 27) 0x94D049BB133111EB in xor_shr b 31

unfoldable pub next_rand : RaftNode → ℕ × RaftNode
next_rand n = let s = add64 n.rng 0x9E3779B97F4A7C15 in (splitmix s, record n { rng = s })

unfoldable pub reset_election_timeout : RaftNode → RaftNode
unfolding next_rand
reset_election_timeout n =
    let base = mul64 10 (max n.heartbeat_period 1) in
    let (r, n') = next_rand n in record n' { election_timeout = add64 base (r % base); elapsed = 0 }

unfoldable pub set_heartbeat_period : RaftNode → ℕ → RaftNode
set_heartbeat_period n ticks = reset_election_timeout (record n { heartbeat_period = max ticks 1 })

-- `seed.wrapping_mul(..) | 1`.
unfoldable pub new : ℕ → List ℕ → RaftLog → ℕ → RaftNode
new id peers log seed =
    let n = suc (max_peer peers) in
    reset_election_timeout (record {
      id = id;
      peers = peers;
      role = follower;
      current_term = log.term;
      voted_for = log.vote;
      log = log;
      commit_index = 0;
      last_applied = 0;
      leader_id = none;
      votes = replicate n false;
      next_index = replicate n 1;
      match_index = replicate n 0;
      elapsed = 0;
      election_timeout = 0;
      heartbeat_period = 1;
      contacted = replicate n false;
      since_majority = 0;
      rng = bit_or (mul64 seed 0x9E3779B97F4A7C15) 1;
    })

unfoldable pub has_read_lease : RaftNode → Bool
has_read_lease n = is_leader n && ltb n.since_majority n.election_timeout

-- The timeout that is drawn lies in `[base, 2 * base)` for `base` ten heartbeat periods, whatever
-- the random state, and the count of elapsed ticks is back at 0.
pub election_timeout_range :
    (n : RaftNode)
    → 20 * max n.heartbeat_period 1 < u64_mod
    → let base = 10 * max n.heartbeat_period 1 in
      (base ≤ (reset_election_timeout n).election_timeout)
      × ((reset_election_timeout n).election_timeout < 2 * base)
      × ((reset_election_timeout n).elapsed ≡ 0)
unfolding reset_election_timeout add64 mul64
election_timeout_range n h = omega arith
