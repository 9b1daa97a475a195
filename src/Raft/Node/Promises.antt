-- ===== src/Raft/Node/Promises.antt =====
-- What a node of crates/raft/src/lib.rs keeps to once it has voted.
use bonsaigrid.Base.{ℕ, ◌+◌, ◌≤◌, ◌<◌, ◌≡◌, ◌⊎◌, inl, inr, some, arith, All, ℕ_discrete, u64_mod}
use bonsaigrid.Raft.Node.{RaftMsg, RaftNode, Outcome}
use bonsaigrid.Raft.Node.Handlers.{step, tick}
use bonsaigrid.Raft.Node.Moves.{IsMirrored, IsBacked, Moves}
use bonsaigrid.Raft.Node.Steps.{step-Moves, tick-Moves}

-- After a handler the term has not gone back, a vote of the same term still stands, the log holds
-- the term and the vote, and a granted vote that was sent is the vote that the node now has.
pub record KeepsVote (n : RaftNode) (c : ℕ) (r : Outcome) : Type 0 where
  pub forward : n.current_term ≤ r.0.current_term
  pub stands : (n.current_term < r.0.current_term) ⊎ (r.0.voted_for ≡ some c)
  pub recorded : IsMirrored r.0
  pub backed : All (IsBacked r.0) r.1

Moves-KeepsVote :
    {heard : ℕ → ℕ → Type 0} (n : RaftNode) (c : ℕ) (r : Outcome)
    → Moves heard n r.0 r.1
    → IsMirrored n
    → n.voted_for ≡ some c
    → KeepsVote n c r
Moves-KeepsVote n c r m h v = record {
  forward = m.term_le;
  stands = elim (ℕ_discrete r.0.current_term n.current_term) [
    | yes e ↦ inr (m.vote_kept c e v)
    | no ne ↦ inl (omega (arith, m.term_le, ne))
  ];
  recorded = m.mirrors h;
  backed = m.backed;
}

-- A node that has voted for `c` keeps that vote through any message from any sender until its term
-- grows: the term never goes back, the log records the term and the vote, and every vote that it
-- grants is for its term and for the candidate that it voted for.
pub step-KeepsVote :
    (n : RaftNode) (from : ℕ) (msg : RaftMsg) (c : ℕ)
    → IsMirrored n
    → n.voted_for ≡ some c
    → KeepsVote n c (step n from msg)
step-KeepsVote n from msg c = Moves-KeepsVote n c (step n from msg) (step-Moves n from msg)

-- A tick keeps the vote in the same way, while the term is below its largest value.
pub tick-KeepsVote :
    (n : RaftNode) (c : ℕ)
    → n.current_term + 1 < u64_mod
    → IsMirrored n
    → n.voted_for ≡ some c
    → KeepsVote n c (tick n)
tick-KeepsVote n c h = Moves-KeepsVote n c (tick n) (tick-Moves n h)
