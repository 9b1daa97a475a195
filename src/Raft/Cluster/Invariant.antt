-- ===== src/Raft/Cluster/Invariant.antt =====
-- What every reachable state of a group keeps: a member's votes are in the history, a promise on
-- the wire is in the history, and so is every ballot that a candidate or leader counts.
use bonsaigrid.Base.{
  Elem, ℕ, ◌≤◌, ◌<◌, ◌≡◌, subst, sym, ap, ◌⊎◌, inl, inr, Option, none, some, true, false, List, [],
  ◌∷◌, length, get_or, All,
}
use bonsaigrid.Raft.Node.{RaftMsg, request_vote_resp, RaftNode, majority, count_true}
use bonsaigrid.Raft.Node.Moves.{IsActive, IsLeader, IsMirrored, IsBacked}
use bonsaigrid.Raft.Cluster.{members, Packet, Ballot, Cluster, cast, packets}

pub record IsMember (size i : ℕ) (n : RaftNode) : Type 0 where
  pub is_id : n.id ≡ i
  pub is_peers : n.peers ≡ members size
  pub is_size : length n.votes ≡ size
  pub mirrored : IsMirrored n
  pub elected : IsLeader n.role → majority n ≤ count_true n.votes

abbrev pub ballot : ℕ → ℕ → ℕ → Ballot
ballot v t c = record { voter = v; term = t; cand = c }

-- The member still stands by a vote of its term, or has left that term behind.
abbrev pub Stands : RaftNode → ℕ → ℕ → Type 0
Stands n t c = (t < n.current_term) ⊎ ((t ≡ n.current_term) × (n.voted_for ≡ some c))

pub record Inv (size : ℕ) (s : Cluster) : Type 0 where
  pub local : (i : ℕ) → i < size → IsMember size i (s.nodes i)
  pub stands : (v t c : ℕ) → v < size → Elem (ballot v t c) s.ballots → Stands (s.nodes v) t c
  pub single :
      (v t c d : ℕ)
      → v < size
      → Elem (ballot v t c) s.ballots
      → Elem (ballot v t d) s.ballots
      → c ≡ d
  pub voters : (v t c : ℕ) → Elem (ballot v t c) s.ballots → v < size
  pub recorded :
      (i c : ℕ)
      → i < size
      → (s.nodes i).voted_for ≡ some c
      → Elem (ballot i (s.nodes i).current_term c) s.ballots
  pub promised :
      (v t c : ℕ)
      → Elem (record { from = v; to = c; msg = request_vote_resp t true }) s.sent
      → Elem (ballot v t c) s.ballots
  pub counts :
      (i v : ℕ)
      → i < size
      → IsActive (s.nodes i).role
      → get_or (s.nodes i).votes v false ≡ true
      → Elem (ballot v (s.nodes i).current_term i) s.ballots

-- A ballot of the new history is an old one, or the vote that `n` stands by.
pub cast-cases :
    (i t : ℕ) (o : Option ℕ) (bs : List Ballot) (b : Ballot)
    → Elem b (cast i t o bs)
    → Elem b bs ⊎ ((b.voter ≡ i) × (b.term ≡ t) × (o ≡ some b.cand))
cast-cases i t none bs b h = inl h
cast-cases i t (some c) bs b (inl e) = inr (
  ap (λ (x : Ballot). x.voter) e,
  ap (λ (x : Ballot). x.term) e,
  ap (λ (x : Ballot). some x.cand) (sym e),
)
cast-cases i t (some c) bs b (inr h) = inl h

pub cast-old :
    (i t : ℕ) (o : Option ℕ) (bs : List Ballot) (b : Ballot) → Elem b bs → Elem b (cast i t o bs)
cast-old i t none bs b h = h
cast-old i t (some c) bs b h = inr h

pub cast-new :
    (i t c : ℕ) (o : Option ℕ) (bs : List Ballot) → o ≡ some c → Elem (ballot i t c) (cast i t o bs)
cast-new i t c none bs e = cc
cast-new i t c (some d) bs e = inl (cc e)

-- A promise on the wire is an old one, or one that `n` made just now.
pub packets-cases :
    (i v t c : ℕ) (n : RaftNode) (out : List (ℕ × RaftMsg)) (ps : List Packet)
    → All (IsBacked n) out
    → Elem (record { from = v; to = c; msg = request_vote_resp t true }) (packets i out ps)
    → Elem (record { from = v; to = c; msg = request_vote_resp t true }) ps
      ⊎ ((v ≡ i) × (t ≡ n.current_term) × (n.voted_for ≡ some c))
packets-cases i v t c n [] ps b h = inl h
packets-cases i v t c n ((to, m) ∷ out) ps b (inr h) = packets-cases i v t c n out ps b.1 h
packets-cases i v t c n ((to, m) ∷ out) ps b (inl e) =
    let held = subst (λ (p : Packet). IsBacked n (p.to, p.msg)) (sym e) b.0 in
    inr (ap (λ (p : Packet). p.from) e, held.0, held.1)
