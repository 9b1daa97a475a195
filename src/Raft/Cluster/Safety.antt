-- ===== src/Raft/Cluster/Safety.antt =====
-- Election safety of the group of nodes of crates/raft/src/lib.rs.
use bonsaigrid.Base.{
  Elem, ℕ, zero, suc, ◌+◌, ◌<◌, ◌≡◌, refl, subst, sym, ap, ◌∙◌, true, false, [], length, arith,
  length-replicate,
}
use bonsaigrid.Raft.Log.{RaftLog, empty}
use bonsaigrid.Raft.Node.{
  RaftMsg, request_vote, request_vote_resp, append_entries, append_entries_resp, RaftNode, Role,
  follower, candidate, leader, is_leader, is_role_leader, majority, count_true, max_peer,
}
use bonsaigrid.Raft.Node.Timers.{new, reset_election_timeout}
use bonsaigrid.Raft.Node.Moves.{IsActive, IsLeader, Moves, Silence}
use bonsaigrid.Raft.Node.Steps.{
  Heard, step-Moves, tick-Moves, propose-Moves, take_committed-Moves, maybe_compact-Moves,
}
use bonsaigrid.Raft.Cluster.{
  members, Cluster, Step, deliver, ticks, proposes, drains, compacts, restarts, Reach, here, next,
  initial,
}
use bonsaigrid.Raft.Cluster.Quorum.{quorums_meet, length-count_from, max_peer-count_from}
use bonsaigrid.Raft.Cluster.Invariant.{IsMember, ballot, Inv}
use bonsaigrid.Raft.Cluster.Preservation.{after-Inv}

votes-new :
    (size i seed : ℕ) (log : RaftLog)
    → 0 < size
    → length (new i (members size) log seed).votes ≡ size
unfolding new reset_election_timeout
votes-new zero i seed log h = elim h [ ]
votes-new (suc k) i seed log h =
    omega
      (arith, length-replicate (suc (max_peer (members (suc k)))) false, max_peer-count_from 0 k)

-- A restarted member knows the term and the vote of its log, and has no office.
restart-Moves :
    (size i seed : ℕ) (n : RaftNode) (log : RaftLog)
    → i < size
    → IsMember size i n
    → log.term ≡ n.log.term
    → log.vote ≡ n.log.vote
    → Moves Silence n (new i (members size) log seed) []
unfolding new reset_election_timeout
restart-Moves size i seed n log b l t v = record {
  same_id = sym l.is_id;
  same_peers = sym l.is_peers;
  same_size = votes-new size i seed log (omega arith) ∙ sym l.is_size;
  mirrors = λ _. record { term = refl; vote = refl };
  term_le = omega (arith, t, l.mirrored.term);
  vote_kept = λ c _ h. v ∙ l.mirrored.vote ∙ h;
  backed = tt;
  counted = λ x a _. absurd a;
  office = λ _ a. absurd a;
}

Heard-known :
    (size : ℕ) (s : Cluster) (from to : ℕ) (msg : RaftMsg)
    → Inv size s
    → Elem (record { from = from; to = to; msg = msg }) s.sent
    → (x t : ℕ) → Heard from msg x t
    → Elem (ballot x t to) s.ballots
Heard-known size s from to (request_vote_resp term granted) v h x t (e, k, g) = v.promised x t to (
    subst (λ p. Elem p s.sent)
      (λ i. record { from = sym e i; to = to; msg = request_vote_resp (sym k i) (g i) }) h)
Heard-known size s from to (request_vote _ _ _ _) v h x t k = absurd k
Heard-known size s from to (append_entries _ _ _ _ _ _) v h x t k = absurd k
Heard-known size s from to (append_entries_resp _ _ _) v h x t k = absurd k

silent : (s : Cluster) (i x t : ℕ) → Silence x t → Elem (ballot x t i) s.ballots
silent s i x t h = absurd h

Step-Inv : (size : ℕ) {s u : Cluster} → Step size s u → Inv size s → Inv size u
Step-Inv size {s} (deliver p h b) v =
    after-Inv size s p.to _ _ (Heard p.from p.msg) b v (step-Moves (s.nodes p.to) p.from p.msg)
      (Heard-known size s p.from p.to p.msg v h)
Step-Inv size {s} (ticks i b r) v =
    after-Inv size s i _ _ Silence b v (tick-Moves (s.nodes i) r) (silent s i)
Step-Inv size {s} (proposes i command b) v =
    after-Inv size s i _ _ Silence b v (propose-Moves (s.nodes i) command) (silent s i)
Step-Inv size {s} (drains i b) v =
    after-Inv size s i _ _ Silence b v (take_committed-Moves (s.nodes i)) (silent s i)
Step-Inv size {s} (compacts i keep b) v =
    after-Inv size s i _ _ Silence b v (maybe_compact-Moves (s.nodes i) keep) (silent s i)
Step-Inv size {s} (restarts i seed log b t o) v =
    after-Inv size s i _ _ Silence b v
      (restart-Moves size i seed (s.nodes i) log b (v.local i b) t o) (silent s i)

initial-Inv : (size : ℕ) (seeds : ℕ → ℕ) → Inv size (initial size seeds)
unfolding initial new reset_election_timeout
initial-Inv size seeds = record {
  local = λ i b. record {
    is_id = refl;
    is_peers = refl;
    is_size = votes-new size i (seeds i) empty (omega arith);
    mirrored = record { term = refl; vote = refl };
    elected = λ a. absurd a;
  };
  stands = λ v t c b h. absurd h;
  single = λ v t c d b h k. absurd h;
  voters = λ v t c h. absurd h;
  recorded = λ i c b h. cc;
  promised = λ v t c h. absurd h;
  counts = λ i v b a h. absurd a;
}

Reach-Inv : (size : ℕ) {s u : Cluster} → Reach size s u → Inv size s → Inv size u
Reach-Inv size here v = v
Reach-Inv size (next r st) v = Step-Inv size st (Reach-Inv size r v)

IsLeader-eq : (r : Role) → is_role_leader r ≡ true → IsLeader r
IsLeader-eq follower h = cc
IsLeader-eq candidate h = cc
IsLeader-eq leader h = tt

IsActive-IsLeader : (r : Role) → IsLeader r → IsActive r
IsActive-IsLeader leader h = tt
IsActive-IsLeader follower h = absurd h
IsActive-IsLeader candidate h = absurd h

two_majorities :
    {i j : ℕ} (size : ℕ) (n n' : RaftNode)
    → IsMember size i n
    → IsMember size j n'
    → IsLeader n.role
    → IsLeader n'.role
    → length n.votes < count_true n.votes + count_true n'.votes
unfolding majority
two_majorities size n n' m m' l l' = omega (
  arith,
  m.elected l,
  m'.elected l',
  m.is_size,
  ap length m.is_peers,
  ap length m'.is_peers,
  length-count_from 0 size,
)

leaders_agree :
    (size : ℕ) (s : Cluster) (i j : ℕ)
    → Inv size s
    → i < size
    → j < size
    → IsLeader (s.nodes i).role
    → IsLeader (s.nodes j).role
    → (s.nodes i).current_term ≡ (s.nodes j).current_term
    → i ≡ j
leaders_agree size s i j v b b' l l' e =
    let m = v.local i b in
    let m' = v.local j b' in
    let (x, p, q) =
      quorums_meet (s.nodes i).votes (s.nodes j).votes (m.is_size ∙ sym m'.is_size)
        (two_majorities size (s.nodes i) (s.nodes j) m m' l l') in
    let c = v.counts i x b (IsActive-IsLeader _ l) p in
    let c' = v.counts j x b' (IsActive-IsLeader _ l') q in
    v.single x (s.nodes i).current_term i j (v.voters x _ i c) c
      (subst (λ t. Elem (ballot x t j) s.ballots) (sym e) c')

-- In every state that a group of any size reaches from fresh members, whatever packets are lost,
-- delayed, repeated or reordered and whichever members restart, two members that lead in one term
-- are the same member. The terms stay below 2^64.
pub election_safety :
    (size : ℕ) (seeds : ℕ → ℕ) {s : Cluster} (i j : ℕ)
    → Reach size (initial size seeds) s
    → i < size
    → j < size
    → is_leader (s.nodes i) ≡ true
    → is_leader (s.nodes j) ≡ true
    → (s.nodes i).current_term ≡ (s.nodes j).current_term
    → i ≡ j
unfolding is_leader
election_safety size seeds {s} i j r b b' l l' e =
    leaders_agree size s i j (Reach-Inv size r (initial-Inv size seeds)) b b' (IsLeader-eq _ l)
      (IsLeader-eq _ l') e
