-- ===== src/Raft/Node/Moves.antt =====
-- What one handler of crates/raft/src/lib.rs may do to the term, the vote, the role and the
-- ballots of a node, and what it may promise to others.
use bonsaigrid.Base.{
  ℕ, ◌≤◌, ◌≡◌, refl, subst, sym, ap, ◌∙◌, ◌⊎◌, inl, inr, some, Bool, true, false, List, [], ◌++◌,
  length, get_or, arith, All, All-append,
}
use bonsaigrid.Raft.Node.{
  RaftMsg, request_vote, request_vote_resp, append_entries, append_entries_resp, Role, follower,
  candidate, leader, RaftNode, majority, count_true,
}

abbrev pub IsActive : Role → Type 0
IsActive follower = ⊥
IsActive candidate = Unit {0}
IsActive leader = Unit {0}

abbrev pub IsLeader : Role → Type 0
IsLeader leader = Unit {0}
IsLeader _ = ⊥

-- The log holds the term and the vote that the node acts by.
pub record IsMirrored (n : RaftNode) : Type 0 where
  pub term : n.log.term ≡ n.current_term
  pub vote : n.log.vote ≡ n.voted_for

-- A granted vote names the term and the candidate that the sender now stands by.
abbrev pub IsBacked : RaftNode → ℕ × RaftMsg → Type 0
IsBacked m (to, request_vote_resp t true) = (t ≡ m.current_term) × (m.voted_for ≡ some to)
IsBacked m (to, request_vote_resp t false) = Unit {0}
IsBacked m (to, request_vote _ _ _ _) = Unit {0}
IsBacked m (to, append_entries _ _ _ _ _ _) = Unit {0}
IsBacked m (to, append_entries_resp _ _ _) = Unit {0}

-- Where a ballot that `m` counts comes from: its own vote, a ballot that it counted already in
-- this term, or one that `heard` names.
abbrev pub Source : (ℕ → ℕ → Type 0) → RaftNode → RaftNode → ℕ → Type 0
Source heard n m v =
    ((v ≡ m.id) × (m.voted_for ≡ some m.id))
    ⊎ (IsActive n.role × (m.current_term ≡ n.current_term) × (get_or n.votes v false ≡ true))
    ⊎ heard v m.current_term

-- From `n` to `m` with the messages `sent`, on hearing of the votes `heard`.
pub record Moves (heard : ℕ → ℕ → Type 0) (n m : RaftNode) (sent : List (ℕ × RaftMsg))
    : Type 0 where
  pub same_id : m.id ≡ n.id
  pub same_peers : m.peers ≡ n.peers
  pub same_size : length m.votes ≡ length n.votes
  pub mirrors : IsMirrored n → IsMirrored m
  pub term_le : n.current_term ≤ m.current_term
  pub vote_kept :
      (c : ℕ) → m.current_term ≡ n.current_term → n.voted_for ≡ some c → m.voted_for ≡ some c
  pub backed : All (IsBacked m) sent
  pub counted : (v : ℕ) → IsActive m.role → get_or m.votes v false ≡ true → Source heard n m v
  pub office :
      (IsLeader n.role → majority n ≤ count_true n.votes)
      → IsLeader m.role
      → majority m ≤ count_true m.votes

abbrev pub Silence : ℕ → ℕ → Type 0
Silence v t = ⊥

-- A change of fields that the election does not read.
pub record SameBallot (n m : RaftNode) : Type 0 where
  pub same_id : m.id ≡ n.id
  pub same_peers : m.peers ≡ n.peers
  pub same_votes : m.votes ≡ n.votes
  pub same_term : m.current_term ≡ n.current_term
  pub same_vote : m.voted_for ≡ n.voted_for
  pub same_log_term : m.log.term ≡ n.log.term
  pub same_log_vote : m.log.vote ≡ n.log.vote

pub SameBallot-refl : (n : RaftNode) → SameBallot n n
SameBallot-refl n = record {
  same_id = refl;
  same_peers = refl;
  same_votes = refl;
  same_term = refl;
  same_vote = refl;
  same_log_term = refl;
  same_log_vote = refl;
}

role_back {ℓ} :
    (P : Role → Type ℓ) {r q : Role} → (r ≡ q) ⊎ (r ≡ follower) → (P follower → P q) → P r → P q
role_back P (inl e) f h = subst P e h
role_back P (inr e) f h = f (subst P e h)

module _ {heard : ℕ → ℕ → Type 0} where
  -- With the role kept, or given up for that of a follower.
  pub SameBallot-Moves :
      (n m : RaftNode) (sent : List (ℕ × RaftMsg))
      → SameBallot n m
      → (m.role ≡ n.role) ⊎ (m.role ≡ follower)
      → All (IsBacked m) sent
      → Moves heard n m sent
  unfolding majority
  SameBallot-Moves n m sent s r b = record {
    same_id = s.same_id;
    same_peers = s.same_peers;
    same_size = ap length s.same_votes;
    mirrors = λ h. record {
      term = s.same_log_term ∙ h.term ∙ sym s.same_term;
      vote = s.same_log_vote ∙ h.vote ∙ sym s.same_vote;
    };
    term_le = omega (arith, s.same_term);
    vote_kept = λ c e h. s.same_vote ∙ h;
    backed = b;
    counted = λ v a h. inr (
        inl (
          role_back IsActive r (λ x. absurd x) a,
          s.same_term,
          sym (ap (λ (x : List Bool). get_or x v false) s.same_votes) ∙ h,
        ));
    office =
        λ held a. rw (s.same_peers, s.same_votes) (held (role_back IsLeader r (λ x. absurd x) a));
  }

  pub Moves-send :
      (n m : RaftNode) (sent sent' : List (ℕ × RaftMsg))
      → Moves heard n m sent
      → All (IsBacked m) sent'
      → Moves heard n m (sent' ++ sent)
  Moves-send n m sent sent' f b = record {
    same_id = f.same_id;
    same_peers = f.same_peers;
    same_size = f.same_size;
    mirrors = f.mirrors;
    term_le = f.term_le;
    vote_kept = f.vote_kept;
    backed = All-append (IsBacked m) sent' sent b f.backed;
    counted = f.counted;
    office = f.office;
  }

module _ {first second heard : ℕ → ℕ → Type 0} (up : (v t : ℕ) → first v t → heard v t)
    (up' : (v t : ℕ) → second v t → heard v t) where
  pub Moves-trans :
      (n k m : RaftNode) (sent : List (ℕ × RaftMsg))
      → Moves first n k []
      → Moves second k m sent
      → Moves heard n m sent
  Moves-trans n k m sent f g = record {
    same_id = g.same_id ∙ f.same_id;
    same_peers = g.same_peers ∙ f.same_peers;
    same_size = g.same_size ∙ f.same_size;
    mirrors = λ h. g.mirrors (f.mirrors h);
    term_le = omega (arith, f.term_le, g.term_le);
    vote_kept = λ c e h.
        let back : k.current_term ≡ n.current_term = omega (arith, f.term_le, g.term_le) in
        g.vote_kept c (e ∙ sym back) (f.vote_kept c back h);
    backed = g.backed;
    counted = λ v a h. source v (g.counted v a h);
    office = λ held a. g.office (λ b. f.office held b) a;
  }
    where
      earlier : (v : ℕ) → m.current_term ≡ k.current_term → Source first n k v → Source heard n m v
      earlier v e (inl (p, q)) =
          inl (p ∙ sym g.same_id, g.vote_kept k.id e q ∙ ap some (sym g.same_id))
      earlier v e (inr (inl (a, t, q))) = inr (inl (a, e ∙ t, q))
      earlier v e (inr (inr x)) = inr (inr (subst (heard v) (sym e) (up v k.current_term x)))

      source : (v : ℕ) → Source second k m v → Source heard n m v
      source v (inl h) = inl h
      source v (inr (inl (a, t, q))) = earlier v t (f.counted v a q)
      source v (inr (inr h)) = inr (inr (up' v m.current_term h))
