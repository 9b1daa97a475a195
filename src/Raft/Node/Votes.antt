-- ===== src/Raft/Node/Votes.antt =====
-- Each handler of crates/raft/src/lib.rs moves the term, the vote and the ballots of its node only
-- in the ways of `Moves`.
use bonsaigrid.Base.{
  ℕ, zero, suc, ◌+◌, ◌≤◌, ◌<◌, ◌≡◌, refl, subst, sym, ◌∙◌, ◌⊎◌, inl, inr, Option, some, Bool, true,
  false, List, [], ◌∷◌, length-set, get_or, set, ◌==◌, arith, All, Bool-cases, get_or-set_ne,
  ℕ_discrete, u64_mod, add64-eq_of_lt, length-map,
}
use bonsaigrid.Raft.Log.{persist_term_vote}
use bonsaigrid.Raft.Node.{
  RaftMsg, request_vote_resp, Role, candidate, RaftNode, majority, count_true, is_role_candidate,
}
use bonsaigrid.Raft.Node.Timers.{reset_election_timeout}
use bonsaigrid.Raft.Node.Elections.{
  clear, become_follower, send_append, to_others, broadcast_append, take_office,
  maybe_become_leader, stand, can_vote, grant_vote, grants, wins, on_request_vote,
}
use bonsaigrid.Raft.Node.Moves.{
  IsActive, IsBacked, Moves, Silence, SameBallot-refl, SameBallot-Moves,
}

pub become_follower-Moves :
    (n : RaftNode) (term : ℕ) → n.current_term < term → Moves Silence n (become_follower n term) []
unfolding become_follower reset_election_timeout persist_term_vote
become_follower-Moves n term h = record {
  same_id = refl;
  same_peers = refl;
  same_size = refl;
  mirrors = λ _. record { term = refl; vote = refl };
  term_le = omega arith;
  vote_kept = λ c e _. absurd (omega arith);
  backed = tt;
  counted = λ v a _. absurd a;
  office = λ _ a. absurd a;
}

pub to_others-IsBacked :
    (m : RaftNode) (self : ℕ) (make : ℕ → ℕ × RaftMsg) (ps : List ℕ)
    → ((p : ℕ) → IsBacked m (make p))
    → All (IsBacked m) (to_others self make ps)
unfolding to_others
to_others-IsBacked m self make [] h = tt
to_others-IsBacked m self make (p ∷ ps) h = elim (Bool-cases (p == self)) [
  | inl e ↦ rw e (to_others-IsBacked m self make ps h)
  | inr e ↦ rw e (h p, to_others-IsBacked m self make ps h)
]

pub broadcast_append-IsBacked : (m : RaftNode) → All (IsBacked m) (broadcast_append m)
unfolding broadcast_append send_append
broadcast_append-IsBacked m = to_others-IsBacked m m.id (send_append m) m.peers (λ p. tt)

pub nothing_sent : (n : RaftNode) → Moves Silence n n []
nothing_sent n = SameBallot-Moves n n [] (SameBallot-refl n) (inl refl) tt

pub is_candidate_eq : (r : Role) → is_role_candidate r ≡ true → r ≡ candidate
is_candidate_eq r h = ground arith

take_office-Moves :
    (n : RaftNode)
    → n.role ≡ candidate
    → majority n ≤ count_true n.votes
    → Moves Silence n (take_office n) (broadcast_append (take_office n))
unfolding take_office majority
take_office-Moves n r h = record {
  same_id = refl;
  same_peers = refl;
  same_size = refl;
  mirrors = λ k. record { term = k.term; vote = k.vote };
  term_le = omega arith;
  vote_kept = λ c e k. k;
  backed = broadcast_append-IsBacked (take_office n);
  counted = λ v a k. inr (inl (subst IsActive (sym r) tt, refl, k));
  office = λ _ _. h;
}

pub maybe_become_leader-Moves :
    (n : RaftNode) → Moves Silence n (maybe_become_leader n).0 (maybe_become_leader n).1
unfolding maybe_become_leader
maybe_become_leader-Moves n = elim (Bool-cases (wins n)) [
  | inl e ↦ rw e (
      take_office-Moves n (is_candidate_eq n.role (unfold wins in ground (arith, e)))
        (unfold wins in ground (arith, e)))
  | inr e ↦ rw e (nothing_sent n)
]

can_vote_eq : (o : Option ℕ) (c v : ℕ) → can_vote o c ≡ true → o ≡ some v → some c ≡ some v
can_vote_eq o c v h e = ground arith

grant_vote-Moves :
    (n : RaftNode) (cand : ℕ)
    → can_vote n.voted_for cand ≡ true
    → Moves Silence n (grant_vote n cand) ((cand, request_vote_resp n.current_term true) ∷ [])
unfolding grant_vote reset_election_timeout persist_term_vote majority
grant_vote-Moves n cand can = record {
  same_id = refl;
  same_peers = refl;
  same_size = refl;
  mirrors = λ _. record { term = refl; vote = refl };
  term_le = omega arith;
  vote_kept = λ c e k. can_vote_eq n.voted_for cand c can k;
  backed = ((refl, refl), tt);
  counted = λ v a k. inr (inl (a, refl, k));
  office = λ held a. held a;
}

pub on_request_vote-Moves :
    (n : RaftNode) (term cand lli llt : ℕ)
    → let r = on_request_vote n term cand lli llt in Moves Silence n r.0 r.1
unfolding on_request_vote
on_request_vote-Moves n term cand lli llt = elim (Bool-cases (grants n term cand lli llt)) [
  | inl e ↦ rw e (grant_vote-Moves n cand (unfold grants in ground (arith, e)))
  | inr e ↦ rw e (SameBallot-Moves n n _ (SameBallot-refl n) (inl refl) (tt, tt))
]

get_or-clear : (bs : List Bool) (v : ℕ) → get_or (clear bs) v false ≡ false
get_or-clear [] v = refl
get_or-clear (b ∷ bs) zero = refl
get_or-clear (b ∷ bs) (suc v) = get_or-clear bs v

pub get_or-set-true :
    (bs : List Bool) (i v : ℕ)
    → get_or (set bs i true) v false ≡ true
    → (v ≡ i) ⊎ (get_or bs v false ≡ true)
get_or-set-true bs i v h = elim (ℕ_discrete i v) [
  | yes e ↦ inl (sym e)
  | no ne ↦ inr (sym (get_or-set_ne bs i v true false ne) ∙ h)
]

pub stand-Moves : (n : RaftNode) → n.current_term + 1 < u64_mod → Moves Silence n (stand n) []
unfolding stand reset_election_timeout persist_term_vote
stand-Moves n h = record {
  same_id = refl;
  same_peers = refl;
  same_size = length-set (clear n.votes) n.id true ∙ length-map n.votes (λ _. false);
  mirrors = λ _. record { term = refl; vote = refl };
  term_le = omega (arith, add64-eq_of_lt n.current_term 1);
  vote_kept = λ c e _. absurd (omega (arith, add64-eq_of_lt n.current_term 1));
  backed = tt;
  counted = λ v a e. inl (own v (get_or-set-true (clear n.votes) n.id v e), refl);
  office = λ _ a. absurd a;
}
  where
    own : (v : ℕ) → (v ≡ n.id) ⊎ (get_or (clear n.votes) v false ≡ true) → v ≡ n.id
    own v (inl e) = e
    own v (inr e) = cc (get_or-clear n.votes v)
