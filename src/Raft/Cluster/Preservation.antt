-- ===== src/Raft/Cluster/Preservation.antt =====
-- A handler run by one member keeps the invariant of the group.
use bonsaigrid.Base.{
  Elem, ℕ, ◌<◌, ◌≡◌, ◌≢◌, refl, subst, sym, ap, ◌∙◌, ◌⊎◌, inl, inr, some, true, false, List, get_or,
  arith, ℕ_discrete,
}
use bonsaigrid.Raft.Node.{RaftMsg, request_vote_resp, RaftNode, majority}
use bonsaigrid.Raft.Node.Timers.{new}
use bonsaigrid.Raft.Node.Moves.{IsActive, Source, Moves}
use bonsaigrid.Raft.Cluster.{Cluster, after}
use bonsaigrid.Raft.Cluster.Invariant.{
  IsMember, ballot, Stands, Inv, cast-cases, cast-old, cast-new, packets-cases,
}

nodes-after_self :
    (s : Cluster) (i : ℕ) (n : RaftNode) (out : List (ℕ × RaftMsg)) → (after s i n out).nodes i ≡ n
unfolding after
nodes-after_self s i n out = ground arith

nodes-after_ne :
    (s : Cluster) (i j : ℕ) (n : RaftNode) (out : List (ℕ × RaftMsg))
    → j ≢ i
    → (after s i n out).nodes j ≡ s.nodes j
unfolding after
nodes-after_ne s i j n out h = ground arith

-- A property of every member, once it is shown of the one that moved.
nodes-after {ℓ} :
    (P : ℕ → RaftNode → Type ℓ) (s : Cluster) (i : ℕ) (n : RaftNode) (out : List (ℕ × RaftMsg))
    → P i n
    → (j : ℕ) → P j (s.nodes j)
    → P j ((after s i n out).nodes j)
nodes-after P s i n out moved j still = elim (ℕ_discrete j i) [
  | yes e ↦
      subst (λ k. P k ((after s i n out).nodes k)) (sym e)
        (subst (P i) (sym (nodes-after_self s i n out)) moved)
  | no ne ↦ subst (P j) (sym (nodes-after_ne s i j n out ne)) still
]

module _ (size : ℕ) (s : Cluster) (i : ℕ) (m : RaftNode) (out : List (ℕ × RaftMsg))
    (heard : ℕ → ℕ → Type 0) (bound : i < size) (v : Inv size s) (f : Moves heard (s.nodes i) m out)
    (known : (x t : ℕ) → heard x t → Elem (ballot x t i) s.ballots) where
  after-IsMember : IsMember size i m
  unfolding majority
  after-IsMember =
      let l = v.local i bound in
      record {
        is_id = f.same_id ∙ l.is_id;
        is_peers = f.same_peers ∙ l.is_peers;
        is_size = f.same_size ∙ l.is_size;
        mirrored = f.mirrors l.mirrored;
        elected = f.office l.elected;
      }

  moved-Stands : (t c : ℕ) → Stands (s.nodes i) t c → Stands m t c
  moved-Stands t c (inl h) = inl (omega (arith, f.term_le))
  moved-Stands t c (inr (e, h)) = elim (ℕ_discrete m.current_term (s.nodes i).current_term) [
    | yes same ↦ inr (e ∙ sym same, f.vote_kept c same h)
    | no ne ↦ inl (omega (arith, f.term_le))
  ]

  old-ballot :
      (x t c : ℕ) → Elem (ballot x t c) s.ballots → Elem (ballot x t c) (after s i m out).ballots
  unfolding after
  old-ballot x t c h = cast-old i m.current_term m.voted_for s.ballots (ballot x t c) h

  new-ballot :
      (c : ℕ) → m.voted_for ≡ some c → Elem (ballot i m.current_term c) (after s i m out).ballots
  unfolding after
  new-ballot c e = cast-new i m.current_term c m.voted_for s.ballots e

  ballot-cases :
      (x t c : ℕ)
      → Elem (ballot x t c) (after s i m out).ballots
      → Elem (ballot x t c) s.ballots ⊎ ((x ≡ i) × (t ≡ m.current_term) × (m.voted_for ≡ some c))
  unfolding after
  ballot-cases x t c h = cast-cases i m.current_term m.voted_for s.ballots (ballot x t c) h

  nodes-after_eq : (x : ℕ) → x ≡ i → (after s i m out).nodes x ≡ m
  nodes-after_eq x e = ap (λ k. (after s i m out).nodes k) e ∙ nodes-after_self s i m out

  nodes-after-with :
      (P : ℕ → RaftNode → Type 0) (x : ℕ)
      → (x ≡ i → P x m)
      → P x (s.nodes x)
      → P x ((after s i m out).nodes x)
  nodes-after-with P x moved still = elim (ℕ_discrete x i) [
    | yes e ↦ subst (P x) (sym (nodes-after_eq x e)) (moved e)
    | no ne ↦ subst (P x) (sym (nodes-after_ne s i x m out ne)) still
  ]

  moved-ballot :
      (x t c : ℕ)
      → x ≡ i
      → t ≡ m.current_term
      → Elem (ballot x t c) s.ballots
      → Elem (ballot i m.current_term c) s.ballots
  moved-ballot x t c e k h = subst (λ b. Elem b s.ballots) (cc (e, k)) h

  sent-cases :
      (x t c : ℕ)
      → Elem (record { from = x; to = c; msg = request_vote_resp t true }) (after s i m out).sent
      → Elem (record { from = x; to = c; msg = request_vote_resp t true }) s.sent
        ⊎ ((x ≡ i) × (t ≡ m.current_term) × (m.voted_for ≡ some c))
  unfolding after
  sent-cases x t c h = packets-cases i x t c m out s.sent f.backed h

  after-Stands :
      (x t c : ℕ)
      → x < size
      → Elem (ballot x t c) (after s i m out).ballots
      → Stands ((after s i m out).nodes x) t c
  after-Stands x t c b h = elim (ballot-cases x t c h) [
    | inl old ↦
        nodes-after-with (λ j n. Stands n t c) x
          (λ e. moved-Stands t c (subst (λ k. Stands (s.nodes k) t c) e (v.stands x t c b old)))
          (v.stands x t c b old)
    | inr new ↦ subst (λ n. Stands n t c) (sym (nodes-after_eq x new.0)) (inr (new.1, new.2))
  ]

  -- The vote of `m` and a ballot of the same term name one candidate.
  one-vote : (c d : ℕ) → Elem (ballot i m.current_term c) s.ballots → m.voted_for ≡ some d → c ≡ d
  one-vote c d h e = elim (moved-Stands m.current_term c (v.stands i m.current_term c bound h)) [
    | inl lt ↦ absurd (omega arith)
    | inr same ↦ cc (e, same.1)
  ]

  after-single :
      (x t c d : ℕ)
      → x < size
      → Elem (ballot x t c) (after s i m out).ballots
      → Elem (ballot x t d) (after s i m out).ballots
      → c ≡ d
  after-single x t c d b h k = elim (ballot-cases x t c h) [
    | inl old ↦ elim (ballot-cases x t d k) [
      | inl old' ↦ v.single x t c d b old old'
      | inr new ↦ one-vote c d (moved-ballot x t c new.0 new.1 old) new.2
    ]
    | inr new ↦ elim (ballot-cases x t d k) [
      | inl old ↦ sym (one-vote d c (moved-ballot x t d new.0 new.1 old) new.2)
      | inr new' ↦ cc (new.2, new'.2)
    ]
  ]

  after-recorded :
      (j c : ℕ)
      → j < size
      → ((after s i m out).nodes j).voted_for ≡ some c
      → Elem (ballot j ((after s i m out).nodes j).current_term c) (after s i m out).ballots
  after-recorded j c b =
      nodes-after
        (λ k n. n.voted_for ≡ some c → Elem (ballot k n.current_term c) (after s i m out).ballots) s
        i m out (new-ballot c) j (λ e. old-ballot j _ c (v.recorded j c b e))

  as-new :
      (x t c : ℕ)
      → x ≡ i
      → t ≡ m.current_term
      → Elem (ballot i m.current_term c) (after s i m out).ballots
      → Elem (ballot x t c) (after s i m out).ballots
  as-new x t c e k h = subst (λ b. Elem b (after s i m out).ballots) (cc (e, k)) h

  after-voters : (x t c : ℕ) → Elem (ballot x t c) (after s i m out).ballots → x < size
  after-voters x t c h = elim (ballot-cases x t c h) [
    | inl old ↦ v.voters x t c old
    | inr new ↦ omega (arith, new.0)
  ]

  after-promised :
      (x t c : ℕ)
      → Elem (record { from = x; to = c; msg = request_vote_resp t true }) (after s i m out).sent
      → Elem (ballot x t c) (after s i m out).ballots
  after-promised x t c h = elim (sent-cases x t c h) [
    | inl old ↦ old-ballot x t c (v.promised x t c old)
    | inr new ↦ as-new x t c new.0 new.1 (new-ballot c new.2)
  ]

  moved-Source :
      (x : ℕ)
      → Source heard (s.nodes i) m x
      → Elem (ballot x m.current_term i) (after s i m out).ballots
  moved-Source x (inl (e, vote)) =
      let id : m.id ≡ i = f.same_id ∙ (v.local i bound).is_id in
      as-new x m.current_term i (e ∙ id) refl (new-ballot i (vote ∙ ap some id))
  moved-Source x (inr (inl (a, e, h))) =
      old-ballot x m.current_term i
        (subst (λ t. Elem (ballot x t i) s.ballots) (sym e) (v.counts i x bound a h))
  moved-Source x (inr (inr h)) = old-ballot x m.current_term i (known x m.current_term h)

  moved-counts :
      (x : ℕ)
      → IsActive m.role
      → get_or m.votes x false ≡ true
      → Elem (ballot x m.current_term i) (after s i m out).ballots
  moved-counts x a h = moved-Source x (f.counted x a h)

  after-counts :
      (j x : ℕ)
      → j < size
      → IsActive ((after s i m out).nodes j).role
      → get_or ((after s i m out).nodes j).votes x false ≡ true
      → Elem (ballot x ((after s i m out).nodes j).current_term j) (after s i m out).ballots
  after-counts j x b =
      nodes-after
        (λ k n.
          IsActive n.role
          → get_or n.votes x false ≡ true
          → Elem (ballot x n.current_term k) (after s i m out).ballots)
        s i m out (moved-counts x) j (λ a h. old-ballot x _ j (v.counts j x b a h))

  pub after-Inv : Inv size (after s i m out)
  after-Inv = record {
    local = λ j b. nodes-after (IsMember size) s i m out after-IsMember j (v.local j b);
    stands = after-Stands;
    single = after-single;
    voters = after-voters;
    recorded = after-recorded;
    promised = after-promised;
    counts = after-counts;
  }
