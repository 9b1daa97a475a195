-- ===== src/Raft/Node/Commit.antt =====
-- The commit rule and the drain of committed commands of crates/raft/src/lib.rs.
use bonsaigrid.Base.{
  ℕ, zero, suc, ◌+◌, ◌-◌, ◌≤◌, ◌<◌, ◌≡◌, refl, subst, ap, ℕ_discrete, ◌⊎◌, inl, inr, some, true,
  false, List, [], ◌∷◌, length, arith, Bool-cases, max,
}
use bonsaigrid.Raft.Log.{Entry, RaftLog, last_index, term_at, entry_at, command_at}
use bonsaigrid.Raft.Log.Contiguous.{IsContiguous}
use bonsaigrid.Raft.Log.Entries.{entry_at-index}
use bonsaigrid.Raft.Node.{RaftNode, majority}
use bonsaigrid.Raft.Node.Replication.{
  replicas, can_commit, scan_commit, advance_commit, drain, take_committed,
}

-- An entry of the current term that a majority is known to hold.
abbrev pub IsCommittable : RaftNode → ℕ → Type 0
IsCommittable n i =
    (term_at n.log i ≡ n.current_term) × (majority n ≤ replicas n.match_index n.peers i)

IsCommittable-can_commit : (n : RaftNode) (i : ℕ) → can_commit n i ≡ true → IsCommittable n i
unfolding can_commit
IsCommittable-can_commit n i h = ground arith

can_commit-IsCommittable : (n : RaftNode) (i : ℕ) → IsCommittable n i → can_commit n i ≡ true
unfolding can_commit
can_commit-IsCommittable n i h = ground arith

pub record Commits (n : RaftNode) (last c : ℕ) : Type 0 where
  pub forward : n.commit_index ≤ c
  pub allowed : (c ≡ n.commit_index) ⊎ ((c ≤ last) × IsCommittable n c)
  pub highest : (i : ℕ) → c < i → i ≤ last → ¬ IsCommittable n i

allowed_above :
    (n : RaftNode) (k c : ℕ)
    → (c ≡ n.commit_index) ⊎ ((c ≤ n.commit_index + k) × IsCommittable n c)
    → (c ≡ n.commit_index) ⊎ ((c ≤ n.commit_index + suc k) × IsCommittable n c)
allowed_above n k c (inl e) = inl e
allowed_above n k c (inr (h, m)) = inr (omega arith, m)

highest_above :
    (n : RaftNode) (k i : ℕ)
    → can_commit n (n.commit_index + suc k) ≡ false
    → (i ≤ n.commit_index + k → ¬ IsCommittable n i)
    → i ≤ n.commit_index + suc k
    → ¬ IsCommittable n i
highest_above n k i e below b m = elim (ℕ_discrete i (n.commit_index + suc k)) [
  | yes same ↦ cc (e, ap (can_commit n) same, can_commit-IsCommittable n i m)
  | no ne ↦ below (omega arith) m
]

scan_commit-Commits : (n : RaftNode) (k : ℕ) → Commits n (n.commit_index + k) (scan_commit n k)
unfolding scan_commit
scan_commit-Commits n zero = record {
  forward = omega arith;
  allowed = inl refl;
  highest = λ i h b. absurd (omega arith);
}
scan_commit-Commits n (suc k) =
    let below = scan_commit-Commits n k in
    elim (Bool-cases (can_commit n (n.commit_index + suc k))) [
      | inl e ↦ rw e (record {
        forward = omega arith;
        allowed = inr (omega arith, IsCommittable-can_commit n _ e);
        highest = λ i h b. absurd (omega arith);
      })
      | inr e ↦ rw e (record {
        forward = below.forward;
        allowed = allowed_above n k (scan_commit n k) below.allowed;
        highest = λ i h b. highest_above n k i e (below.highest i h) b;
      })
    ]

-- The commit rule: the index never falls, it moves only to an entry of the current term that a
-- majority holds, and no committable index up to the end of the log lies above it.
pub advance_commit-Commits :
    (n : RaftNode)
    → n.commit_index ≤ last_index n.log
    → Commits n (last_index n.log) (advance_commit n).commit_index
unfolding advance_commit
advance_commit-Commits n h =
    let e : n.commit_index + (last_index n.log - n.commit_index) ≡ last_index n.log = omega arith in
    subst (λ last. Commits n last (scan_commit n (last_index n.log - n.commit_index))) e
      (scan_commit-Commits n (last_index n.log - n.commit_index))

-- The indices `applied + 1`, `applied + 2`, and so on, each with the command that the log holds.
abbrev pub InOrder : RaftLog → ℕ → List (ℕ × List ℕ) → Type 0
InOrder log applied [] = Unit {0}
InOrder log applied ((i, command) ∷ out) =
    (i ≡ suc applied) × (command_at log i ≡ some command) × InOrder log i out

command_at-some :
    (log : RaftLog) (i : ℕ) (e : Entry)
    → entry_at log i ≡ some e
    → command_at log i ≡ some e.command
unfolding command_at
command_at-some log i e p = ground (arith, p)

command_at-live :
    (log : RaftLog) (i : ℕ)
    → IsContiguous log
    → log.snapshot_index < i
    → i ≤ last_index log
    → (command : List ℕ) × (command_at log i ≡ some command)
command_at-live log i c h k =
    let (e, p, _) = entry_at-index log i c h k in (e.command, command_at-some log i e p)

drain-InOrder :
    (log : RaftLog) (applied k : ℕ)
    → IsContiguous log
    → log.snapshot_index ≤ applied
    → applied + k ≤ last_index log
    → InOrder log applied (drain log applied k) × (length (drain log applied k) ≡ k)
unfolding drain
drain-InOrder log applied zero c h b = (tt, refl)
drain-InOrder log applied (suc k) c h b =
    let (command, e) = command_at-live log (suc applied) c (omega arith) (omega arith) in
    let rest = drain-InOrder log (suc applied) k c (omega arith) (omega arith) in
    rw (e, drain) ((refl, e, rest.0), ap suc rest.1)

-- Draining hands over every index between the applied and the commit index once, in order, each
-- with its command. The applied index then stands at the commit index, so a second drain is empty.
pub take_committed-InOrder :
    (n : RaftNode)
    → IsContiguous n.log
    → n.log.snapshot_index ≤ n.last_applied
    → n.last_applied ≤ n.commit_index
    → n.commit_index ≤ last_index n.log
    → let r = take_committed n in
      InOrder n.log n.last_applied r.1
      × (length r.1 ≡ n.commit_index - n.last_applied)
      × (r.0.last_applied ≡ n.commit_index)
      × ((take_committed r.0).1 ≡ [])
unfolding take_committed drain
take_committed-InOrder n c h k b =
    let d =
      drain-InOrder n.log n.last_applied (n.commit_index - n.last_applied) c h (omega arith) in
    let e : n.commit_index - max n.last_applied n.commit_index ≡ 0 = omega arith in
    (d.0, d.1, omega arith, rw e)
