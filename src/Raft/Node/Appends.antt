-- ===== src/Raft/Node/Appends.antt =====
-- `Moves` for the append handlers of crates/raft/src/lib.rs.
use bonsaigrid.Base.{
  ℕ, ◌≡◌, refl, ◌∙◌, inl, inr, Bool, ◌&&◌, List, [], ◌∷◌, leb, ◌==◌, arith, Bool-cases,
}
use bonsaigrid.Raft.Log.{Entry, RaftLog, append, truncate_from}
use bonsaigrid.Raft.Node.{follower, RaftNode, is_leader}
use bonsaigrid.Raft.Node.Timers.{reset_election_timeout}
use bonsaigrid.Raft.Node.Elections.{send_append}
use bonsaigrid.Raft.Node.Replication.{
  store_entry, store_entries, accept, follow, prev_matches, on_append, advance_commit, acknowledge,
  back_off, on_append_resp,
}
use bonsaigrid.Raft.Node.Moves.{Moves, Silence, SameBallot, SameBallot-refl, SameBallot-Moves}

-- Storing entries leaves the term and the vote of the log alone.
store_entry-vote :
    (log : RaftLog) (e : Entry)
    → ((store_entry log e).term ≡ log.term) × ((store_entry log e).vote ≡ log.vote)
unfolding store_entry append truncate_from
store_entry-vote log e = ground arith

store_entries-vote :
    (log : RaftLog) (idx : ℕ) (es : List Entry)
    → ((store_entries log idx es).0.term ≡ log.term)
      × ((store_entries log idx es).0.vote ≡ log.vote)
unfolding store_entries
store_entries-vote log idx [] = (refl, refl)
store_entries-vote log idx (e ∷ es) =
    let here = store_entry-vote log e in
    let rest = store_entries-vote (store_entry log e) e.index es in
    (rest.0 ∙ here.0, rest.1 ∙ here.1)

follow-SameBallot : (n : RaftNode) (lead : ℕ) → SameBallot n (follow n lead)
unfolding follow reset_election_timeout
follow-SameBallot n lead = ground arith

accept-SameBallot :
    (n : RaftNode) (lead pli : ℕ) (es : List Entry) (commit : ℕ)
    → SameBallot n (accept (follow n lead) pli es commit).0
unfolding accept follow reset_election_timeout
accept-SameBallot n lead pli es commit = ground (arith, store_entries-vote n.log pli es)

accept-role :
    (n : RaftNode) (lead pli : ℕ) (es : List Entry) (commit : ℕ)
    → (accept (follow n lead) pli es commit).0.role ≡ follower
unfolding accept follow reset_election_timeout
accept-role n lead pli es commit = refl

follow-role : (n : RaftNode) (lead : ℕ) → (follow n lead).role ≡ follower
unfolding follow reset_election_timeout
follow-role n lead = refl

pub on_append-Moves :
    (n : RaftNode) (term lead pli plt : ℕ) (es : List Entry) (commit : ℕ)
    → let r = on_append n term lead pli plt es commit in Moves Silence n r.0 r.1
unfolding on_append
on_append-Moves n term lead pli plt es commit = elim (Bool-cases (leb n.current_term term)) [
  | inl e ↦ elim (Bool-cases (prev_matches n.log pli plt)) [
    | inl p ↦
        rw (e, p)
          (SameBallot-Moves n _ _ (accept-SameBallot n lead pli es commit)
            (inr (accept-role n lead pli es commit)) (tt, tt))
    | inr p ↦
        rw (e, p)
          (SameBallot-Moves n _ _ (follow-SameBallot n lead) (inr (follow-role n lead)) (tt, tt))
  ]
  | inr e ↦ rw e (SameBallot-Moves n n _ (SameBallot-refl n) (inl refl) (tt, tt))
]

acked-SameBallot :
    (n : RaftNode) (from idx : ℕ) → SameBallot n (advance_commit (acknowledge n from idx))
unfolding advance_commit acknowledge
acked-SameBallot n from idx = ground arith

acked-role : (n : RaftNode) (from idx : ℕ) → (advance_commit (acknowledge n from idx)).role ≡ n.role
unfolding advance_commit acknowledge
acked-role n from idx = refl

pub on_append_resp-Moves :
    (n : RaftNode) (from term : ℕ) (success : Bool) (idx : ℕ)
    → let r = on_append_resp n from term success idx in Moves Silence n r.0 r.1
unfolding on_append_resp
on_append_resp-Moves n from term success idx =
    elim (Bool-cases (is_leader n && (term == n.current_term))) [
      | inl e ↦ elim (Bool-cases success) [
        | inl p ↦
            rw (e, p)
              (SameBallot-Moves n _ [] (acked-SameBallot n from idx) (inl (acked-role n from idx))
                tt)
        | inr p ↦
            rw (e, p)
              (SameBallot-Moves n (back_off n from) _ (unfold back_off in ground arith)
                (inl (unfold back_off in refl)) (unfold send_append in (tt, tt)))
      ]
      | inr e ↦ rw e (SameBallot-Moves n n _ (SameBallot-refl n) (inl refl) tt)
    ]
