-- ===== src/Raft/Node/Append.antt =====
-- What `on_append` in crates/raft/src/lib.rs does with an AppendEntries that it accepts.
use bonsaigrid.Base.{
  ℕ, suc, ◌+◌, ◌≡◌, some, true, List, [], ◌∷◌, length, ltb, if◌then◌else◌, arith, min,
}
use bonsaigrid.Raft.Log.{Entry, RaftLog, last_index}
use bonsaigrid.Raft.Log.Contiguous.{Consecutive}
use bonsaigrid.Raft.Node.{append_entries_resp, RaftNode, Outcome, follower}
use bonsaigrid.Raft.Node.Replication.{store_entry, store_entries}
use bonsaigrid.Raft.Node.Matching.{Stored}

pub store_entries-last :
    (log : RaftLog) (s idx : ℕ) (es : List Entry)
    → Consecutive s es
    → idx ≡ s
    → (store_entries log idx es).1 ≡ s + length es
unfolding store_entries
store_entries-last log s idx [] c p = omega arith
store_entries-last log s idx (e ∷ es) c p =
    omega (arith, store_entries-last (store_entry log e) (suc s) e.index es c.1 c.0)

-- An AppendEntries that is neither stale nor mismatched.
pub record Accepts (n : RaftNode) (term lead prev : ℕ) (es : List Entry) (commit : ℕ) (r : Outcome)
    : Type 0 where
  pub stored : Stored n.log prev es r.0.log
  pub reply : r.1 ≡ (lead, append_entries_resp n.current_term true (prev + length es)) ∷ []
  pub follows : (r.0.role ≡ follower) × (r.0.leader_id ≡ some lead)
  pub commits :
      r.0.commit_index
      ≡ (if ltb n.commit_index commit then min commit (last_index r.0.log) else n.commit_index)
  pub same_term : r.0.current_term ≡ n.current_term
