-- ===== src/Raft/Node/Gap.antt =====
-- A leader of crates/raft/src/lib.rs that has compacted entries which a peer still needs.
use bonsaigrid.Base.{
  ℕ, suc, ◌+◌, ◌-◌, ◌≤◌, ◌<◌, ◌≡◌, sym, subst, ap, ◌∙◌, true, List, [], ◌∷◌, ◌++◌, length,
  length-append, drop, take-all, get_or, arith, u64_mod, le→leb, append_assoc, append-nil, add64,
  sub64, add64-eq_of_lt, sub64-eq_of_le,
}
use bonsaigrid.Raft.Log.{
  Entry, RaftLog, last_index, term_at, entries_from, append, truncate_from, persist_term_vote,
}
use bonsaigrid.Raft.Log.Contiguous.{Consecutive, IsContiguous, last_index_eq, last_index-append}
use bonsaigrid.Raft.Log.Entries.{term_at-missing, entry_at-past_last, entry_at-compacted}
use bonsaigrid.Raft.Node.{RaftMsg, append_entries_resp, RaftNode, msg_term}
use bonsaigrid.Raft.Node.Timers.{reset_election_timeout}
use bonsaigrid.Raft.Node.Elections.{send_append, become_follower}
use bonsaigrid.Raft.Node.Replication.{
  store_entry, store_entries, prev_matches, follow, accept, on_append,
}
use bonsaigrid.Raft.Node.Handlers.{step, catch_up, dispatch}
use bonsaigrid.Raft.Node.Append.{store_entries-last}

-- Past the end of the log an entry is pushed wherever its index lies.
store_entry-past :
    (log : RaftLog) (s : ℕ) (e : Entry)
    → e.index ≡ suc s
    → log.snapshot_index + length log.entries ≤ s
    → last_index log ≤ s
    → s + 2 < u64_mod
    → store_entry log e ≡ append log e
unfolding store_entry append truncate_from
store_entry-past log s e p h k b = ground (
  arith,
  take-all (e.index - add64 log.snapshot_index 1) log.entries,
  add64-eq_of_lt log.snapshot_index 1,
)

abbrev with_entries : RaftLog → List Entry → RaftLog
with_entries l xs = record l { entries = xs }

store_entries-past :
    (log : RaftLog) (s idx : ℕ) (es : List Entry)
    → Consecutive s es
    → log.snapshot_index + length log.entries ≤ s
    → last_index log ≤ s
    → s + length es + 1 < u64_mod
    → (store_entries log idx es).0 ≡ with_entries log (log.entries ++ es)
unfolding store_entries
store_entries-past log s idx [] c h k b =
    ap (λ (xs : List Entry). with_entries log xs) (sym (append-nil log.entries))
store_entries-past log s idx (e ∷ es) c h k b =
    ap (λ l. (store_entries l e.index es).0) (store_entry-past log s e c.0 h k (omega arith))
    ∙ store_entries-past (append log e) (suc s) e.index es c.1
        (unfold append in omega (arith, length-append log.entries (e ∷ [])))
        (omega (arith, last_index-append log e, c.0)) (omega arith)
    ∙ (unfold append in
        ap (λ (xs : List Entry). with_entries log xs) (append_assoc log.entries (e ∷ []) es))

not-Consecutive :
    (s : ℕ) (xs : List Entry) (e : Entry) (es : List Entry)
    → s + length xs + 1 < e.index
    → ¬ Consecutive s (xs ++ e ∷ es)
not-Consecutive s [] e es h c = omega (arith, c.0)
not-Consecutive s (x ∷ xs) e es h c = not-Consecutive (suc s) xs e es (omega arith) c.1

-- Entries that start past the next index are taken, and leave a hole in the log.
gap_accept :
    (n : RaftNode) (lead prev s commit : ℕ) (es : List Entry)
    → IsContiguous n.log
    → Consecutive s es
    → 0 < length es
    → prev ≤ s
    → last_index n.log < s
    → s + length es + 1 < u64_mod
    → let a = accept (follow n lead) prev es commit in
      (a.1 ≡ s + length es) × ¬ IsContiguous a.0.log
unfolding accept follow reset_election_timeout store_entries
gap_accept n lead prev s commit [] c k h p b w = elim h [ ]
gap_accept n lead prev s commit (e ∷ es) c k h p b w = (
  omega (arith, store_entries-last (store_entry n.log e) (suc s) e.index es k.1 k.0),
  λ bad.
      let l = last_index_eq n.log c in
      not-Consecutive n.log.snapshot_index n.log.entries e es (omega (arith, k.0)) (
        (subst IsContiguous
          (store_entries-past n.log s prev (e ∷ es) k (omega arith) (omega arith) (omega arith))
          bad).run),
)

-- The message of a leader that has dropped the entries from `next` on, and still has others.
module _ (l n : RaftNode) (p : ℕ) (cl : IsContiguous l.log) (cn : IsContiguous n.log)
    (behind : last_index n.log + 1 < get_or l.next_index p 0)
    (dropped : get_or l.next_index p 0 ≤ l.log.snapshot_index)
    (kept : l.log.snapshot_index < last_index l.log) where
  prev_eq : sub64 (get_or l.next_index p 0) 1 ≡ get_or l.next_index p 0 - 1
  prev_eq = sub64-eq_of_le _ 1 (omega arith) (omega (arith, cl.fits))

  leader_term : term_at l.log (get_or l.next_index p 0 - 1) ≡ 0
  leader_term = term_at-missing l.log _ (omega arith) (entry_at-compacted l.log _ (omega arith))

  peer_term : term_at n.log (get_or l.next_index p 0 - 1) ≡ 0
  peer_term =
      term_at-missing n.log _ (omega (arith, last_index_eq n.log cn))
        (entry_at-past_last n.log _ cn (omega arith))

  all_sent : entries_from l.log (get_or l.next_index p 0) ≡ l.log.entries
  unfolding entries_from
  all_sent =
      let e : get_or l.next_index p 0 - add64 l.log.snapshot_index 1 ≡ 0 =
        omega (arith, add64-eq_of_lt l.log.snapshot_index 1 (omega (arith, cl.fits))) in
      ap (λ k. drop k l.log.entries) e

  agrees : prev_matches n.log (get_or l.next_index p 0 - 1) 0 ≡ true
  unfolding prev_matches
  agrees = ground (arith, peer_term)

  gap_on_append :
      n.current_term ≤ l.current_term
      → (dispatch n l.id (send_append l p).1).1
          ≡ (l.id, append_entries_resp n.current_term true (last_index l.log)) ∷ []
        × ¬ IsContiguous (dispatch n l.id (send_append l p).1).0.log
  unfolding send_append dispatch on_append
  gap_on_append t =
      let prev = get_or l.next_index p 0 - 1 in
      let g =
        gap_accept n l.id prev l.log.snapshot_index l.commit_index l.log.entries cn cl.run
          (omega (arith, last_index_eq l.log cl)) (omega arith) (omega arith)
          (omega (arith, cl.fits)) in
      rw
        (
          prev_eq,
          leader_term,
          all_sent,
          agrees,
          le→leb n.current_term l.current_term t,
          last_index_eq l.log cl,
        )
        (ap (λ x. (l.id, append_entries_resp n.current_term true x) ∷ []) g.0, g.1)

-- Catching up with a term leaves the entries of the log alone.
catch_up-log :
    (n : RaftNode) (msg : RaftMsg)
    → n.current_term ≤ msg_term msg
    → ((catch_up n msg).current_term ≡ msg_term msg)
      × ((catch_up n msg).log.entries ≡ n.log.entries)
      × ((catch_up n msg).log.snapshot_index ≡ n.log.snapshot_index)
unfolding catch_up become_follower reset_election_timeout persist_term_vote
catch_up-log n msg h = ground arith

same_entries :
    (a b : RaftLog)
    → a.entries ≡ b.entries
    → a.snapshot_index ≡ b.snapshot_index
    → IsContiguous b
    → IsContiguous a × (last_index a ≡ last_index b)
unfolding last_index
same_entries a b e k c = (record { run = rw (e, k) c.run; fits = rw (e, k) c.fits }, rw (e, k))

-- A leader that has compacted past the next index of a peer, as one elected after compacting may,
-- sends a previous term 0 for the entry that it dropped. A peer whose log ends before that entry
-- reads 0 there too: it takes the rest of the leader's log, acknowledges all of it, and is left
-- with a log whose indices have a hole.
pub compacted_leader_leaves_gap :
    (l n : RaftNode) (p : ℕ)
    → IsContiguous l.log
    → IsContiguous n.log
    → last_index n.log + 1 < get_or l.next_index p 0
    → get_or l.next_index p 0 ≤ l.log.snapshot_index
    → l.log.snapshot_index < last_index l.log
    → n.current_term ≤ l.current_term
    → let r = step n l.id (send_append l p).1 in
      (r.1 ≡ (l.id, append_entries_resp l.current_term true (last_index l.log)) ∷ [])
      × ¬ IsContiguous r.0.log
unfolding step
compacted_leader_leaves_gap l n p cl cn behind dropped kept t =
    let msg = (send_append l p).1 in
    let k = catch_up n msg in
    let same = catch_up-log n msg (unfold send_append msg_term in t) in
    let ck = same_entries k.log n.log same.1 same.2 cn in
    let e : k.current_term ≡ l.current_term = unfold send_append msg_term in same.0 in
    let g = gap_on_append l k p cl ck.0 (omega (arith, ck.1)) dropped kept (omega (arith, e)) in
    (g.0 ∙ ap (λ x. (l.id, append_entries_resp x true (last_index l.log)) ∷ []) e, g.1)
